-- ===== src/Auth/Service/Rotation.antt =====
-- `Refresh` and `Logout` of internal/auth/application/service/auth_service.go use a refresh token up.
use go_pet_project.Base.{
  ℕ, suc, Bool, false, some, none, List, [], ◌∷◌, ◌++◌, ◌≡◌, refl, ◌∙◌, arith, find, update_rows,
  inl, inr, Bool-cases, Option-cases, if◌then◌else◌,
}
use go_pet_project.Base.Text.{Text, trim_space, is_empty}
use go_pet_project.Base.Int.{◌<ℤ◌}
use go_pet_project.Time.{Time, add}
use go_pet_project.Errors.{ok, Result-cases}
use go_pet_project.World.{World, Tables, tick}
use go_pet_project.World.Frames.{transaction-ok}
use go_pet_project.Auth.Domain.{RefreshToken, is_revoked}
use go_pet_project.Auth.Repository.{
  has_hash, is_unrevoked, revoked_row, find_by_hash, rotate_in, rotate, create,
}
use go_pet_project.Auth.Service.{
  Config, RefreshResult, new_refresh_token, generate_access_token, replace_token, exchange, refresh,
}

pub find_by_hash-ok :
    (hash : Text) (w : World) {t : RefreshToken}
    → (find_by_hash hash w).0 ≡ ok t
    → (find (has_hash hash) w.tables.refresh_tokens ≡ some t) × ((find_by_hash hash w).1 ≡ tick w)
unfolding find_by_hash
find_by_hash-ok hash w h = ground arith

-- A revocation changes no hash: the same row is found, whatever is appended.
pub find-revoked :
    (hash : Text) (at : Time) (p : RefreshToken → Bool) (rows more : List RefreshToken)
    {t : RefreshToken}
    → find (has_hash hash) rows ≡ some t
    → find (has_hash hash) (update_rows p (revoked_row at) rows ++ more)
      ≡ some (if p t then revoked_row at t else t)
find-revoked hash at p [] more h = absurd (ground arith)
find-revoked hash at p (r ∷ rows) more {t} h = elim (Bool-cases (has_hash hash r)) [
  | inl same ↦ elim (Bool-cases (p r)) [ inl hit ↦ ground arith | inr miss ↦ ground arith ]
  | inr other ↦
      let rest = find-revoked hash at p rows more {t = t} (ground arith) in
      elim (Bool-cases (p r)) [ inl hit ↦ ground arith | inr miss ↦ ground arith ]
]

pub rotate_in-ok :
    (hash : Text) (new : RefreshToken) (at : Time) (w : World) {t : RefreshToken}
    → (rotate_in hash new at w).0 ≡ ok t
    → (rotate_in hash new at w).1.tables ≡ record (w.tables) {
      refresh_tokens =
          update_rows (is_unrevoked hash) (revoked_row at) w.tables.refresh_tokens ++ new ∷ [];
    }
unfolding rotate_in create find_by_hash
rotate_in-ok hash new at w h = ground arith

-- What an exchange of the token with this hash, at this time, has done to the tables.
abbrev pub IsRotated : Config → Text → Time → Tables → Tables → Type 0
IsRotated cfg hash at db after =
    (old : RefreshToken) × (new : RefreshToken) × (find (has_hash hash) db.refresh_tokens
      ≡ some old)
    × (is_revoked old ≡ false)
    × (at <ℤ old.expires_at)
    × (new.user_id ≡ old.user_id)
    × (new.revoked_at ≡ none)
    × (new.expires_at ≡ add at cfg.refresh_ttl)
    × (after ≡ record db {
      refresh_tokens =
          update_rows (is_unrevoked hash) (revoked_row at) db.refresh_tokens ++ new ∷ [];
    })

rotate-ok :
    (hash : Text) (new : RefreshToken) (at : Time) (w : World) {t : RefreshToken}
    → (rotate hash new at w).0 ≡ ok t
    → (rotate hash new at w).1.tables ≡ record (w.tables) {
      refresh_tokens =
          update_rows (is_unrevoked hash) (revoked_row at) w.tables.refresh_tokens ++ new ∷ [];
    }
unfolding rotate
rotate-ok hash new at w h =
    let (inner, kept) = transaction-ok (rotate_in hash new at) w h in
    kept ∙ rotate_in-ok hash new at (tick w) inner

pub tables-generate_access_token :
    (cfg : Config) (user : ℕ) (w : World) → (generate_access_token cfg user w).1.tables ≡ w.tables
unfolding generate_access_token
tables-generate_access_token cfg user w = ground arith

replace_token-ok :
    (cfg : Config) (hash : Text) (old : RefreshToken) (at : Time) (w : World) {r : RefreshResult}
    → (replace_token cfg hash old at w).0 ≡ ok r
    → (id : ℕ) × (new_hash : Text) × ((replace_token cfg hash old at w).1.tables
        ≡ record (w.tables) {
          refresh_tokens =
              update_rows (is_unrevoked hash) (revoked_row at) w.tables.refresh_tokens
              ++ new_refresh_token cfg id old.user_id new_hash at ∷ [];
        })
unfolding replace_token
replace_token-ok cfg hash old at w h = elim (Option-cases (w.env.random_token w.step)) [
  | inl failed ↦ absurd (ground arith)
  | inr (raw, read) ↦
      let id = w.env.uuid (suc w.step) in
      let new = new_refresh_token cfg id old.user_id (w.env.sha256_hex raw) at in
      let made = generate_access_token cfg old.user_id (tick (tick w)) in
      let same = tables-generate_access_token cfg old.user_id (tick (tick w)) in
      elim (Result-cases made.0) [
        | inr (e, bad) ↦ absurd (ground arith)
        | inl (access, good) ↦ elim (Result-cases (rotate hash new at made.1).0) [
          | inr (e, bad) ↦ absurd (ground arith)
          | inl (t, rotated) ↦ (
            id,
            w.env.sha256_hex raw,
            rw (read, good, rotated) (rotate-ok hash new at made.1 rotated ∙ rw same refl),
          )
        ]
      ]
]

exchange-IsRotated :
    (cfg : Config) (raw : Text) (w : World) {r : RefreshResult}
    → (exchange cfg raw w).0 ≡ ok r
    → IsRotated cfg
        (w.env.sha256_hex raw)
        (w.env.clock (suc w.step))
        w.tables
        (exchange cfg raw w).1.tables
unfolding exchange
exchange-IsRotated cfg raw w {r} h =
    let hash = w.env.sha256_hex raw in
    let at = w.env.clock (suc w.step) in
    elim (Result-cases (find_by_hash hash w).0) [
      | inr (e, missing) ↦ absurd (ground arith)
      | inl (old, got) ↦
          let (found, after) = find_by_hash-ok hash w got in
          let w2 = tick (tick w) in
          let (id, new_hash, rows) = replace_token-ok cfg hash old at w2 {r = r} (ground arith) in
          (
            old,
            new_refresh_token cfg id old.user_id new_hash at,
            found,
            ground arith,
            ground arith,
            refl,
            refl,
            refl,
            ground arith,
          )
    ]

refresh-exchange :
    (cfg : Config) (token : Text) (w : World) {r : RefreshResult}
    → (refresh cfg token w).0 ≡ ok r
    → refresh cfg token w ≡ exchange cfg (trim_space token) w
unfolding refresh
refresh-exchange cfg token w h = elim (Bool-cases (is_empty (trim_space token))) [
  | inl blank ↦ absurd (ground arith)
  | inr given ↦ rw given refl
]

-- A refresh that succeeds had the token of a row that is neither revoked nor expired. It revokes the
-- row, and adds the one of a new token, of the same user and with a time to live from now.
pub refresh-IsRotated :
    (cfg : Config) (token : Text) (w : World) {r : RefreshResult}
    → (refresh cfg token w).0 ≡ ok r
    → IsRotated cfg
        (w.env.sha256_hex (trim_space token))
        (w.env.clock (suc w.step))
        w.tables
        (refresh cfg token w).1.tables
refresh-IsRotated cfg token w h =
    let same = refresh-exchange cfg token w h in
    rw same (exchange-IsRotated cfg (trim_space token) w (rw same at h))
