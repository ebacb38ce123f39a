-- ===== src/Auth/Service/Revocations.antt =====
-- `Refresh` and `Logout` of internal/auth/application/service/auth_service.go keep what is revoked.
use go_pet_project.Base.{
  ℕ, suc, ◌==◌, Bool, true, some, List, [], ◌∷◌, ◌++◌, ◌≡◌, refl, ◌∙◌, arith, find, update_rows,
  inl, inr, ◌⊎◌, Bool-cases, Option-cases, if◌then◌else◌, subst,
}
use mathlib.Core.List.{append-nil}
use go_pet_project.Base.Text.{Text, trim_space, is_empty}
use go_pet_project.Time.{Time}
use go_pet_project.Errors.{Result, ok, err, Result-cases}
use go_pet_project.World.{World, IsTransactional, transaction, tick}
use go_pet_project.World.Frames.{env-transaction, transaction-ok, transaction_atomic}
use go_pet_project.Auth.Domain.{RefreshToken, is_revoked, is_expired}
use go_pet_project.Auth.Repository.{
  has_hash, is_unrevoked, revoked_row, find_by_hash, rotate_in, rotate, revoke_in, revoke, create,
}
use go_pet_project.Auth.Service
use go_pet_project.Auth.Service.{
  Config, RefreshResult, new_refresh_token, generate_access_token, replace_token, exchange,
  refuse_taken, add_user, revoke_found, open_session, or_gone,
}
use go_pet_project.Auth.Service.Rotation.{find-revoked, rotate_in-ok, tables-generate_access_token}
use go_pet_project.Auth.Service.Sessions.{generate-env}

-- The row with this hash is revoked.
abbrev pub IsDead : Text → List RefreshToken → Type 0
IsDead hash rows = (t : RefreshToken) × (find (has_hash hash) rows ≡ some t) × (is_revoked t ≡ true)

IsDead-update_rows :
    (hash : Text) (p : RefreshToken → Bool) (at : Time) (rows more : List RefreshToken)
    → IsDead hash rows
    → IsDead hash (update_rows p (revoked_row at) rows ++ more)
IsDead-update_rows hash p at rows more (t, found, dead) =
    (if p t then revoked_row at t else t, find-revoked hash at p rows more found, ground arith)

-- Such a call keeps the environment, and what is revoked.
abbrev pub Keeps : Text → World → World → Type 0
Keeps hash w w' =
    IsTransactional w.env
    → (w'.env ≡ w.env)
      × (IsDead hash w.tables.refresh_tokens → IsDead hash w'.tables.refresh_tokens)

env-rotate_in :
    (old : Text) (new : RefreshToken) (at : Time) (w : World)
    → (rotate_in old new at w).1.env ≡ w.env
unfolding rotate_in create find_by_hash
env-rotate_in old new at w = ground arith

env-revoke_in : (hash : Text) (at : Time) (w : World) → (revoke_in hash at w).1.env ≡ w.env
unfolding revoke_in find_by_hash
env-revoke_in hash at w = ground arith

rotate-Keeps :
    (hash old : Text) (new : RefreshToken) (at : Time) (w : World)
    → Keeps hash w (rotate old new at w).1
unfolding rotate
rotate-Keeps hash old new at w t =
    let act = rotate_in old new at in
    (
      env-transaction act w (env-rotate_in old new at (tick w)),
      elim (Result-cases (transaction act w).0) [
        | inr (e, bad) ↦ λ dead. rw (transaction_atomic act w t bad) dead
        | inl (u, good) ↦ λ dead.
            let (inner, kept) = transaction-ok act w good in
            rw (kept ∙ rotate_in-ok old new at (tick w) inner) (
              IsDead-update_rows hash (is_unrevoked old) at w.tables.refresh_tokens (new ∷ []) dead)
      ],
    )

revoke_in-ok :
    (hash : Text) (at : Time) (w : World) {t : RefreshToken}
    → (revoke_in hash at w).0 ≡ ok t
    → ((revoke_in hash at w).1.tables ≡ w.tables)
      ⊎ ((id : ℕ) × ((revoke_in hash at w).1.tables ≡ record (w.tables) {
        refresh_tokens = update_rows (λ t. t.id == id) (revoked_row at) w.tables.refresh_tokens;
      }))
unfolding revoke_in find_by_hash
revoke_in-ok hash at w h = elim (Result-cases (find_by_hash hash w).0) [
  | inr (e, missing) ↦ absurd (ground arith)
  | inl (row, got) ↦ elim (Bool-cases (is_revoked row)) [
    | inl dead ↦ inl (ground arith)
    | inr live ↦ inr (row.id, ground arith)
  ]
]

revoke-Keeps : (hash token : Text) (at : Time) (w : World) → Keeps hash w (revoke token at w).1
unfolding revoke
revoke-Keeps hash token at w t =
    let act = revoke_in token at in
    (
      env-transaction act w (env-revoke_in token at (tick w)),
      elim (Result-cases (transaction act w).0) [
        | inr (e, bad) ↦ λ dead. rw (transaction_atomic act w t bad) dead
        | inl (u, good) ↦ λ dead.
            let (inner, kept) = transaction-ok act w good in
            elim (revoke_in-ok token at (tick w) inner) [
              | inl same ↦ rw (kept ∙ same) dead
              | inr (id, rows) ↦
                  let left =
                    update_rows (λ (t : RefreshToken). t.id == id) (revoked_row at)
                      w.tables.refresh_tokens in
                  rw (kept ∙ rows) (
                    subst (IsDead hash) (append-nil left) (
                      IsDead-update_rows hash (λ t. t.id == id) at w.tables.refresh_tokens [] dead))
            ]
      ],
    )

replace_token-Keeps :
    (hash : Text) (cfg : Config) (old_hash : Text) (old : RefreshToken) (at : Time) (w : World)
    → Keeps hash w (replace_token cfg old_hash old at w).1
unfolding replace_token
replace_token-Keeps hash cfg old_hash old at w t = elim (Option-cases (w.env.random_token w.step)) [
  | inl failed ↦ rw failed (refl, λ dead. dead)
  | inr (raw, read) ↦
      let new =
        new_refresh_token cfg (w.env.uuid (suc w.step)) old.user_id (w.env.sha256_hex raw) at in
      let made = generate_access_token cfg old.user_id (tick (tick w)) in
      let env = generate-env cfg old.user_id (tick (tick w)) in
      let same = tables-generate_access_token cfg old.user_id (tick (tick w)) in
      let (env', kept) = rotate-Keeps hash old_hash new at made.1 (rw env t) in
      elim (Result-cases made.0) [
        | inr (e, bad) ↦ (rw (read, bad) env, λ dead. rw (read, bad, same) dead)
        | inl (access, good) ↦ elim (Result-cases (rotate old_hash new at made.1).0) [
          | inr (e, bad) ↦ (
            rw (read, good, bad) (env' ∙ env),
            λ dead. rw (read, good, bad) (kept (rw same dead)),
          )
          | inl (u, rotated) ↦ (
            rw (read, good, rotated) (env' ∙ env),
            λ dead. rw (read, good, rotated) (kept (rw same dead)),
          )
        ]
      ]
]

exchange-Keeps :
    (hash : Text) (cfg : Config) (raw : Text) (w : World) → Keeps hash w (exchange cfg raw w).1
unfolding exchange find_by_hash
exchange-Keeps hash cfg raw w t =
    let old_hash = w.env.sha256_hex raw in
    let at = w.env.clock (suc w.step) in
    elim (Bool-cases (w.env.statement_fails w.step)) [
      | inl down ↦ rw down (refl, λ dead. dead)
      | inr up ↦ elim (Option-cases (find (has_hash old_hash) w.tables.refresh_tokens)) [
        | inl unknown ↦ rw (up, unknown) (refl, λ dead. dead)
        | inr (old, found) ↦ elim (Bool-cases (is_revoked old)) [
          | inl revoked ↦ rw (up, found, revoked) (refl, λ dead. dead)
          | inr live ↦ elim (Bool-cases (is_expired at old)) [
            | inl late ↦ rw (up, found, live, late) (refl, λ dead. dead)
            | inr early ↦
                rw (up, found, live, early)
                  (replace_token-Keeps hash cfg old_hash old at (tick (tick w)) t)
          ]
        ]
      ]
    ]

pub refresh-Keeps :
    (hash : Text) (cfg : Config) (token : Text) (w : World)
    → Keeps hash w (Service.refresh cfg token w).1
unfolding Service.refresh
refresh-Keeps hash cfg token w = elim (Bool-cases (is_empty (trim_space token))) [
  | inl blank ↦ rw blank (λ t. (refl, λ dead. dead))
  | inr given ↦ rw given (exchange-Keeps hash cfg (trim_space token) w)
]

or_gone-world : (answer : Result RefreshToken) (w : World) → (or_gone answer w).1 ≡ w
or_gone-world (ok token) w = refl
or_gone-world (err e) w = ground arith

revoke_found-Keeps :
    (hash token_hash : Text) (found : Result RefreshToken) (w : World)
    → Keeps hash w (revoke_found token_hash found w).1
revoke_found-Keeps hash token_hash (err e) w t = rw (or_gone-world (err e) w) (refl, λ dead. dead)
revoke_found-Keeps hash token_hash (ok token) w t = elim (Bool-cases (is_revoked token)) [
  | inl revoked ↦ rw revoked (refl, λ dead. dead)
  | inr live ↦
      let at = w.env.clock w.step in
      let answer = revoke token_hash at (tick w) in
      let kept = revoke-Keeps hash token_hash at (tick w) t in
      rw (live, or_gone-world answer.0 answer.1) kept
]

find_by_hash-world : (hash : Text) (w : World) → (find_by_hash hash w).1 ≡ tick w
unfolding find_by_hash
find_by_hash-world hash w = ground arith

pub logout-Keeps : (hash token : Text) (w : World) → Keeps hash w (Service.logout token w).1
unfolding Service.logout
logout-Keeps hash token w = elim (Bool-cases (is_empty (trim_space token))) [
  | inl blank ↦ rw blank (λ t. (refl, λ dead. dead))
  | inr given ↦
      let token_hash = w.env.sha256_hex (trim_space token) in
      rw (given, find_by_hash-world token_hash w)
        (revoke_found-Keeps hash token_hash (find_by_hash token_hash w).0 (tick w))
]
