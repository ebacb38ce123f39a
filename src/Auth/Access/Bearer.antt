-- ===== src/Auth/Access/Bearer.antt =====
-- The access tokens of `GenerateAccessToken`, presented to the middleware.
use go_pet_project.Base.{
  ℕ, true, false, Option, none, some, [], ◌∷◌, ◌++◌, ◌≡◌, ◌≢◌, refl, ap, arith, All, Bool-cases,
  Option-cases, inl, inr, if◌then◌else◌,
}
use go_pet_project.Base.Int.{◌*ℤ◌}
use go_pet_project.Base.Text.{Text, runes, is_space, is_empty}
use go_pet_project.Time.{Time, before, second, add}
use go_pet_project.Time.Calendar.{floor_div}
use go_pet_project.Errors.{ok}
use go_pet_project.World.{World}
use go_pet_project.Auth.Service.{Config, generate_access_token}
use go_pet_project.Auth.Access.{
  Parsed, parsed, expired, split, fields, parse_bearer_token, authenticate, validate_access_token,
  user_id_from_context, validated_user,
}

-- `t.Truncate(time.Second)`, which `NewNumericDate` keeps of a time.
abbrev pub whole_seconds : Time → Time
whole_seconds t = floor_div t 1000000000 *ℤ second

-- What the JWT library documents: a token that is signed with the secret has the claims that it was
-- given, before its expiry, and is expired from then on. A token is a word of base64 letters and dots.
pub record Verifies (parse : Time → Text → Parsed) (sign : ℕ → Time → Time → Option Text)
    : Type 0 where
  pub accepts :
      (user : ℕ) (issued expires now : Time) (token : Text)
      → sign user issued expires ≡ some token
      → before now (whole_seconds expires) ≡ true
      → parse now token
        ≡ parsed (record {
          subject = some user;
          issued_at = some (whole_seconds issued);
          expires_at = some (whole_seconds expires);
        })
  pub expires :
      (user : ℕ) (issued expires now : Time) (token : Text)
      → sign user issued expires ≡ some token
      → before now (whole_seconds expires) ≡ false
      → parse now token ≡ expired
  pub is_word :
      (user : ℕ) (issued expires : Time) (token : Text)
      → sign user issued expires ≡ some token
      → (is_empty token ≡ false) × All (λ c. is_space c ≡ false) token

split-word : (token : Text) → All (λ c. is_space c ≡ false) token → split token ≡ (token, [])
unfolding split
split-word [] h = refl
split-word (c ∷ s) (h, hs) = rw (h, split-word s hs) refl

parse_bearer_token-word :
    (token : Text)
    → is_empty token ≡ false
    → All (λ c. is_space c ≡ false) token
    → parse_bearer_token (runes "Bearer " ++ token) ≡ some token
unfolding parse_bearer_token fields split is_space
parse_bearer_token-word [] e h = cc
parse_bearer_token-word (c ∷ s) e h = rw (split-word (c ∷ s) h) refl

generate_access_token-signed :
    (cfg : Config) (user : ℕ) (w : World) {token : Text} {expires : Time}
    → (generate_access_token cfg user w).0 ≡ ok (token, expires)
    → (issued : Time) × (w.env.sign user issued expires ≡ some token)
unfolding generate_access_token
generate_access_token-signed cfg user w {token} {expires} h =
    let issued = w.env.clock w.step in
    elim (Option-cases (w.env.sign user issued (add issued cfg.access_ttl))) [
      | inl failed ↦ absurd (ground arith)
      | inr (made, signed) ↦ (issued, ground arith)
    ]

authenticate-parsed :
    (parse : Time → Text → Parsed) (now : Time) (token : Text)
    → is_empty token ≡ false
    → All (λ c. is_space c ≡ false) token
    → authenticate parse now (runes "Bearer " ++ token) ≡ validated_user parse now (some token)
unfolding authenticate
authenticate-parsed parse now token e h =
    ap (validated_user parse now) (parse_bearer_token-word token e h)

-- A request that presents an access token, as the program has made it for a user, is served in the
-- name of this user before the second in which the token expires, and is not served from then on.
pub authenticate-generated :
    (parse : Time → Text → Parsed) (cfg : Config) (user : ℕ) (w : World) (now : Time) {token : Text}
    {expires : Time}
    → Verifies parse w.env.sign
    → (generate_access_token cfg user w).0 ≡ ok (token, expires)
    → user ≢ 0
    → user_id_from_context (authenticate parse now (runes "Bearer " ++ token))
      ≡ (if before now (whole_seconds expires) then some user else none)
unfolding validate_access_token
authenticate-generated parse cfg user w now {token} {expires} laws made named =
    let (issued, signed) = generate_access_token-signed cfg user w made in
    let (given, word) = laws.is_word user issued expires token signed in
    let served = authenticate-parsed parse now token given word in
    elim (Bool-cases (before now (whole_seconds expires))) [
      | inl early ↦
          rw (served, laws.accepts user issued expires now token signed early, early) (ground arith)
      | inr late ↦ rw (served, laws.expires user issued expires now token signed late, late) refl
    ]
