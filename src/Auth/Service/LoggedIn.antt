-- ===== src/Auth/Service/LoggedIn.antt =====
-- `Login` of internal/auth/application/service/auth_service.go, after `Register`.
use go_pet_project.Base.{
  ℕ, suc, Bool, true, false, some, none, List, [], ◌∷◌, ◌++◌, ◌≡◌, refl, sym, ap, ◌∙◌, arith, find,
  inl, inr, Bool-cases, Option-cases, is_some,
}
use mathlib.Core.List.{append_assoc}
use go_pet_project.Base.Text.{Text, is_empty, same_text}
use go_pet_project.Time.{Time, add}
use go_pet_project.Errors.{ok}
use go_pet_project.World.{World, tick}
use go_pet_project.User.Domain.{User}
use go_pet_project.User.Repository.{has_email, find_by_email}
use go_pet_project.Auth.Repository as Tokens
use go_pet_project.Auth.Domain.{RefreshToken}
use go_pet_project.Auth.Repository.{conflicts}
use go_pet_project.Auth.Email.{validate_email}
use go_pet_project.Auth.Commands.{RegisterCommand, LoginCommand, validate_login_command}
use go_pet_project.Auth.Service.{
  Config, open_session, UserResult, LoginResult, new_refresh_token, generate_access_token, register,
  login,
}
use go_pet_project.Auth.Service.Registered.{register-IsRegistered}

-- An access token is signed for every user.
abbrev pub Signs : World → Type 0
Signs w = (user : ℕ) (issued expires : Time) → is_some (w.env.sign user issued expires) ≡ true

generate_access_token-ok :
    (cfg : Config) (user : ℕ) (w : World)
    → Signs w
    → (access : Text) × (generate_access_token cfg user w
        ≡ (ok (access, add (w.env.clock w.step) cfg.access_ttl), tick w))
unfolding generate_access_token
generate_access_token-ok cfg user w signs =
    let at = w.env.clock w.step in
    elim (Option-cases (w.env.sign user at (add at cfg.access_ttl))) [
      | inl failed ↦ absurd (ground (arith, signs user at (add at cfg.access_ttl)))
      | inr (access, made) ↦ (access, rw made refl)
    ]

-- The refresh token that a login makes of the random text.
abbrev pub session_token : Config → ℕ → World → Text → RefreshToken
session_token cfg user w raw =
    let before_id = suc (suc (suc w.step)) in
    new_refresh_token cfg (w.env.uuid (suc before_id)) user (w.env.sha256_hex raw)
      (w.env.clock before_id)

-- A user who is found and has given the right password.
login-ok :
    (cfg : Config) (cmd : LoginCommand) (w : World) (user : User) (email : Text)
    → validate_login_command w.env cmd ≡ ok email
    → find (has_email email) w.tables.users ≡ some user
    → w.env.password_matches cmd.password user.password_hash ≡ true
    → ((n : ℕ) → w.env.statement_fails n ≡ false)
    → Signs w
    → is_some (w.env.random_token (suc (suc w.step))) ≡ true
    → ((raw : Text)
        → w.env.random_token (suc (suc w.step)) ≡ some raw
        → is_some (find (conflicts (session_token cfg user.id w raw)) w.tables.refresh_tokens)
          ≡ false)
    → (r : LoginResult) × ((login cfg cmd w).0 ≡ ok r) × (r.user_id ≡ user.id)
unfolding login open_session find_by_email Tokens.create
login-ok cfg cmd w user email valid found right up signs random fresh =
    let (access, made) = generate_access_token-ok cfg user.id (tick w) signs in
    elim (Option-cases (w.env.random_token (suc (suc w.step)))) [
      | inl failed ↦ absurd (ground arith)
      | inr (raw, read) ↦ (
        record {
          user_id = user.id;
          access_token = access;
          refresh_token = raw;
          access_token_expires_at = add (w.env.clock (suc w.step)) cfg.access_ttl;
          refresh_token_expires_at = add (w.env.clock (suc (suc (suc w.step)))) cfg.refresh_ttl;
        },
        rw (valid, up w.step, found, right, made, read, up _, fresh raw read) refl,
        refl,
      )
    ]

-- The e-mail of a registration is one to log in with.
validate_login-ok :
    (cmd : RegisterCommand) (w : World) {email : Text}
    → validate_email w.env.is_ip cmd.email ≡ ok email
    → is_empty cmd.password ≡ false
    → validate_login_command w.env (record { email = cmd.email; password = cmd.password })
      ≡ ok email
unfolding validate_login_command
validate_login-ok cmd w valid given = rw (valid, given) refl

-- What a login needs of its surroundings: the statements and the random source succeed, tokens are
-- signed, and the id and the hash of the new refresh token are those of no other one.
pub record IsReady (cfg : Config) (user : ℕ) (w : World) : Type 0 where
  pub answers : (n : ℕ) → w.env.statement_fails n ≡ false
  pub signs : Signs w
  pub random : (n : ℕ) → is_some (w.env.random_token n) ≡ true
  pub fresh :
      (raw : Text)
      → w.env.random_token (suc (suc w.step)) ≡ some raw
      → is_some (find (conflicts (session_token cfg user w raw)) w.tables.refresh_tokens) ≡ false

find_after :
    (p : User → Bool) (users more : List User) (user : User)
    → find p users ≡ none
    → p user ≡ true
    → find p (users ++ user ∷ more) ≡ some user
find_after p [] more user h k = rw k refl
find_after p (x ∷ users) more user h k = elim (Bool-cases (p x)) [
  | inl hit ↦ absurd (ground arith)
  | inr miss ↦ let rest = find_after p users more user (ground arith) k in ground arith
]

same_text_self : (s : Text) → same_text s s ≡ true
same_text_self [] = refl
same_text_self (c ∷ s) = ground (arith, same_text_self s)

-- Who has registered can log in with the e-mail and the password that were given, whoever registers
-- afterwards, where bcrypt accepts a password with its hash and the environment is ready.
pub register-login :
    (cfg : Config) (cmd : RegisterCommand) (w v : World) (more : List User) {u : UserResult}
    → (register cmd w).0 ≡ ok u
    → ((n : ℕ) (hash : Text)
        → w.env.hash_password n cmd.password ≡ some hash
        → v.env.password_matches cmd.password hash ≡ true)
    → v.tables.users ≡ (register cmd w).1.tables.users ++ more
    → v.env.is_ip ≡ w.env.is_ip
    → IsReady cfg u.id v
    → (r : LoginResult) × ((login cfg (record { email = cmd.email; password = cmd.password }) v).0
        ≡ ok r)
      × (r.user_id ≡ u.id)
register-login cfg cmd w v more h bcrypt users ips ready =
    let (user, n, valid, no_email, _, hashed, _, id, given, rows) = register-IsRegistered cmd w h in
    let there : v.tables.users ≡ w.tables.users ++ user ∷ more =
      users ∙ ap (λ db. db.users ++ more) rows ∙ append_assoc w.tables.users (user ∷ []) more in
    let found : find (has_email user.email) v.tables.users ≡ some user =
      ap (find (has_email user.email)) there
      ∙ find_after (has_email user.email) w.tables.users more user no_email
          (same_text_self user.email) in
    let (r, done, whose) =
      login-ok cfg (record { email = cmd.email; password = cmd.password }) v user user.email
        (validate_login-ok cmd v (rw ips valid) given) found (bcrypt n user.password_hash hashed)
        ready.answers ready.signs (ready.random _) (rw id at ready.fresh) in
    (r, done, whose ∙ sym id)
