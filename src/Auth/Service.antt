-- ===== src/Auth/Service.antt =====
-- internal/auth/application/service/auth_service.go, with the adapters that internal/bootstrap gives
-- it: the token generator of adapter/out/refresh and `GenerateAccessToken` of adapter/out/jwt.
-- bcrypt, SHA-256, the random source and the signature are answers of the environment.
pub mod Rotation
pub mod Registered
pub mod LoggedIn
pub mod Sessions
pub mod Revocations
pub mod Runs
use go_pet_project.Base.{ℕ, Bool, not, none, if◌then◌else◌}
use go_pet_project.Base.Int.{ℤ}
use go_pet_project.Base.Text.{Text, trim_space, is_empty}
use go_pet_project.Time.{Time, add}
use go_pet_project.Errors.{
  Error, Result, ok, err, hash_password, sign_token, invalid_credentials, email_already_exists,
  username_already_exists, user_not_found, user_email_already_exists, user_username_already_exists,
  invalid_refresh_token, refresh_token_not_found, refresh_token_revoked, refresh_token_expired,
}
use go_pet_project.World.{
  World, Action, ◌>>=◌, ◌>>◌, pure, raise, lift, or_raise, refuse_when, now, new_uuid, attempt,
  random_token, sha256_hex, tick,
}
use go_pet_project.User.Domain.{User}
use go_pet_project.User.Repository as Users
use go_pet_project.Auth.Domain.{RefreshToken, is_expired, is_revoked}
use go_pet_project.Auth.Repository as Tokens
use go_pet_project.Auth.Commands.{
  RegisterCommand, LoginCommand, validate_register_command, validate_login_command,
}

-- `accessTTL` of the token provider, and `refreshTokenTTL` of the service.
pub record Config : Type 0 where
  pub access_ttl : ℤ
  pub refresh_ttl : ℤ

pub record UserResult : Type 0 where
  pub id : ℕ
  pub email : Text
  pub username : Text
  pub timezone : Text
  pub created_at : Time
  pub updated_at : Time

pub record LoginResult : Type 0 where
  pub user_id : ℕ
  pub access_token : Text
  pub refresh_token : Text
  pub access_token_expires_at : Time
  pub refresh_token_expires_at : Time

pub record RefreshResult : Type 0 where
  pub access_token : Text
  pub refresh_token : Text
  pub access_token_expires_at : Time
  pub refresh_token_expires_at : Time

abbrev pub to_user_result : User → UserResult
to_user_result u = record {
  id = u.id;
  email = u.email;
  username = u.username;
  timezone = u.timezone;
  created_at = u.created_at;
  updated_at = u.updated_at;
}

-- `Hash` and `Compare` of the password hasher.
abbrev hash_of : Text → Action Text
hash_of password w = or_raise (w.env.hash_password w.step password) hash_password (tick w)

abbrev compare : Text → Text → Action (Unit {0})
compare password hash w =
    refuse_when (not (w.env.password_matches password hash)) invalid_credentials w

abbrev signed : ℕ → Time → Time → Action Text
signed user issued expires w = or_raise (w.env.sign user issued expires) sign_token w

-- `GenerateAccessToken`: the token, and its expiry.
unfoldable pub generate_access_token : Config → ℕ → Action (Text × Time)
generate_access_token cfg user = do
  issued ← now
  let expires = add issued cfg.access_ttl
  token ← signed user issued expires
  pure (token, expires)

-- The search for a user who has the e-mail or the user name already.
abbrev pub refuse_found : Result User → Error → Action (Unit {0})
refuse_found (ok user) taken = raise taken
refuse_found (err user_not_found) taken = pure tt
refuse_found (err e) taken = raise e

abbrev pub create_error : Error → Error
create_error user_email_already_exists = email_already_exists
create_error user_username_already_exists = username_already_exists
create_error e = e

abbrev pub created : Result User → Action UserResult
created (ok user) = pure (to_user_result user)
created (err e) = raise (create_error e)

abbrev validated : RegisterCommand → Action (Text × Text × Text)
validated cmd w = lift (validate_register_command w.env cmd) w

unfoldable pub refuse_taken : Text → Text → Action (Unit {0})
refuse_taken email username = do
  by_email ← attempt (Users.find_by_email email)
  refuse_found by_email email_already_exists
  by_username ← attempt (Users.find_by_username username)
  refuse_found by_username username_already_exists

unfoldable pub add_user : Text → Text → Text → Text → Action UserResult
add_user email username timezone password = do
  hash ← hash_of password
  at ← now
  id ← new_uuid
  user ← attempt (
      Users.create (record {
        id = id;
        email = email;
        username = username;
        password_hash = hash;
        timezone = timezone;
        created_at = at;
        updated_at = at;
      }))
  created user

unfoldable pub register : RegisterCommand → Action UserResult
register cmd = do
  (email, username, timezone) ← validated cmd
  refuse_taken email username
  add_user email username timezone cmd.password

-- An unknown user is told the same as a wrong password.
abbrev pub or_invalid_credentials : Result User → Action User
or_invalid_credentials (ok user) = pure user
or_invalid_credentials (err user_not_found) = raise invalid_credentials
or_invalid_credentials (err e) = raise e

abbrev login_email : LoginCommand → Action Text
login_email cmd w = lift (validate_login_command w.env cmd) w

-- The refresh token of a raw text.
abbrev pub new_refresh_token : Config → ℕ → ℕ → Text → Time → RefreshToken
new_refresh_token cfg id user hash at = record {
  id = id;
  user_id = user;
  token_hash = hash;
  expires_at = add at cfg.refresh_ttl;
  revoked_at = none;
  created_at = at;
}

-- The tokens of a user who has logged in.
unfoldable pub open_session : Config → ℕ → Action LoginResult
open_session cfg user = do
  (access, expires) ← generate_access_token cfg user
  raw ← random_token
  at ← now
  id ← new_uuid
  hash ← sha256_hex raw
  _ ← Tokens.create (new_refresh_token cfg id user hash at)
  pure (record {
    user_id = user;
    access_token = access;
    refresh_token = raw;
    access_token_expires_at = expires;
    refresh_token_expires_at = add at cfg.refresh_ttl;
  })

unfoldable pub login : Config → LoginCommand → Action LoginResult
login cfg cmd = do
  email ← login_email cmd
  answer ← attempt (Users.find_by_email email)
  user ← or_invalid_credentials answer
  compare cmd.password user.password_hash
  open_session cfg user.id

-- The new tokens in place of an old one.
unfoldable pub replace_token : Config → Text → RefreshToken → Time → Action RefreshResult
replace_token cfg old_hash old at = do
  raw ← random_token
  id ← new_uuid
  hash ← sha256_hex raw
  (access, expires) ← generate_access_token cfg old.user_id
  _ ← Tokens.rotate old_hash (new_refresh_token cfg id old.user_id hash at) at
  pure (record {
    access_token = access;
    refresh_token = raw;
    access_token_expires_at = expires;
    refresh_token_expires_at = add at cfg.refresh_ttl;
  })

-- The exchange of a token that is not blank.
unfoldable pub exchange : Config → Text → Action RefreshResult
exchange cfg old_raw = do
  old_hash ← sha256_hex old_raw
  old ← Tokens.find_by_hash old_hash
  at ← now
  refuse_when (is_revoked old) refresh_token_revoked
  refuse_when (is_expired at old) refresh_token_expired
  replace_token cfg old_hash old at

unfoldable pub refresh : Config → Text → Action RefreshResult
refresh cfg token = do
  refuse_when (is_empty (trim_space token)) invalid_refresh_token
  exchange cfg (trim_space token)

-- A token that is not there is as good as revoked.
abbrev pub or_gone : Result RefreshToken → Action (Unit {0})
or_gone (ok token) = pure tt
or_gone (err refresh_token_not_found) = pure tt
or_gone (err e) = raise e

abbrev pub revoke_found : Text → Result RefreshToken → Action (Unit {0})
revoke_found hash (err e) = or_gone (err e)
revoke_found hash (ok token) =
    if is_revoked token
    then pure tt
    else do at ← now; answer ← attempt (Tokens.revoke hash at); or_gone answer

unfoldable pub logout : Text → Action (Unit {0})
logout token = do
  refuse_when (is_empty (trim_space token)) invalid_refresh_token
  hash ← sha256_hex (trim_space token)
  answer ← attempt (Tokens.find_by_hash hash)
  revoke_found hash answer
