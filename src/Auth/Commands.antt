-- ===== src/Auth/Commands.antt =====
-- The commands of internal/auth/application/command, and their validation by
-- internal/auth/application/service/auth_service.go.
use go_pet_project.Base.{ℕ, Bool, not, ◌||◌, ltb, is_some}
use go_pet_project.Base.Text.{Text, trim_space, is_empty, byte_length}
use go_pet_project.Errors.{
  Result, ok, ◌>>=◌, ◌>>◌, refuse_if, invalid_credentials, invalid_username, invalid_password,
  invalid_timezone,
}
use go_pet_project.World.{Environment}
use go_pet_project.Auth.Email.{validate_email}

pub record RegisterCommand : Type 0 where
  pub email : Text
  pub username : Text
  pub password : Text
  pub timezone : Text

pub record LoginCommand : Type 0 where
  pub email : Text
  pub password : Text

abbrev pub min_password_bytes : ℕ
min_password_bytes = 8

abbrev pub max_password_bytes : ℕ
max_password_bytes = 72

-- `len(p) < minPasswordBytes || len(p) > maxPasswordBytes`
abbrev pub is_bad_length : Text → Bool
is_bad_length password =
    ltb (byte_length password) min_password_bytes || ltb max_password_bytes (byte_length password)

-- The e-mail, the user name and the time zone. A zone that cannot be loaded is refused.
unfoldable pub validate_register_command :
    Environment → RegisterCommand → Result (Text × Text × Text)
validate_register_command env cmd = do
  email ← validate_email env.is_ip cmd.email
  refuse_if (is_empty (trim_space cmd.username)) invalid_username
  refuse_if (is_bad_length cmd.password) invalid_password
  refuse_if (is_empty (trim_space cmd.timezone)) invalid_timezone
  refuse_if (not (is_some (env.zones (trim_space cmd.timezone)))) invalid_timezone
  ok (email, trim_space cmd.username, trim_space cmd.timezone)

-- The e-mail; the password is taken as it is.
unfoldable pub validate_login_command : Environment → LoginCommand → Result Text
validate_login_command env cmd = do
  email ← validate_email env.is_ip cmd.email
  refuse_if (is_empty cmd.password) invalid_credentials
  ok email
