-- ===== src/Auth/Tests.antt =====
-- Runs of the code of internal/auth on example data.
use go_pet_project.Base.{true, false, none, some, [], ◌∷◌, ◌≡◌, ◌≢◌, refl, sym}
use mathlib.Core.List.{append-nil}
use go_pet_project.Base.Int.{pos}
use go_pet_project.Base.Text.{Text, runes, trim_space}
use go_pet_project.Time.{add}
use go_pet_project.Errors.{ok, err, invalid_email}
use go_pet_project.World.{World, transaction}
use go_pet_project.Samples.{office, env, tables, env-IsTransactional}
use go_pet_project.User.Repository as Users
use go_pet_project.Auth.Domain.{RefreshToken}
use go_pet_project.Auth.Repository as Tokens
use go_pet_project.Auth.Commands.{RegisterCommand, validate_register_command}
use go_pet_project.Auth.Email.{validate_email, is_dot_atom, is_domain_literal, is_address}
use go_pet_project.Auth.Service
use go_pet_project.Auth.Service.{
  Config, UserResult, RefreshResult, LoginResult, register, refresh, login,
}
use go_pet_project.Auth.Service.Rotation.{IsRotated, refresh-IsRotated}
use go_pet_project.Auth.Service.Runs.{Call, run, refresh_once_ever}
use go_pet_project.Auth.Service.LoggedIn.{IsReady, register-login}

plain : validate_email (λ s. false) (runes " a.b@example.com ") ≡ ok (runes "a.b@example.com")
unfolding validate_email trim_space is_dot_atom
plain = refl

two_dots : validate_email (λ s. false) (runes "a..b@example.com") ≡ err invalid_email
unfolding validate_email trim_space is_dot_atom
two_dots = refl

named : validate_email (λ s. false) (runes "Ann <a@example.com>") ≡ err invalid_email
unfolding validate_email trim_space is_dot_atom
named = refl

literal : validate_email (λ s. true) (runes "a@[10.0.0.1]") ≡ ok (runes "a@[10.0.0.1]")
unfolding validate_email trim_space is_dot_atom is_domain_literal
literal = refl

abbrev cfg : Config
cfg = record { access_ttl = pos 900000000000; refresh_ttl = pos 2000000000000 }

-- A token of user 1 that is active, with the hash of "old".
abbrev old_token : RefreshToken
old_token = record {
  id = 51;
  user_id = 1;
  token_hash = runes "old";
  expires_at = pos 9000000000000;
  revoked_at = none;
  created_at = pos 1000000000000;
}

abbrev signed_in : World
signed_in = record office { tables = record tables { refresh_tokens = old_token ∷ [] } }

abbrev refreshed : RefreshResult
refreshed = record {
  access_token = runes "access";
  refresh_token = runes "token";
  access_token_expires_at = pos 5904000000000;
  refresh_token_expires_at = pos 7001000000000;
}

refresh-ok : (refresh cfg (runes " old ") signed_in).0 ≡ ok refreshed
unfolding refresh Service.exchange Service.replace_token Service.generate_access_token trim_space
    Tokens.find_by_hash Tokens.rotate Tokens.rotate_in Tokens.create transaction add
refresh-ok = refl

refresh-IsRotated_example :
    IsRotated cfg
      (runes "old")
      (pos 5001000000000)
      signed_in.tables
      (refresh cfg (runes " old ") signed_in).1.tables
unfolding trim_space
refresh-IsRotated_example = refresh-IsRotated cfg (runes " old ") signed_in refresh-ok

abbrev ann : RegisterCommand
ann = record {
  email = runes " ann@example.com";
  username = runes "ann";
  password = runes "correct horse";
  timezone = runes "UTC";
}

refresh_once_ever_example :
    (refresh cfg (runes "old") (
      run cfg
        (Call.register ann ∷ Call.refresh (runes "other") ∷ Call.logout (runes "token") ∷ [])
        (refresh cfg (runes " old ") signed_in).1)).0
    ≢ ok refreshed
unfolding trim_space
refresh_once_ever_example =
    refresh_once_ever cfg (runes " old ") (runes "old")
      (Call.register ann ∷ Call.refresh (runes "other") ∷ Call.logout (runes "token") ∷ [])
      signed_in env-IsTransactional refresh-ok refl

abbrev ann_result : UserResult
ann_result = record {
  id = 1004;
  email = runes "ann@example.com";
  username = runes "ann";
  timezone = runes "UTC";
  created_at = pos 5003000000000;
  updated_at = pos 5003000000000;
}

register-ok : (register ann office).0 ≡ ok ann_result
unfolding register Service.refuse_taken Service.add_user validate_register_command validate_email
    is_address is_dot_atom trim_space Users.find_by_email Users.find_by_username Users.create
register-ok = refl

-- `env` takes a password for its hash.
hashed_matches :
    {hash : Text}
    → some (runes "correct horse") ≡ some hash
    → env.password_matches (runes "correct horse") hash ≡ true
hashed_matches {hash} e = let same : hash ≡ runes "correct horse" = cc in rw same refl

-- The office after ann has registered, where another user is signed in.
abbrev with_ann : World
with_ann = record office {
  tables = record ((register ann office).1.tables) { refresh_tokens = old_token ∷ [] };
  step = 10;
}

with_ann-IsReady : IsReady cfg 1004 with_ann
with_ann-IsReady = record {
  answers = λ n. refl;
  signs = λ user issued expires. refl;
  random = λ n. refl;
  fresh = λ raw read. let same : raw ≡ runes "token" = cc in rw same refl;
}

register-login_example :
    (r : LoginResult) × ((login cfg
        (record { email = runes " ann@example.com"; password = runes "correct horse" })
        with_ann).0
      ≡ ok r)
    × (r.user_id ≡ 1004)
register-login_example =
    register-login cfg ann office with_ann [] register-ok (λ n hash e. hashed_matches e)
      (sym (append-nil with_ann.tables.users)) refl with_ann-IsReady
