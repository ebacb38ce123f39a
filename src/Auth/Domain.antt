-- ===== src/Auth/Domain.antt =====
-- internal/auth/domain/refresh_token.go
use go_pet_project.Base.{ℕ, Bool, not, ◌&&◌, Option, some, is_some, if◌then◌else◌}
use go_pet_project.Base.Text.{Text}
use go_pet_project.Time.{Time, after}

pub record RefreshToken : Type 0 where
  pub id : ℕ
  pub user_id : ℕ
  pub token_hash : Text
  pub expires_at : Time
  pub revoked_at : Option Time
  pub created_at : Time

abbrev pub is_expired : Time → RefreshToken → Bool
is_expired now t = not (after t.expires_at now)

abbrev pub is_revoked : RefreshToken → Bool
is_revoked t = is_some t.revoked_at

abbrev pub is_active : Time → RefreshToken → Bool
is_active now t = not (is_revoked t) && not (is_expired now t)

abbrev pub revoke : Time → RefreshToken → RefreshToken
revoke at t = if is_some t.revoked_at then t else record t { revoked_at = some at }
