-- ===== src/User/Domain.antt =====
-- internal/user/domain/user.go
use go_pet_project.Base.{ℕ}
use go_pet_project.Base.Text.{Text}
use go_pet_project.Time.{Time}

pub record User : Type 0 where
  pub id : ℕ
  pub email : Text
  pub username : Text
  pub password_hash : Text
  pub timezone : Text
  pub created_at : Time
  pub updated_at : Time
