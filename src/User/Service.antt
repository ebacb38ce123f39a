-- ===== src/User/Service.antt =====
-- internal/user/application/service/user_service.go. The ids of the assignable users come from the
-- permission service, as internal/bootstrap wires it.
use go_pet_project.Base.{ℕ, ◌==◌, List, map}
use go_pet_project.Base.Text.{Text}
use go_pet_project.Time.{Time}
use go_pet_project.Errors.{user_invalid_actor}
use go_pet_project.World.{Action, ◌>>=◌, ◌>>◌, pure, refuse_when}
use go_pet_project.User.Domain.{User}
use go_pet_project.User.Repository.{find_by_id, find_by_ids}
use go_pet_project.Permission.{list_assignable_user_ids}

pub record GetMeResult : Type 0 where
  pub id : ℕ
  pub email : Text
  pub username : Text
  pub timezone : Text
  pub created_at : Time
  pub updated_at : Time

abbrev pub to_get_me_result : User → GetMeResult
to_get_me_result u = record {
  id = u.id;
  email = u.email;
  username = u.username;
  timezone = u.timezone;
  created_at = u.created_at;
  updated_at = u.updated_at;
}

unfoldable pub get_me : ℕ → Action GetMeResult
get_me id = do user ← find_by_id id; pure (to_get_me_result user)

unfoldable pub list_assignable_users : ℕ → Action (List GetMeResult)
list_assignable_users actor = do
  refuse_when (actor == 0) user_invalid_actor
  ids ← list_assignable_user_ids actor
  users ← find_by_ids ids
  pure (map to_get_me_result users)
