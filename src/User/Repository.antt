-- ===== src/User/Repository.antt =====
-- internal/user/adapter/out/postgres/repository.go. A row of the table users is the user.
use go_pet_project.Base.{ℕ, Bool, ◌||◌, List, [], ◌∷◌, ◌++◌, ◌==◌, find, select, is_some}
use go_pet_project.Base.Text.{Text, same_text}
use go_pet_project.Base.Sort.{order_by}
use go_pet_project.Errors.{
  database, user_not_found, user_email_already_exists, user_username_already_exists,
}
use go_pet_project.World.{
  World, Action, ◌>>=◌, ◌>>◌, pure, gets, or_raise, modify, refuse_when, statement,
}
use go_pet_project.User.Domain.{User}

abbrev pub has_id : ℕ → User → Bool
has_id id u = u.id == id

abbrev pub has_email : Text → User → Bool
has_email email u = same_text u.email email

abbrev pub has_username : Text → User → Bool
has_username username u = same_text u.username username

-- The primary key, and the unique columns email and username, in the order of their indexes; the
-- errors of the last two are told apart by `mapCreateError`.
unfoldable pub create : User → Action User
create u = do
  statement
  same_id ← gets (λ db. is_some (find (has_id u.id) db.users))
  refuse_when same_id database
  same_email ← gets (λ db. is_some (find (has_email u.email) db.users))
  refuse_when same_email user_email_already_exists
  same_username ← gets (λ db. is_some (find (has_username u.username) db.users))
  refuse_when same_username user_username_already_exists
  modify (λ db. record db { users = db.users ++ u ∷ [] })
  pure u

unfoldable pub find_by_id : ℕ → Action User
find_by_id id = do
  statement
  found ← gets (λ db. find (has_id id) db.users)
  or_raise found user_not_found

-- `id IN ?`
abbrev pub is_among : List ℕ → User → Bool
is_among [] u = Bool.false
is_among (id ∷ ids) u = u.id == id || is_among ids u

abbrev pub collates_before : World → User → User → Bool
collates_before w u v = w.env.collates u.username v.username

-- The rows in the order of their user names, by the collation of the database.
abbrev pub rows_among : List ℕ → Action (List User)
rows_among ids w = gets (λ db. order_by (collates_before w) (select (is_among ids) db.users)) w

unfoldable pub find_by_ids : List ℕ → Action (List User)
find_by_ids [] = pure []
find_by_ids (id ∷ ids) = do statement; rows_among (id ∷ ids)

unfoldable pub find_by_email : Text → Action User
find_by_email email = do
  statement
  found ← gets (λ db. find (has_email email) db.users)
  or_raise found user_not_found

unfoldable pub find_by_username : Text → Action User
find_by_username username = do
  statement
  found ← gets (λ db. find (has_username username) db.users)
  or_raise found user_not_found
