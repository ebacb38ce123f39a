-- ===== src/Notification/Repository/Notifications.antt =====
-- `NotificationRepository` of internal/notification/adapter/out/postgres/repository.go.
use go_pet_project.Base.{
  ℕ, Bool, not, ◌&&◌, ◌||◌, some, List, [], ◌∷◌, ◌++◌, ◌==◌, leb, if◌then◌else◌, find, select,
  update_rows, count_rows, is_some,
}
use go_pet_project.Base.Int.{ltb_ℤ, eqb_ℤ}
use go_pet_project.Base.Sort.{order_by}
use go_pet_project.Time.{Time}
use go_pet_project.Errors.{Result, map_rows, database, notification_not_found, err, invalid_type}
use go_pet_project.World.{Action, ◌>>=◌, ◌>>◌, lift, gets, or_raise, modify, refuse_when, statement}
use go_pet_project.Notification.Domain.{
  Notification, is_valid_kind, is_unread, restore_notification,
}

abbrev pub has_id : ℕ → Notification → Bool
has_id id n = n.id == id

-- `toNotificationDomain(model)`
unfoldable pub to_domain : Notification → Result Notification
to_domain row = if not (is_valid_kind row.kind) then err invalid_type else restore_notification row

unfoldable pub create : Notification → Action Notification
create n = do
  statement
  taken ← gets (λ db. is_some (find (has_id n.id) db.notifications))
  refuse_when taken database
  modify (λ db. record db { notifications = db.notifications ++ n ∷ [] })
  lift (to_domain n)

unfoldable pub find_by_id : ℕ → Action Notification
find_by_id id = do
  statement
  found ← gets (λ db. find (has_id id) db.notifications)
  row ← or_raise found notification_not_found
  lift (to_domain row)

-- ORDER BY created_at DESC, id DESC
abbrev pub newer : Notification → Notification → Bool
newer n m = ltb_ℤ m.created_at n.created_at || (eqb_ℤ n.created_at m.created_at && leb m.id n.id)

unfoldable pub list_by_user_id : ℕ → Action (List Notification)
list_by_user_id user = do
  statement
  rows ← gets (λ db. order_by newer (select (λ n. n.user_id == user) db.notifications))
  lift (map_rows to_domain rows)

-- `user_id = ? AND read_at IS NULL`
abbrev pub is_unread_of : ℕ → Notification → Bool
is_unread_of user n = n.user_id == user && is_unread n

unfoldable pub count_unread_by_user_id : ℕ → Action ℕ
count_unread_by_user_id user = do
  statement
  gets (λ db. count_rows (is_unread_of user) db.notifications)

abbrev pub read_row : Time → Notification → Notification
read_row at n = record n { read_at = some at }

unfoldable pub mark_read : ℕ → Time → Action (Unit {0})
mark_read id at = do
  statement
  affected ← gets (λ db. count_rows (has_id id) db.notifications)
  modify
      (λ db. record db { notifications = update_rows (has_id id) (read_row at) db.notifications })
  refuse_when (not (affected == 1)) notification_not_found

unfoldable pub mark_all_read : ℕ → Time → Action (Unit {0})
mark_all_read user at = do
  statement
  modify (λ db. record db {
    notifications = update_rows (is_unread_of user) (read_row at) db.notifications;
  })
