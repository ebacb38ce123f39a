-- ===== src/Notification/Domain.antt =====
-- internal/notification/domain: type.go and notification.go.
use go_pet_project.Base.{
  ℕ, String, Bool, true, false, not, ◌||◌, Option, none, some, if◌then◌else◌, ◌==◌, is_some,
}
use go_pet_project.Base.Text.{Text, is_blank}
use go_pet_project.Time.{Time, is_zero, before}
use go_pet_project.Errors.{
  Result, ok, err, refuse_if, ◌>>◌, invalid_notification_id, invalid_user_id,
  notification_invalid_task_id, notification_invalid_reminder_id, invalid_type,
  notification_invalid_title, invalid_body, notification_invalid_created_at, invalid_read_at,
}
use go_pet_project.Task.Domain.{points_to_nil}

-- `type Type string`
pub data Kind : Type 0 where
  task_reminder : Kind
  unknown : String → Kind

abbrev pub is_valid_kind : Kind → Bool
is_valid_kind task_reminder = true
is_valid_kind (unknown value) = false

pub record Notification : Type 0 where
  pub id : ℕ
  pub user_id : ℕ
  pub task_id : Option ℕ
  pub reminder_id : Option ℕ
  pub kind : Kind
  pub title : Text
  pub body : Text
  pub created_at : Time
  pub read_at : Option Time

-- `readAt != nil && readAt.Before(createdAt)`
abbrev pub read_before : Option Time → Time → Bool
read_before none created = false
read_before (some t) created = before t created

-- The arguments are the fields of the notification to be.
unfoldable pub restore_notification : Notification → Result Notification
restore_notification n = do
  refuse_if (n.id == 0) invalid_notification_id
  refuse_if (n.user_id == 0) invalid_user_id
  refuse_if (points_to_nil n.task_id) notification_invalid_task_id
  refuse_if (points_to_nil n.reminder_id) notification_invalid_reminder_id
  refuse_if (not (is_valid_kind n.kind)) invalid_type
  refuse_if (is_blank n.title) notification_invalid_title
  refuse_if (is_blank n.body) invalid_body
  refuse_if (is_zero n.created_at) notification_invalid_created_at
  refuse_if (read_before n.read_at n.created_at) invalid_read_at
  ok n

unfoldable pub new_notification :
    ℕ → ℕ → Option ℕ → Option ℕ → Kind → Text → Text → Time → Result Notification
unfolding restore_notification
new_notification id user task reminder kind title body created = restore_notification (record {
  id = id;
  user_id = user;
  task_id = task;
  reminder_id = reminder;
  kind = kind;
  title = title;
  body = body;
  created_at = created;
  read_at = none;
})

unfoldable pub mark_read : Time → Notification → Result Notification
mark_read now n =
    if is_some n.read_at
    then ok n
    else if is_zero now || before now n.created_at
    then err invalid_read_at
    else ok (record n { read_at = some now })

abbrev pub is_unread : Notification → Bool
is_unread n = not (is_some n.read_at)
