-- ===== src/World/State.antt =====
-- The state that the services act on: the tables of the database, what the broker and Telegram have
-- been sent, and the environment with its answers.
use go_pet_project.Base.{ℕ, Bool, Option, List, ◌≡◌, ◌≢◌}
use go_pet_project.Time.{Time}
use go_pet_project.Task.Domain.{Task}
use go_pet_project.Reminder.Domain.{Reminder}
use go_pet_project.Outbox.Event.{Event}
use go_pet_project.Outbox.Envelope.{Record}
use go_pet_project.Notification.Domain.{Notification}
use go_pet_project.Notification.Delivery.{NotificationDelivery}
use go_pet_project.Notification.Telegram.{TelegramLink, TelegramLinkToken}
use go_pet_project.Recurrence.Domain.{TaskSeries, ReminderRule, Zones}
use go_pet_project.User.Domain.{User}
use go_pet_project.Auth.Domain.{RefreshToken}
use go_pet_project.Base.Int.{ℤ}
use go_pet_project.Base.Text.{Text}

-- internal/permission/domain/permission.go
pub record AssignmentPermission : Type 0 where
  pub assigner_id : ℕ
  pub assignee_id : ℕ
  pub created_at : Time

-- A row of the table processed_events.
pub record ProcessedEvent : Type 0 where
  pub consumer_name : Text
  pub event_id : ℕ
  pub processed_at : Time

-- The tables of the database, by their names; each row is the record of its domain type.
pub record Tables : Type 0 where
  pub tasks : List Task
  pub permissions : List AssignmentPermission
  pub reminders : List Reminder
  pub outbox_events : List Event
  pub notifications : List Notification
  pub processed_events : List ProcessedEvent
  pub telegram_links : List TelegramLink
  pub telegram_link_tokens : List TelegramLinkToken
  pub deliveries : List NotificationDelivery
  pub task_series : List TaskSeries
  pub reminder_rules : List ReminderRule
  pub users : List User
  pub refresh_tokens : List RefreshToken

-- `Message` of internal/notification/application/port/out: what is sent to a Telegram chat.
pub record Message : Type 0 where
  pub chat_id : ℤ
  pub title : Text
  pub body : Text

-- How the broker takes a record, and Telegram a message: it acknowledges it, it keeps it and the
-- acknowledgement is lost, or it refuses it.
pub data Answer : Type 0 where
  acknowledged unacknowledged refused : Answer

-- What the program does not implement. `rollback before after` are the tables after ROLLBACK (or
-- a COMMIT that fails) in a transaction that began at `before` and had reached `after`;
-- `locked n id` tells whether another transaction holds the row `id` at the statement `n`.
-- `chat_error` is the text of the error where Telegram does not acknowledge, and `random_token` is
-- the encoding of what crypto/rand has read, or nothing where it fails. `zones` is the time zone
-- database. `hash_password` and `password_matches` are bcrypt's, with a salt by the number of the
-- question; `sign` makes an access token of a user, its time of issue and its expiry, with the secret
-- of the program; `is_ip` tells whether net.ParseIP reads an address. `collates a b` is `a <= b`, by
-- the collation of the database, and `ilike text pattern` its ILIKE.
pub record Environment : Type 0 where
  pub statement_fails : ℕ → Bool
  pub rollback : Tables → Tables → Tables
  pub broker : ℕ → Answer
  pub locked : ℕ → ℕ → Bool
  pub clock : ℕ → Time
  pub uuid : ℕ → ℕ
  pub chat : ℕ → Answer
  pub chat_error : ℕ → Text
  pub random_token : ℕ → Option Text
  pub sha256_hex : Text → Text
  pub zones : Zones
  pub hash_password : ℕ → Text → Option Text
  pub password_matches : Text → Text → Bool
  pub sign : ℕ → Time → Time → Option Text
  pub is_ip : Text → Bool
  pub collates : Text → Text → Bool
  pub ilike : Text → Text → Bool

-- What PostgreSQL documents of ROLLBACK: all changes of the transaction are discarded.
pub record IsTransactional (env : Environment) : Type 0 where
  pub discards : (before after : Tables) → env.rollback before after ≡ before

-- What the program relies on in `uuid.New`: the nil id is never returned.
pub record IssuesIds (env : Environment) : Type 0 where
  pub not_nil : (n : ℕ) → env.uuid n ≢ 0

pub record World : Type 0 where
  pub tables : Tables
  pub topic : List Record
  pub messages : List Message
  pub env : Environment
  pub step : ℕ
