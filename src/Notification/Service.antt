-- ===== src/Notification/Service.antt =====
-- internal/notification/application/service/notification_service.go, over the repositories that
-- internal/bootstrap wires it to: the three of Telegram are always given.
pub mod Linking
pub mod Once
pub mod Notified
pub mod Effects
pub mod Inbox
pub mod Reading
use go_pet_project.Base.{
  ℕ, Bool, true, false, not, ◌||◌, Option, none, some, List, ◌==◌, if◌then◌else◌, is_some,
}
use go_pet_project.Base.Int.{ℤ, pos, eqb_ℤ}
use go_pet_project.Base.Text.{Text, runes, trim_space, is_empty}
use go_pet_project.Time.{Time, is_zero, add}
use go_pet_project.Errors.{
  Result, ok, err, notification_invalid_actor, invalid_notification_event, invalid_telegram_token,
  invalid_notification_id, notification_not_found, telegram_link_not_found,
  telegram_link_token_not_found, telegram_link_token_invalid_or_expired,
}
use go_pet_project.World.{
  World, Action, ◌>>=◌, ◌>>◌, pure, raise, lift, or_raise, refuse_when, now, new_uuid, transaction,
  attempt, random_token, sha256_hex,
}
use go_pet_project.Notification.Domain
use go_pet_project.Notification.Domain.{Notification, task_reminder, new_notification}
use go_pet_project.Notification.Delivery.{telegram, new_delivery}
use go_pet_project.Notification.Telegram.{
  TelegramLink, TelegramLinkToken, new_telegram_link, new_telegram_link_token,
}
use go_pet_project.Notification.Repository.Notifications
use go_pet_project.Notification.Repository.ProcessedEvents.{try_insert}
use go_pet_project.Notification.Repository.TelegramLinks
use go_pet_project.Notification.Repository.TelegramLinkTokens
use go_pet_project.Notification.Repository.Deliveries

pub record HandleNotificationRequestedCommand : Type 0 where
  pub event_id : ℕ
  pub recipient_user_id : ℕ
  pub task_id : ℕ
  pub reminder_id : ℕ
  pub occurred_at : Time

pub record HandleTelegramStartCommand : Type 0 where
  pub token : Text
  pub chat_id : ℤ
  pub telegram_username : Option Text

pub record TelegramLinkTokenResult : Type 0 where
  pub token : Text
  pub expires_at : Time

pub record NotificationSettings : Type 0 where
  pub internal : Bool
  pub linked : Bool
  pub enabled : Bool
  pub username : Option Text

abbrev pub consumer_name : Text
consumer_name = runes "todo-notifier-v1"

-- `telegramLinkTokenTTL`
abbrev pub telegram_link_token_ttl : ℤ
telegram_link_token_ttl = pos 600000000000

abbrev pub require_actor : ℕ → Action (Unit {0})
require_actor actor = refuse_when (actor == 0) notification_invalid_actor

-- The end of `createTelegramDeliveryIfLinked`, by the answer of `FindByUserID`.
abbrev pub deliver_over : Result TelegramLink → ℕ → Time → Action (Unit {0})
deliver_over (err telegram_link_not_found) notification at = pure tt
deliver_over (err e) notification at = raise e
deliver_over (ok link) notification at = if not link.enabled then pure tt else do
  id ← new_uuid
  delivery ← lift (new_delivery id notification telegram at)
  _ ← Deliveries.create delivery
  pure tt

unfoldable pub create_telegram_delivery_if_linked : Notification → Time → Action (Unit {0})
create_telegram_delivery_if_linked n at = do
  link ← attempt (TelegramLinks.find_by_user_id n.user_id)
  deliver_over link n.id at

-- What is made of an event that has not been seen.
unfoldable pub notify : HandleNotificationRequestedCommand → Time → Action (Unit {0})
notify cmd at = do
  id ← new_uuid
  n ← lift (
      new_notification id cmd.recipient_user_id (some cmd.task_id) (some cmd.reminder_id)
        task_reminder (runes "Task reminder") (runes "A task reminder is due.") at)
  created ← Notifications.create n
  create_telegram_delivery_if_linked created at

abbrev notify_if : Bool → HandleNotificationRequestedCommand → Time → Action (Unit {0})
notify_if false cmd at = pure tt
notify_if true cmd at = notify cmd at

-- The function of the transaction.
unfoldable pub handle_in : HandleNotificationRequestedCommand → Action (Unit {0})
handle_in cmd = do
  at ← now
  inserted ← try_insert consumer_name cmd.event_id at
  notify_if inserted cmd at

abbrev pub is_incomplete : HandleNotificationRequestedCommand → Bool
is_incomplete cmd =
    cmd.event_id == 0
    || cmd.recipient_user_id == 0
    || cmd.task_id == 0
    || cmd.reminder_id == 0
    || is_zero cmd.occurred_at

unfoldable pub handle_notification_requested :
    HandleNotificationRequestedCommand → Action (Unit {0})
handle_notification_requested cmd =
    if is_incomplete cmd then raise invalid_notification_event else transaction (handle_in cmd)

-- `generateTelegramLinkToken`: the raw token and its hash.
unfoldable pub generate_telegram_link_token : Action (Text × Text)
generate_telegram_link_token = do raw ← random_token; hash ← sha256_hex raw; pure (raw, hash)

unfoldable pub create_telegram_link_token : ℕ → Action TelegramLinkTokenResult
create_telegram_link_token actor = do
  require_actor actor
  (raw, hash) ← generate_telegram_link_token
  at ← now
  let expires = add at telegram_link_token_ttl
  id ← new_uuid
  token ← lift (new_telegram_link_token id actor hash expires at)
  _ ← TelegramLinkTokens.create token
  pure (record { token = raw; expires_at = expires })

-- `errors.Is(err, domain.ErrTelegramLinkTokenNotFound)` is answered with an error of its own.
abbrev pub or_invalid : Result TelegramLinkToken → Action TelegramLinkToken
or_invalid (err telegram_link_token_not_found) = raise telegram_link_token_invalid_or_expired
or_invalid (err e) = raise e
or_invalid (ok token) = pure token

-- The function of the transaction; `raw` is the token without the white space around it.
unfoldable pub start_in : Text → HandleTelegramStartCommand → Action (Unit {0})
start_in raw cmd = do
  at ← now
  hash ← sha256_hex raw
  answer ← attempt (TelegramLinkTokens.consume_by_hash hash at)
  token ← or_invalid answer
  link ← lift (new_telegram_link token.user_id cmd.chat_id cmd.telegram_username at)
  _ ← TelegramLinks.upsert link
  pure tt

unfoldable pub handle_telegram_start : HandleTelegramStartCommand → Action (Unit {0})
handle_telegram_start cmd =
    if is_empty (trim_space cmd.token) || eqb_ℤ cmd.chat_id (pos 0)
    then raise invalid_telegram_token
    else transaction (start_in (trim_space cmd.token) cmd)

abbrev pub settings_of : Result TelegramLink → Action NotificationSettings
settings_of (err telegram_link_not_found) =
    pure (record { internal = true; linked = false; enabled = false; username = none })
settings_of (err e) = raise e
settings_of (ok link) = pure (record {
  internal = true;
  linked = true;
  enabled = link.enabled;
  username = link.telegram_username;
})

unfoldable pub get_notification_settings : ℕ → Action NotificationSettings
get_notification_settings actor = do
  require_actor actor
  link ← attempt (TelegramLinks.find_by_user_id actor)
  settings_of link

unfoldable pub set_telegram_enabled : ℕ → Bool → Action (Unit {0})
set_telegram_enabled actor enabled = do require_actor actor; TelegramLinks.set_enabled actor enabled

unfoldable pub delete_telegram_link : ℕ → Action (Unit {0})
delete_telegram_link actor = do require_actor actor; TelegramLinks.delete actor

unfoldable pub list_notifications : ℕ → Action (List Notification)
list_notifications actor = do require_actor actor; Notifications.list_by_user_id actor

unfoldable pub count_unread : ℕ → Action ℕ
count_unread actor = do require_actor actor; Notifications.count_unread_by_user_id actor

abbrev pub store_read : Option Time → ℕ → Action (Unit {0})
store_read none id = pure tt
store_read (some at) id = Notifications.mark_read id at

unfoldable pub mark_read : ℕ → ℕ → Action (Unit {0})
mark_read actor id = do
  require_actor actor
  refuse_when (id == 0) invalid_notification_id
  n ← Notifications.find_by_id id
  refuse_when (not (n.user_id == actor)) notification_not_found
  at ← now
  read ← lift (Domain.mark_read at n)
  store_read read.read_at read.id

unfoldable pub mark_all_read : ℕ → Action (Unit {0})
mark_all_read actor = do require_actor actor; at ← now; Notifications.mark_all_read actor at
