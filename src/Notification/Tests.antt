-- ===== src/Notification/Tests.antt =====
-- Runs of the code of internal/notification on example data.
use go_pet_project.Base.{
  ℕ, zero, suc, some, none, List, [], ◌∷◌, ◌++◌, ◌+◌, ◌≤◌, length, ◌≡◌, ◌≢◌, refl, arith,
}
use go_pet_project.Base.Int.{ℤ, pos, ◌+ℤ◌, ◌-ℤ◌}
use go_pet_project.Base.Text.{Text, runes, is_blank, trim_space}
use go_pet_project.Base.Sort.{insert_row, order_by}
use go_pet_project.Errors.{ok, err, database, map_rows}
use go_pet_project.World.{ProcessedEvent, World, IsTransactional, refused, transaction, for_each}
use go_pet_project.Samples.{office, env, tables, env-IsTransactional}
use go_pet_project.Notification.Domain
use go_pet_project.Notification.Domain.{
  Notification, task_reminder, new_notification, restore_notification,
}
use go_pet_project.Notification.Delivery
use go_pet_project.Notification.Delivery.{
  Status, NotificationDelivery, telegram, pending, new_delivery, restore_delivery,
}
use go_pet_project.Notification.Telegram.{
  TelegramLinkToken, new_telegram_link, restore_telegram_link, restore_telegram_link_token,
}
use go_pet_project.Notification.Repository.Notifications
use go_pet_project.Notification.Repository.ProcessedEvents.{try_insert}
use go_pet_project.Notification.Repository.TelegramLinks
use go_pet_project.Notification.Repository.TelegramLinkTokens.{consume_by_hash}
use go_pet_project.Notification.Repository.Deliveries
use go_pet_project.Notification.Service.Inbox.{Holds, inbox_after, consume, consume-Holds}
use go_pet_project.Notification.Service.{
  consumer_name, HandleNotificationRequestedCommand, HandleTelegramStartCommand,
  handle_notification_requested, handle_in, notify, create_telegram_delivery_if_linked,
  handle_telegram_start, start_in, mark_read, mark_all_read, count_unread, list_notifications,
}
use go_pet_project.Notification.Service.Reading.{IsRead, mark_all_read-clears, mark_read-IsRead}
use go_pet_project.Notification.Service.Once.{handle_twice}
use go_pet_project.Notification.Service.Notified.{IsNotified, handle-IsNotified}
use go_pet_project.Notification.Service.Linking.{start_once}
use go_pet_project.Notification.DeliveryRunner
use go_pet_project.Notification.DeliveryRunner.Attempts.{AllWithin}
use go_pet_project.Notification.DeliveryRunner.Bounded.{IsAccounted, process_due-IsBounded}
use go_pet_project.Notification.DeliveryRunner.Cuts.{IsAscii, handle_send_failure_cut}

abbrev due_event : HandleNotificationRequestedCommand
due_event = record {
  event_id = 31;
  recipient_user_id = 2;
  task_id = 7;
  reminder_id = 22;
  occurred_at = pos 2000000000000;
}

due_event-ok : (handle_notification_requested due_event office).0 ≡ ok tt
unfolding handle_notification_requested transaction handle_in try_insert notify new_notification
    restore_notification is_blank trim_space Notifications.create Notifications.to_domain
    create_telegram_delivery_if_linked TelegramLinks.find_by_user_id restore_telegram_link
    new_delivery restore_delivery Deliveries.create Deliveries.to_domain
due_event-ok = refl

handle-IsNotified_example :
    IsNotified due_event office.tables (handle_notification_requested due_event office).1.tables
handle-IsNotified_example = handle-IsNotified due_event office due_event-ok refl

abbrev after_event : World
after_event = (handle_notification_requested due_event office).1

-- Another event has been processed since.
abbrev another : ProcessedEvent
another = record { consumer_name = consumer_name; event_id = 33; processed_at = pos 6000000000000 }

abbrev much_later : World
much_later = record office {
  tables = record (after_event.tables) {
    processed_events = after_event.tables.processed_events ++ another ∷ [];
  };
}

handle_twice_example :
    (handle_notification_requested due_event much_later).1.tables ≡ much_later.tables
handle_twice_example =
    handle_twice due_event due_event office much_later (another ∷ []) env-IsTransactional
      due_event-ok refl refl

-- The event twice, with one between that has no recipient.
abbrev delivered : List HandleNotificationRequestedCommand
delivered = due_event ∷ record due_event { event_id = 32; recipient_user_id = 0 } ∷ due_event ∷ []

office-Holds : Holds [] office.tables
office-Holds = record { distinct = tt; notified = tt; processed = λ event. refl }

consume-Holds_example : Holds (inbox_after delivered office []) (consume delivered office).tables
consume-Holds_example = consume-Holds delivered [] office env-IsTransactional office-Holds

abbrev link_token : TelegramLinkToken
link_token = record {
  id = 41;
  user_id = 3;
  token_hash = runes "secret";
  expires_at = pos 5600000000000;
  used_at = none;
  created_at = pos 5000000000000;
}

abbrev waiting : World
waiting = record office { tables = record tables { telegram_link_tokens = link_token ∷ [] } }

abbrev start : HandleTelegramStartCommand
start = record { token = runes " secret "; chat_id = pos 88; telegram_username = none }

start-ok : (handle_telegram_start start waiting).0 ≡ ok tt
unfolding handle_telegram_start trim_space transaction start_in consume_by_hash
    restore_telegram_link_token is_blank new_telegram_link restore_telegram_link
    TelegramLinks.upsert
start-ok = refl

start_once_example :
    (handle_telegram_start start
      (record waiting { tables = (handle_telegram_start start waiting).1.tables })).0
    ≢ ok tt
start_once_example =
    start_once start start waiting
      (record waiting { tables = (handle_telegram_start start waiting).1.tables }) start-ok refl
      refl refl (ground arith)

abbrev undelivered : NotificationDelivery
undelivered = record {
  id = 51;
  notification_id = 61;
  channel = telegram;
  status = pending;
  attempts = pos 1;
  next_attempt_at = some (pos 4000000000000);
  sent_at = none;
  last_error = none;
}

abbrev unread : Notification
unread = record {
  id = 61;
  user_id = 2;
  task_id = some 7;
  reminder_id = some 22;
  kind = task_reminder;
  title = runes "Task reminder";
  body = runes "A task reminder is due.";
  created_at = pos 4000000000000;
  read_at = none;
}

-- Telegram refuses every message.
abbrev silent : World
silent = record office {
  tables = record tables { notifications = unread ∷ []; deliveries = undelivered ∷ [] };
  env = record env { chat = λ n. refused; chat_error = λ n. runes "timeout" };
}

abbrev map_status : List NotificationDelivery → List Status
map_status [] = []
map_status (d ∷ ds) = d.status ∷ map_status ds

-- With one delay, the second attempt of a delivery is its last.
gives_up :
    map_status (DeliveryRunner.process_due (pos 60000000000 ∷ []) 10 silent).1.tables.deliveries
    ≡ Delivery.failed ∷ []
unfolding DeliveryRunner.process_due transaction DeliveryRunner.process_due_in Deliveries.claim_due
    Deliveries.due_rows order_by insert_row map_rows Deliveries.to_domain restore_delivery for_each
    DeliveryRunner.process_delivery Notifications.find_by_id Notifications.to_domain
    restore_notification is_blank trim_space TelegramLinks.find_by_user_id restore_telegram_link
    DeliveryRunner.handle_send_failure DeliveryRunner.delay_at
    DeliveryRunner.sanitize_delivery_error Deliveries.mark_failed Deliveries.update_delivery ◌+ℤ◌
    ◌-ℤ◌
gives_up = refl

silent-IsTransactional : IsTransactional silent.env
silent-IsTransactional = record { discards = λ before after. refl }

abbrev one_delay : List ℤ
one_delay = pos 60000000000 ∷ []

process_due-IsBounded_example :
    (length (DeliveryRunner.process_due one_delay 10 silent).1.messages
      ≤ length silent.messages + 10)
    × AllWithin one_delay (DeliveryRunner.process_due one_delay 10 silent).1
    × IsAccounted silent
        (DeliveryRunner.process_due one_delay 10 silent).0
        (DeliveryRunner.process_due one_delay 10 silent).1
process_due-IsBounded_example =
    process_due-IsBounded one_delay 10 silent silent-IsTransactional (tt, tt) (ground arith)

abbrev fill : ℕ → Text
fill zero = []
fill (suc n) = 97 ∷ fill n

fill-IsAscii : (n : ℕ) → IsAscii (fill n)
fill-IsAscii zero = tt
fill-IsAscii (suc n) = (ground arith, fill-IsAscii n)

fill-trimmed :
    DeliveryRunner.without_breaks (trim_space (fill 499 ++ 233 ∷ [])) ≡ fill 499 ++ 233 ∷ []
unfolding trim_space
fill-trimmed = refl

handle_send_failure_cut_example :
    ((DeliveryRunner.handle_send_failure [] 51 (pos 2) (fill 499 ++ 233 ∷ []) silent).0
      ≡ err database)
    × ((DeliveryRunner.handle_send_failure [] 51 (pos 2) (fill 499 ++ 233 ∷ []) silent).1.tables
        ≡ silent.tables)
handle_send_failure_cut_example =
    handle_send_failure_cut [] 51 (pos 2) (fill 499 ++ 233 ∷ []) (fill 499) [] 233 silent
      fill-trimmed (fill-IsAscii 499) refl (ground arith)

-- A notification for each of two users.
abbrev shared : World
shared = record office {
  tables = record tables { notifications = unread ∷ record unread { id = 62; user_id = 3 } ∷ [] };
}

mark_all_read-ok : (mark_all_read 2 shared).0 ≡ ok tt
unfolding mark_all_read Notifications.mark_all_read
mark_all_read-ok = refl

mark_all_read-clears_example :
    ((count_unread 2 (mark_all_read 2 shared).1).0 ≡ ok 0)
    × ((list_notifications 3 (mark_all_read 2 shared).1).0
        ≡ (list_notifications 3 (record ((mark_all_read 2 shared).1) { tables = shared.tables })).0)
unfolding mark_all_read Notifications.mark_all_read
mark_all_read-clears_example =
    mark_all_read-clears 2 3 shared (mark_all_read 2 shared).1 mark_all_read-ok refl refl
      (ground arith)

mark_read-ok : (mark_read 2 61 shared).0 ≡ ok tt
unfolding mark_read Notifications.find_by_id Notifications.to_domain restore_notification is_blank
    trim_space Domain.mark_read Notifications.mark_read
mark_read-ok = refl

mark_read-IsRead_example :
    IsRead 2 61 (pos 5001000000000) shared.tables (mark_read 2 61 shared).1.tables
mark_read-IsRead_example = mark_read-IsRead 2 61 shared mark_read-ok
