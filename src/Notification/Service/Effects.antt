-- ===== src/Notification/Service/Effects.antt =====
-- What `HandleNotificationRequested` of
-- internal/notification/application/service/notification_service.go leaves, on each outcome.
use go_pet_project.Base.{
  ℕ, Bool, true, false, some, [], ◌∷◌, ◌++◌, ◌≡◌, refl, ap, ◌∙◌, arith, inl, inr, Bool-cases,
}
use go_pet_project.Base.Text.{runes}
use go_pet_project.Time.{Time}
use go_pet_project.Errors.{Error, Result, ok, err, Result-cases, telegram_link_not_found}
use go_pet_project.World.{World, Tables, IsTransactional, tick}
use go_pet_project.World.Frames.{transaction-ok, transaction_atomic, env-transaction}
use go_pet_project.Notification.Domain.{Notification, task_reminder, new_notification}
use go_pet_project.Notification.Telegram.{TelegramLink}
use go_pet_project.Notification.Repository.Notifications
use go_pet_project.Notification.Repository.ProcessedEvents.{try_insert}
use go_pet_project.Notification.Repository.TelegramLinks
use go_pet_project.Notification.Repository.Deliveries
use go_pet_project.Notification.Service.{
  HandleNotificationRequestedCommand, consumer_name, handle_notification_requested, handle_in,
  notify, create_telegram_delivery_if_linked, deliver_over, is_incomplete,
}
use go_pet_project.Notification.Service.Once.{is_processed, notify-processed}

env-deliver_over :
    (r : Result TelegramLink) (id : ℕ) (at : Time) (w : World)
    → (deliver_over r id at w).1.env ≡ w.env
unfolding Deliveries.create
env-deliver_over (err telegram_link_not_found) id at w = refl
env-deliver_over (err e) id at w = refl
env-deliver_over (ok link) id at w = ground arith

env-find : (user : ℕ) (w : World) → (TelegramLinks.find_by_user_id user w).1.env ≡ w.env
unfolding TelegramLinks.find_by_user_id
env-find user w = ground arith

env-linked :
    (n : Notification) (at : Time) (w : World)
    → (create_telegram_delivery_if_linked n at w).1.env ≡ w.env
unfolding create_telegram_delivery_if_linked
env-linked n at w =
    let (link, w') = TelegramLinks.find_by_user_id n.user_id w in
    env-deliver_over link n.id at w' ∙ env-find n.user_id w

env-create : (n : Notification) (w : World) → (Notifications.create n w).1.env ≡ w.env
unfolding Notifications.create
env-create n w = ground arith

env-notify :
    (cmd : HandleNotificationRequestedCommand) (at : Time) (w : World)
    → (notify cmd at w).1.env ≡ w.env
unfolding notify
env-notify cmd at w =
    let made =
      new_notification (w.env.uuid w.step) cmd.recipient_user_id (some cmd.task_id)
        (some cmd.reminder_id) task_reminder (runes "Task reminder")
        (runes "A task reminder is due.") at in
    elim (Result-cases made) [
      | inr (_, bad) ↦ rw bad refl
      | inl (n, good) ↦ elim (Result-cases (Notifications.create n (tick w)).0) [
        | inr (_, bad) ↦ rw (good, bad) (env-create n (tick w))
        | inl (created, stored) ↦
            rw (good, stored)
              (env-linked created at (Notifications.create n (tick w)).1 ∙ env-create n (tick w))
      ]
    ]

env-try_insert :
    (event : ℕ) (at : Time) (w : World) → (try_insert consumer_name event at w).1.env ≡ w.env
unfolding try_insert
env-try_insert event at w = ground arith

env-handle_in :
    (cmd : HandleNotificationRequestedCommand) (w : World) → (handle_in cmd w).1.env ≡ w.env
unfolding handle_in
env-handle_in cmd w =
    let at = w.env.clock w.step in
    let env = env-try_insert cmd.event_id at (tick w) in
    elim (Result-cases (try_insert consumer_name cmd.event_id at (tick w)).0) [
      | inr (_, bad) ↦ rw bad env
      | inl (true, new) ↦
          rw new (env-notify cmd at (try_insert consumer_name cmd.event_id at (tick w)).1 ∙ env)
      | inl (false, known) ↦ rw known env
    ]

inserted-row :
    (event : ℕ) (at : Time) (w : World) {inserted : Bool}
    → (try_insert consumer_name event at w).0 ≡ ok inserted
    → is_processed w.tables event ≡ false
    → (inserted ≡ true)
      × ((try_insert consumer_name event at w).1.tables.processed_events
          ≡ w.tables.processed_events
            ++ record { consumer_name = consumer_name; event_id = event; processed_at = at } ∷ [])
unfolding try_insert
inserted-row event at w h fresh = ground arith

-- A successful handling of a new event has registered it.
handle_in-row :
    (cmd : HandleNotificationRequestedCommand) (w : World)
    → (handle_in cmd w).0 ≡ ok tt
    → is_processed w.tables cmd.event_id ≡ false
    → (at : Time) × ((handle_in cmd w).1.tables.processed_events
        ≡ w.tables.processed_events
          ++ record { consumer_name = consumer_name; event_id = cmd.event_id; processed_at = at }
            ∷ [])
unfolding handle_in
handle_in-row cmd w h fresh =
    let at = w.env.clock w.step in
    elim (Result-cases (try_insert consumer_name cmd.event_id at (tick w)).0) [
      | inr (_, bad) ↦ absurd (ground arith)
      | inl (true, new) ↦
          let (_, rows) = inserted-row cmd.event_id at (tick w) new fresh in
          (
            at,
            rw new (
                notify-processed cmd at (try_insert consumer_name cmd.event_id at (tick w)).1
                ∙ rows),
          )
      | inl (false, known) ↦
          absurd (ground (arith, inserted-row cmd.event_id at (tick w) known fresh))
    ]

pub env-handle :
    (c : HandleNotificationRequestedCommand) (w : World)
    → (handle_notification_requested c w).1.env ≡ w.env
unfolding handle_notification_requested
env-handle c w = elim (Bool-cases (is_incomplete c)) [
  | inl incomplete ↦ rw incomplete refl
  | inr complete ↦ rw complete (env-transaction (handle_in c) w (env-handle_in c (tick w)))
]

pub handle_atomic :
    (c : HandleNotificationRequestedCommand) (w : World) {e : Error}
    → IsTransactional w.env
    → (handle_notification_requested c w).0 ≡ err e
    → (handle_notification_requested c w).1.tables ≡ w.tables
unfolding handle_notification_requested
handle_atomic c w t h = elim (Bool-cases (is_incomplete c)) [
  | inl incomplete ↦ rw incomplete refl
  | inr complete ↦ rw complete (transaction_atomic (handle_in c) w t (rw complete at h))
]

pub handle-row :
    (c : HandleNotificationRequestedCommand) (w : World)
    → (handle_notification_requested c w).0 ≡ ok tt
    → is_processed w.tables c.event_id ≡ false
    → (at : Time) × ((handle_notification_requested c w).1.tables.processed_events
        ≡ w.tables.processed_events
          ++ record { consumer_name = consumer_name; event_id = c.event_id; processed_at = at }
            ∷ [])
unfolding handle_notification_requested
handle-row c w h fresh = elim (Bool-cases (is_incomplete c)) [
  | inl incomplete ↦ absurd (ground arith)
  | inr complete ↦
      let (inner, kept) = transaction-ok (handle_in c) w (rw complete at h) in
      let (at, rows) = handle_in-row c (tick w) inner fresh in
      (at, rw complete (ap (λ (db : Tables). db.processed_events) kept ∙ rows))
]
