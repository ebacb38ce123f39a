-- ===== src/Notification/Service/Notified.antt =====
-- What the consumer of the topic makes of an event that it has not seen.
use go_pet_project.Base.{
  ℕ, suc, Bool, true, false, not, some, none, List, [], ◌∷◌, ◌++◌, ◌≡◌, ◌⊎◌, refl, arith, inl, inr,
  Bool-cases,
}
use go_pet_project.Base.Text.{Text, runes}
use go_pet_project.Base.Int.{pos}
use go_pet_project.Time.{Time}
use go_pet_project.Errors.{Result, ok, err, Result-cases, telegram_link_not_found}
use go_pet_project.World.{World, Tables, transaction, tick}
use go_pet_project.World.Frames.{transaction-ok}
use go_pet_project.Notification.Domain.{
  Notification, task_reminder, new_notification, restore_notification,
}
use go_pet_project.Notification.Delivery.{
  NotificationDelivery, pending, telegram, new_delivery, restore_delivery,
}
use go_pet_project.Notification.Telegram.{TelegramLink}
use go_pet_project.Notification.Repository.Notifications
use go_pet_project.Notification.Repository.ProcessedEvents.{try_insert}
use go_pet_project.Notification.Repository.TelegramLinks
use go_pet_project.Notification.Repository.Deliveries
use go_pet_project.Notification.Service.{
  HandleNotificationRequestedCommand, consumer_name, handle_notification_requested, handle_in,
  notify, create_telegram_delivery_if_linked, deliver_over, is_incomplete,
}
use go_pet_project.Notification.Service.Once.{is_processed}

-- The rows of deliveries are as they were, or there is one more: a pending one of the notification,
-- which has not been attempted.
abbrev pub IsDelivered : ℕ → List NotificationDelivery → List NotificationDelivery → Type 0
IsDelivered notification before after =
    (after ≡ before)
    ⊎ ((d : NotificationDelivery) × (after ≡ before ++ d ∷ [])
        × (d.notification_id ≡ notification)
        × (d.status ≡ pending)
        × (d.attempts ≡ pos 0))

new_delivery-ok :
    (id notification : ℕ) (at : Time) {d : NotificationDelivery}
    → new_delivery id notification telegram at ≡ ok d
    → (d.notification_id ≡ notification) × (d.status ≡ pending) × (d.attempts ≡ pos 0)
unfolding new_delivery restore_delivery
new_delivery-ok id notification at h = ground arith

create-appends :
    (d : NotificationDelivery) (w : World) {e : NotificationDelivery}
    → (Deliveries.create d w).0 ≡ ok e
    → (Deliveries.create d w).1.tables
      ≡ record (w.tables) { deliveries = w.tables.deliveries ++ d ∷ [] }
unfolding Deliveries.create
create-appends d w h = ground arith

-- The tables but for the deliveries.
abbrev Leaves : ℕ → Tables → Tables → Type 0
Leaves notification db after =
    (after.notifications ≡ db.notifications)
    × IsDelivered notification db.deliveries after.deliveries

deliver_over-Leaves :
    (r : Result TelegramLink) (id : ℕ) (at : Time) (w : World)
    → (deliver_over r id at w).0 ≡ ok tt
    → Leaves id w.tables (deliver_over r id at w).1.tables
deliver_over-Leaves (err telegram_link_not_found) id at w h = (refl, inl refl)
deliver_over-Leaves (err e) id at w h = (refl, inl refl)
deliver_over-Leaves (ok link) id at w h = elim (Bool-cases link.enabled) [
  | inr disabled ↦ rw disabled (refl, inl refl)
  | inl enabled ↦ elim (Result-cases (new_delivery (w.env.uuid w.step) id telegram at)) [
    | inr (_, bad) ↦ absurd (ground arith)
    | inl (d, made) ↦ elim (Result-cases (Deliveries.create d (tick w)).0) [
      | inr (_, bad) ↦ absurd (ground arith)
      | inl (e, stored) ↦
          let (of_it, is_pending, unattempted) = new_delivery-ok (w.env.uuid w.step) id at made in
          rw (enabled, made, stored, create-appends d (tick w) stored)
            (refl, inr (d, refl, of_it, is_pending, unattempted))
    ]
  ]
]

find-tables : (user : ℕ) (w : World) → (TelegramLinks.find_by_user_id user w).1.tables ≡ w.tables
unfolding TelegramLinks.find_by_user_id
find-tables user w = ground arith

linked-Leaves :
    (n : Notification) (at : Time) (w : World)
    → (create_telegram_delivery_if_linked n at w).0 ≡ ok tt
    → Leaves n.id w.tables (create_telegram_delivery_if_linked n at w).1.tables
unfolding create_telegram_delivery_if_linked
linked-Leaves n at w h =
    let (link, w') = TelegramLinks.find_by_user_id n.user_id w in
    rw (find-tables n.user_id w) at (deliver_over-Leaves link n.id at w' h)

created-ok :
    (n : Notification) (w : World) {u : Notification}
    → (Notifications.create n w).0 ≡ ok u
    → (u ≡ n)
      × ((Notifications.create n w).1.tables
          ≡ record (w.tables) { notifications = w.tables.notifications ++ n ∷ [] })
unfolding Notifications.create Notifications.to_domain restore_notification
created-ok n w h = ground arith

-- A notification for the recipient of the event, about its task and its reminder, and unread.
abbrev pub IsFor : HandleNotificationRequestedCommand → Notification → Type 0
IsFor cmd n =
    (n.user_id ≡ cmd.recipient_user_id)
    × (n.task_id ≡ some cmd.task_id)
    × (n.reminder_id ≡ some cmd.reminder_id)
    × (n.read_at ≡ none)

new_notification-IsFor :
    (id : ℕ) (cmd : HandleNotificationRequestedCommand) (title body : Text) (at : Time)
    {n : Notification}
    → new_notification id cmd.recipient_user_id
        (some cmd.task_id)
        (some cmd.reminder_id)
        task_reminder
        title
        body
        at
      ≡ ok n
    → IsFor cmd n
unfolding new_notification restore_notification
new_notification-IsFor id cmd title body at h = ground arith

-- One notification of the event is added, and what `IsDelivered` says.
abbrev pub IsNotified : HandleNotificationRequestedCommand → Tables → Tables → Type 0
IsNotified cmd db after =
    (n : Notification) × IsFor cmd n
    × (after.notifications ≡ db.notifications ++ n ∷ [])
    × IsDelivered n.id db.deliveries after.deliveries

notify-IsNotified :
    (cmd : HandleNotificationRequestedCommand) (at : Time) (w : World)
    → (notify cmd at w).0 ≡ ok tt
    → IsNotified cmd w.tables (notify cmd at w).1.tables
unfolding notify
notify-IsNotified cmd at w h =
    let made =
      new_notification (w.env.uuid w.step) cmd.recipient_user_id (some cmd.task_id)
        (some cmd.reminder_id) task_reminder (runes "Task reminder")
        (runes "A task reminder is due.") at in
    elim (Result-cases made) [
      | inr (_, bad) ↦ absurd (ground arith)
      | inl (n, good) ↦ elim (Result-cases (Notifications.create n (tick w)).0) [
        | inr (_, bad) ↦ absurd (ground arith)
        | inl (created, stored) ↦
            let w' = (Notifications.create n (tick w)).1 in
            let (same, rows) = created-ok n (tick w) stored in
            let rest : (create_telegram_delivery_if_linked created at w').0 ≡ ok tt =
              rw (good, stored) at h in
            let (kept, delivered) = rw (same, rows) at (linked-Leaves created at w' rest) in
            let is_for = new_notification-IsFor (w.env.uuid w.step) cmd _ _ at good in
            rw (good, stored, same) (n, is_for, kept, delivered)
      ]
    ]

inserted-others :
    (event : ℕ) (at : Time) (w : World)
    → ((try_insert consumer_name event at w).1.tables.notifications ≡ w.tables.notifications)
      × ((try_insert consumer_name event at w).1.tables.deliveries ≡ w.tables.deliveries)
unfolding try_insert
inserted-others event at w = ground arith

is_inserted :
    (event : ℕ) (at : Time) (w : World) {inserted : Bool}
    → (try_insert consumer_name event at w).0 ≡ ok inserted
    → inserted ≡ not (is_processed w.tables event)
unfolding try_insert
is_inserted event at w h = ground arith

-- An event that is handled for the first time, without an error, adds one unread notification for
-- its recipient, and at most one delivery of it, which is pending and has not been attempted.
pub handle-IsNotified :
    (cmd : HandleNotificationRequestedCommand) (w : World)
    → (handle_notification_requested cmd w).0 ≡ ok tt
    → is_processed w.tables cmd.event_id ≡ false
    → IsNotified cmd w.tables (handle_notification_requested cmd w).1.tables
unfolding handle_notification_requested handle_in
handle-IsNotified cmd w h fresh = elim (Bool-cases (is_incomplete cmd)) [
  | inl incomplete ↦ absurd (ground arith)
  | inr complete ↦
      let ran : (transaction (handle_in cmd) w).0 ≡ ok tt = rw complete at h in
      let (inner, kept) = transaction-ok (handle_in cmd) w ran in
      let at = w.env.clock (suc w.step) in
      let ready = tick (tick w) in
      let (registered, w') = try_insert consumer_name cmd.event_id at ready in
      let (same_n, same_d) = inserted-others cmd.event_id at ready in
      elim (Result-cases registered) [
        | inr (_, bad) ↦ absurd (ground arith)
        | inl (false, known) ↦ absurd (ground (arith, is_inserted cmd.event_id at ready known))
        | inl (true, inserted) ↦
            let rest : (notify cmd at w').0 ≡ ok tt = rw inserted at inner in
            rw (complete, kept, inserted)
              (rw (same_n, same_d) at (notify-IsNotified cmd at w' rest))
      ]
]
