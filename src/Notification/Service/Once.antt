-- ===== src/Notification/Service/Once.antt =====
-- The consumer of the topic makes one notification of an event, however often the event comes.
use go_pet_project.Base.{
  ℕ, Bool, true, false, not, some, List, [], ◌∷◌, ◌++◌, ◌≡◌, refl, ap, ◌∙◌, arith, find, is_some,
  inl, inr, Bool-cases,
}
use go_pet_project.Base.Text.{runes}
use go_pet_project.Time.{Time}
use go_pet_project.Errors.{Result, ok, err, Result-cases, telegram_link_not_found}
use go_pet_project.World.{World, Tables, ProcessedEvent, IsTransactional, transaction, tick}
use go_pet_project.World.Frames.{transaction-ok, transaction_atomic}
use go_pet_project.Notification.Domain.{Notification, task_reminder, new_notification}
use go_pet_project.Notification.Telegram.{TelegramLink}
use go_pet_project.Notification.Repository.Notifications
use go_pet_project.Notification.Repository.ProcessedEvents.{is_entry, try_insert}
use go_pet_project.Notification.Repository.TelegramLinks
use go_pet_project.Notification.Repository.Deliveries
use go_pet_project.Notification.Service.{
  HandleNotificationRequestedCommand, consumer_name, handle_notification_requested, handle_in,
  notify, create_telegram_delivery_if_linked, deliver_over, is_incomplete,
}

-- The event has been processed.
abbrev pub is_processed : Tables → ℕ → Bool
is_processed db event = is_some (find (is_entry consumer_name event) db.processed_events)

find-appended :
    (event : ℕ) (at : Time) (ps : List ProcessedEvent)
    → is_some (
        find (is_entry consumer_name event) (
          ps ++ record { consumer_name = consumer_name; event_id = event; processed_at = at } ∷ []))
      ≡ true
find-appended event at [] = ground arith
find-appended event at (p ∷ ps) = ground (arith, find-appended event at ps)

try_insert-ok :
    (event : ℕ) (at : Time) (w : World) {inserted : Bool}
    → (try_insert consumer_name event at w).0 ≡ ok inserted
    → (inserted ≡ not (is_processed w.tables event))
      × (is_processed (try_insert consumer_name event at w).1.tables event ≡ true)
      × (inserted ≡ false → (try_insert consumer_name event at w).1.tables ≡ w.tables)
unfolding try_insert
try_insert-ok event at w h = ground (arith, find-appended event at w.tables.processed_events)

deliver_over-processed :
    (r : Result TelegramLink) (id : ℕ) (at : Time) (w : World)
    → (deliver_over r id at w).1.tables.processed_events ≡ w.tables.processed_events
unfolding Deliveries.create
deliver_over-processed (err telegram_link_not_found) id at w = refl
deliver_over-processed (err e) id at w = refl
deliver_over-processed (ok link) id at w = ground arith

create-processed :
    (n : Notification) (w : World)
    → (Notifications.create n w).1.tables.processed_events ≡ w.tables.processed_events
unfolding Notifications.create
create-processed n w = ground arith

pub find-tables :
    (user : ℕ) (w : World) → (TelegramLinks.find_by_user_id user w).1.tables ≡ w.tables
unfolding TelegramLinks.find_by_user_id
find-tables user w = ground arith

linked-processed :
    (n : Notification) (at : Time) (w : World)
    → (create_telegram_delivery_if_linked n at w).1.tables.processed_events
      ≡ w.tables.processed_events
unfolding create_telegram_delivery_if_linked
linked-processed n at w =
    let (link, w') = TelegramLinks.find_by_user_id n.user_id w in
    deliver_over-processed link n.id at w'
    ∙ ap (λ (db : Tables). db.processed_events) (find-tables n.user_id w)

pub notify-processed :
    (cmd : HandleNotificationRequestedCommand) (at : Time) (w : World)
    → (notify cmd at w).1.tables.processed_events ≡ w.tables.processed_events
unfolding notify
notify-processed cmd at w =
    let made =
      new_notification (w.env.uuid w.step) cmd.recipient_user_id (some cmd.task_id)
        (some cmd.reminder_id) task_reminder (runes "Task reminder")
        (runes "A task reminder is due.") at in
    elim (Result-cases made) [
      | inr (_, bad) ↦ rw bad refl
      | inl (n, good) ↦ elim (Result-cases (Notifications.create n (tick w)).0) [
        | inr (_, bad) ↦ rw (good, bad) (create-processed n (tick w))
        | inl (created, stored) ↦
            rw (good, stored)
              (linked-processed created at (Notifications.create n (tick w)).1
                ∙ create-processed n (tick w))
      ]
    ]

-- An event that is handled is processed from then on, and one that is processed changes nothing.
handle_in-processed :
    (cmd : HandleNotificationRequestedCommand) (w : World)
    → (handle_in cmd w).0 ≡ ok tt
    → (is_processed (handle_in cmd w).1.tables cmd.event_id ≡ true)
      × (is_processed w.tables cmd.event_id ≡ true → (handle_in cmd w).1.tables ≡ w.tables)
unfolding handle_in
handle_in-processed cmd w h =
    let at = w.env.clock w.step in
    elim (Result-cases (try_insert consumer_name cmd.event_id at (tick w)).0) [
      | inr (_, bad) ↦ absurd (ground arith)
      | inl (true, inserted) ↦
          let (fresh, registered, _) = try_insert-ok cmd.event_id at (tick w) inserted in
          (
            rw inserted (
                ap (λ ps. is_some (find (is_entry consumer_name cmd.event_id) ps))
                  (notify-processed cmd at (try_insert consumer_name cmd.event_id at (tick w)).1)
                ∙ registered),
            λ seen. absurd (ground arith),
          )
      | inl (false, known) ↦
          let (_, registered, kept) = try_insert-ok cmd.event_id at (tick w) known in
          (rw known registered, λ _. rw known (kept refl))
    ]

pub processed_unchanged :
    (cmd : HandleNotificationRequestedCommand) (w : World)
    → IsTransactional w.env
    → is_processed w.tables cmd.event_id ≡ true
    → (handle_notification_requested cmd w).1.tables ≡ w.tables
unfolding handle_notification_requested
processed_unchanged cmd w t seen = elim (Bool-cases (is_incomplete cmd)) [
  | inl incomplete ↦ rw incomplete refl
  | inr complete ↦ elim (Result-cases (transaction (handle_in cmd) w).0) [
    | inr (_, bad) ↦ rw complete (transaction_atomic (handle_in cmd) w t bad)
    | inl (tt, good) ↦
        let (inner, same) = transaction-ok (handle_in cmd) w good in
        rw complete (same ∙ (handle_in-processed cmd (tick w) inner).1 seen)
  ]
]

is_some-find-append :
    {A : Type 0} (p : A → Bool) (xs ys : List A)
    → is_some (find p xs) ≡ true
    → is_some (find p (xs ++ ys)) ≡ true
is_some-find-append p [] ys h = absurd (ground arith)
is_some-find-append p (x ∷ xs) ys h = elim (Bool-cases (p x)) [
  | inl hit ↦ rw hit refl
  | inr miss ↦ rw miss (is_some-find-append p xs ys (rw miss at h))
]

-- Where the database is transactional, an event that the consumer has handled without an error, and
-- that comes again, changes nothing in the database, also where its handling then fails: while the
-- processed events are those that the first handling has left, or have more rows after these.
pub handle_twice :
    (cmd again : HandleNotificationRequestedCommand) (w v : World) (more : List ProcessedEvent)
    → IsTransactional v.env
    → (handle_notification_requested cmd w).0 ≡ ok tt
    → again.event_id ≡ cmd.event_id
    → v.tables.processed_events
      ≡ (handle_notification_requested cmd w).1.tables.processed_events ++ more
    → (handle_notification_requested again v).1.tables ≡ v.tables
unfolding handle_notification_requested
handle_twice cmd again w v more t h same later = elim (Bool-cases (is_incomplete cmd)) [
  | inl incomplete ↦ absurd (ground arith)
  | inr complete ↦
      let ran : (transaction (handle_in cmd) w).0 ≡ ok tt = rw complete at h in
      let (inner, kept) = transaction-ok (handle_in cmd) w ran in
      let (registered, _) = handle_in-processed cmd (tick w) inner in
      let left = (handle_in cmd (tick w)).1.tables.processed_events in
      let rows : v.tables.processed_events ≡ left ++ more =
        (rw complete at later) ∙ ap (λ (db : Tables). db.processed_events ++ more) kept in
      processed_unchanged again v t (
        rw (same, rows)
          (is_some-find-append (is_entry consumer_name cmd.event_id) left more registered))
]
