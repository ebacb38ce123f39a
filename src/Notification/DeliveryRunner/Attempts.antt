-- ===== src/Notification/DeliveryRunner/Attempts.antt =====
-- How often `processDelivery` of internal/notification/application/service/delivery_runner.go
-- attempts a delivery.
use go_pet_project.Base.{
  ℕ, zero, suc, true, Option, some, none, List, [], ◌∷◌, ◌≡◌, ◌<◌, refl, arith, All, length,
  update_rows, is_some, inl, inr, Bool-cases, Option-cases,
}
use go_pet_project.Base.Text.{Text, runes}
use go_pet_project.Base.Int.{ℤ, pos, ◌+ℤ◌, ◌-ℤ◌, ◌≤ℤ◌}
use go_pet_project.Errors.{Result, ok, err, Result-cases, telegram_link_not_found, publish}
use go_pet_project.World.{
  World, Message, tick, Answer, acknowledged, unacknowledged, refused, chatted,
}
use go_pet_project.World.Loops.{IsPreorder}
use go_pet_project.Notification.Domain.{Notification}
use go_pet_project.Notification.Delivery.{NotificationDelivery, is_pending}
use go_pet_project.Notification.Telegram.{TelegramLink}
use go_pet_project.Notification.Repository.Notifications
use go_pet_project.Notification.Repository.TelegramLinks
use go_pet_project.Notification.Repository.Deliveries
use go_pet_project.Notification.Repository.Deliveries.{
  has_id, update_delivery, sent_row, retried_row, failed_row,
}
use go_pet_project.Notification.DeliveryRunner

-- No delivery has been attempted more often than there are delays, and once; a pending one at most
-- as often as there are delays.
abbrev pub IsWithin : List ℤ → NotificationDelivery → Type 0
IsWithin delays d =
    (d.attempts ≤ℤ pos (suc (length delays)))
    × (is_pending d.status ≡ true → d.attempts ≤ℤ pos (length delays))

abbrev pub AllWithin : List ℤ → World → Type 0
AllWithin delays w = All (IsWithin delays) w.tables.deliveries

abbrev pub Keeps : List ℤ → World → World → Type 0
Keeps delays w w' = AllWithin delays w → AllWithin delays w'

pub Keeps-order : (delays : List ℤ) → IsPreorder (Keeps delays)
Keeps-order delays = record { stays = λ w h. h; composes = λ f g h. g (f h) }

updated-IsWithin :
    (delays : List ℤ) (id : ℕ) (change : NotificationDelivery → NotificationDelivery)
    (ds : List NotificationDelivery)
    → ((d : NotificationDelivery) → IsWithin delays (change d))
    → All (IsWithin delays) ds
    → All (IsWithin delays) (update_rows (has_id id) change ds)
updated-IsWithin delays id change [] c h = tt
updated-IsWithin delays id change (d ∷ ds) c (h, hs) = elim (Bool-cases (has_id id d)) [
  | inl this ↦ rw this (c d, updated-IsWithin delays id change ds c hs)
  | inr other ↦ rw other (h, updated-IsWithin delays id change ds c hs)
]

update_delivery-Keeps :
    (delays : List ℤ) (id : ℕ) (change : NotificationDelivery → NotificationDelivery) (w : World)
    → ((d : NotificationDelivery) → IsWithin delays (change d))
    → Keeps delays w (update_delivery id change w).1
unfolding update_delivery
update_delivery-Keeps delays id change w c h = elim (Bool-cases (w.env.statement_fails w.step)) [
  | inl fails ↦ rw fails h
  | inr works ↦ rw works (updated-IsWithin delays id change w.tables.deliveries c h)
]

delay_at-length :
    (delays : List ℤ) (i : ℕ) {d : ℤ}
    → DeliveryRunner.delay_at delays i ≡ some d
    → i < length delays
unfolding DeliveryRunner.delay_at
delay_at-length [] i h = ground arith
delay_at-length (d ∷ ds) zero h = ground arith
delay_at-length (d ∷ ds) (suc i) h = ground (arith, delay_at-length ds i h)

retry_or_fail-Keeps :
    (delays : List ℤ) (delay : Option ℤ) (id : ℕ) (attempts : ℤ) (text : Option Text) (w : World)
    → attempts ≤ℤ pos (suc (length delays))
    → (is_some delay ≡ true → attempts ≤ℤ pos (length delays))
    → Keeps delays w (DeliveryRunner.retry_or_fail delay id attempts text w).1
unfolding Deliveries.schedule_retry Deliveries.mark_failed
retry_or_fail-Keeps delays (some wait) id attempts none w a b h = h
retry_or_fail-Keeps delays none id attempts none w a b h = h
retry_or_fail-Keeps delays (some wait) id attempts (some text) w a b h =
    update_delivery-Keeps delays id _ (tick w) (λ d. (a, λ _. b refl)) h
retry_or_fail-Keeps delays none id attempts (some text) w a b h =
    update_delivery-Keeps delays id _ w (λ d. (a, λ bad. absurd (ground arith))) h

next_fits : (a : ℤ) (n : ℕ) → a ≤ℤ pos n → (a +ℤ pos 1) ≤ℤ pos (suc n)
unfolding ◌+ℤ◌
next_fits a n h = ground arith

index_fits : (a : ℤ) (n : ℕ) → DeliveryRunner.index_of (a +ℤ pos 1) < n → (a +ℤ pos 1) ≤ℤ pos n
unfolding ◌+ℤ◌ ◌-ℤ◌
index_fits a n h = ground arith

some_fits :
    (delays : List ℤ) (i : ℕ)
    → is_some (DeliveryRunner.delay_at delays i) ≡ true
    → i < length delays
some_fits delays i h = elim (Option-cases (DeliveryRunner.delay_at delays i)) [
  | inl missing ↦ absurd (ground arith)
  | inr (d, found) ↦ delay_at-length delays i found
]

handle_send_failure-Keeps :
    (delays : List ℤ) (id : ℕ) (attempts : ℤ) (message : Text) (w : World)
    → attempts ≤ℤ pos (length delays)
    → Keeps delays w (DeliveryRunner.handle_send_failure delays id (attempts +ℤ pos 1) message w).1
unfolding DeliveryRunner.handle_send_failure
handle_send_failure-Keeps delays id attempts message w a =
    let i = DeliveryRunner.index_of (attempts +ℤ pos 1) in
    retry_or_fail-Keeps delays (DeliveryRunner.delay_at delays i) id (attempts +ℤ pos 1)
      (DeliveryRunner.sanitize_delivery_error message) w (next_fits attempts (length delays) a)
      (λ again. index_fits attempts (length delays) (some_fits delays i again))

mark_failed-Keeps :
    (delays : List ℤ) (d : NotificationDelivery) (reason : Text) (w : World)
    → d.attempts ≤ℤ pos (length delays)
    → Keeps delays w (DeliveryRunner.mark_failed d reason w).1
unfolding DeliveryRunner.mark_failed Deliveries.mark_failed
mark_failed-Keeps delays d reason w a h =
    elim (Option-cases (DeliveryRunner.sanitize_delivery_error reason)) [
      | inl cut ↦ rw cut h
      | inr (text, fits) ↦ rw fits (
          update_delivery-Keeps delays d.id _ w (λ e. (ground arith, λ bad. absurd (ground arith)))
            h)
    ]

settle_sending-Keeps :
    (delays : List ℤ) (d : NotificationDelivery) (message : Text) (r : Result (Unit {0}))
    (w : World)
    → d.attempts ≤ℤ pos (length delays)
    → Keeps delays w (DeliveryRunner.settle_sending delays d message r w).1
unfolding Deliveries.mark_sent
settle_sending-Keeps delays d message (err e) w a h =
    handle_send_failure-Keeps delays d.id d.attempts message w a h
settle_sending-Keeps delays d message (ok _) w a h =
    update_delivery-Keeps delays d.id _ (tick w)
      (λ e. (next_fits d.attempts (length delays) a, λ bad. absurd (ground arith))) h

pub chatted-tables :
    (a : Answer) (m : Message) (w : World)
    → ((chatted a m w).1.tables ≡ w.tables) × ((r : Result (Unit {0})) × ((chatted a m w).0 ≡ ok r))
chatted-tables acknowledged m w = (refl, (ok tt, refl))
chatted-tables unacknowledged m w = (refl, (err publish, refl))
chatted-tables refused m w = (refl, (err publish, refl))

send_over-Keeps :
    (delays : List ℤ) (d : NotificationDelivery) (n : Notification) (r : Result TelegramLink)
    (w : World)
    → d.attempts ≤ℤ pos (length delays)
    → Keeps delays w (DeliveryRunner.send_over delays d n r w).1
send_over-Keeps delays d n (err telegram_link_not_found) w a h =
    mark_failed-Keeps delays d (runes "telegram link unavailable") w a h
send_over-Keeps delays d n (err e) w a h = h
send_over-Keeps delays d n (ok link) w a h = elim (Bool-cases link.enabled) [
  | inr disabled ↦ rw disabled (mark_failed-Keeps delays d (runes "telegram link disabled") w a h)
  | inl enabled ↦
      let m : Message = record { chat_id = link.chat_id; title = n.title; body = n.body } in
      let (same, (r, answered)) = chatted-tables (w.env.chat w.step) m w in
      rw (enabled, answered)
        (settle_sending-Keeps delays d (w.env.chat_error w.step) r
          (chatted (w.env.chat w.step) m w).1 a (rw same h))
]

pub query-tables : (id : ℕ) (w : World) → (Notifications.find_by_id id w).1.tables ≡ w.tables
unfolding Notifications.find_by_id
query-tables id w = ground arith

pub find-tables :
    (user : ℕ) (w : World) → (TelegramLinks.find_by_user_id user w).1.tables ≡ w.tables
unfolding TelegramLinks.find_by_user_id
find-tables user w = ground arith

-- A delivery that is attempted once more stays within the bound, however the attempt ends.
pub process_delivery-Keeps :
    (delays : List ℤ) (d : NotificationDelivery) (w : World)
    → d.attempts ≤ℤ pos (length delays)
    → Keeps delays w (DeliveryRunner.process_delivery delays d w).1
unfolding DeliveryRunner.process_delivery
process_delivery-Keeps delays d w a h =
    elim (Result-cases (Notifications.find_by_id d.notification_id w).0) [
      | inr (_, bad) ↦ rw (bad, query-tables d.notification_id w) h
      | inl (n, found) ↦
          let w' = (Notifications.find_by_id d.notification_id w).1 in
          rw found (
            send_over-Keeps delays d n (TelegramLinks.find_by_user_id n.user_id w').0
              (TelegramLinks.find_by_user_id n.user_id w').1 a
              (rw (find-tables n.user_id w', query-tables d.notification_id w) h))
    ]
