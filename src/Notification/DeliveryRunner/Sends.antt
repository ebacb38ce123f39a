-- ===== src/Notification/DeliveryRunner/Sends.antt =====
-- How many messages a round of internal/notification/application/service/delivery_runner.go sends.
use go_pet_project.Base.{
  subst, ℕ, zero, suc, Option, some, none, List, [], ◌∷◌, ◌++◌, ◌+◌, ◌≤◌, ◌≡◌, refl, arith, length,
  take, inl, inr, Bool-cases, Option-cases,
}
use go_pet_project.Base.Text.{Text, runes}
use go_pet_project.Base.Int.{ℤ}
use go_pet_project.Errors.{Result, ok, err, Result-cases, map_rows, telegram_link_not_found}
use go_pet_project.World.{
  World, Action, Message, tick, Answer, acknowledged, unacknowledged, refused, chatted, for_each,
  transaction,
}
use go_pet_project.Notification.Domain.{Notification}
use go_pet_project.Notification.Delivery.{NotificationDelivery}
use go_pet_project.Notification.Telegram.{TelegramLink}
use go_pet_project.Notification.Repository.Notifications
use go_pet_project.Notification.Repository.TelegramLinks
use go_pet_project.Notification.Repository.Deliveries
use go_pet_project.Notification.Repository.Deliveries.{update_delivery}
use go_pet_project.Notification.DeliveryRunner

abbrev pub sent_count : World → ℕ
sent_count w = length w.messages

-- The action sends at most so many messages, however it ends.
abbrev SendsAtMost : {A : Type 0} → ℕ → Action A → Type 0
SendsAtMost n act = (w : World) → sent_count (act w).1 ≤ sent_count w + n

length-sent : (ms : List Message) (m : Message) → length (ms ++ m ∷ []) ≡ suc (length ms)
length-sent [] m = refl
length-sent (x ∷ ms) m = ground (arith, length-sent ms m)

update_delivery-sends :
    (id : ℕ) (change : NotificationDelivery → NotificationDelivery)
    → SendsAtMost 0 (update_delivery id change)
unfolding update_delivery
update_delivery-sends id change w = elim (Bool-cases (w.env.statement_fails w.step)) [
  | inl fails ↦ rw fails (ground arith)
  | inr works ↦ rw works (ground arith)
]

retry_or_fail-sends :
    (delay : Option ℤ) (id : ℕ) (attempts : ℤ) (text : Option Text)
    → SendsAtMost 0 (DeliveryRunner.retry_or_fail delay id attempts text)
unfolding Deliveries.schedule_retry Deliveries.mark_failed
retry_or_fail-sends (some wait) id attempts none w = ground arith
retry_or_fail-sends none id attempts none w = ground arith
retry_or_fail-sends (some wait) id attempts (some text) w = update_delivery-sends id _ (tick w)
retry_or_fail-sends none id attempts (some text) w = update_delivery-sends id _ w

mark_failed-sends :
    (d : NotificationDelivery) (reason : Text) → SendsAtMost 0 (DeliveryRunner.mark_failed d reason)
unfolding DeliveryRunner.mark_failed Deliveries.mark_failed
mark_failed-sends d reason w = elim (Option-cases (DeliveryRunner.sanitize_delivery_error reason)) [
  | inl cut ↦ rw cut (ground arith)
  | inr (text, fits) ↦ rw fits (update_delivery-sends d.id _ w)
]

settle_sending-sends :
    (delays : List ℤ) (d : NotificationDelivery) (message : Text) (r : Result (Unit {0}))
    → SendsAtMost 0 (DeliveryRunner.settle_sending delays d message r)
unfolding Deliveries.mark_sent DeliveryRunner.handle_send_failure
settle_sending-sends delays d message (err e) w = retry_or_fail-sends _ d.id _ _ w
settle_sending-sends delays d message (ok _) w = update_delivery-sends d.id _ (tick w)

pub chatted-sends :
    (a : Answer) (m : Message) (w : World)
    → (sent_count (chatted a m w).1 ≤ suc (sent_count w))
      × ((r : Result (Unit {0})) × ((chatted a m w).0 ≡ ok r))
chatted-sends acknowledged m w = (ground (arith, length-sent w.messages m), (ok tt, refl))
chatted-sends unacknowledged m w = (ground (arith, length-sent w.messages m), (_, refl))
chatted-sends refused m w = (ground arith, (_, refl))

send_over-sends :
    (delays : List ℤ) (d : NotificationDelivery) (n : Notification) (r : Result TelegramLink)
    → SendsAtMost 1 (DeliveryRunner.send_over delays d n r)
send_over-sends delays d n (err telegram_link_not_found) w =
    ground (arith, mark_failed-sends d (runes "telegram link unavailable") w)
send_over-sends delays d n (err e) w = ground arith
send_over-sends delays d n (ok link) w = elim (Bool-cases link.enabled) [
  | inr disabled ↦
      rw disabled (ground (arith, mark_failed-sends d (runes "telegram link disabled") w))
  | inl enabled ↦
      let m : Message = record { chat_id = link.chat_id; title = n.title; body = n.body } in
      let (one, (r, answered)) = chatted-sends (w.env.chat w.step) m w in
      rw (enabled, answered)
        (ground (
          arith,
          one,
          settle_sending-sends delays d (w.env.chat_error w.step) r
              (chatted (w.env.chat w.step) m w).1,
        ))
]

pub find_by_id-sends : (id : ℕ) → SendsAtMost 0 (Notifications.find_by_id id)
unfolding Notifications.find_by_id
find_by_id-sends id w = ground arith

pub find_by_user_id-sends : (user : ℕ) → SendsAtMost 0 (TelegramLinks.find_by_user_id user)
unfolding TelegramLinks.find_by_user_id
find_by_user_id-sends user w = ground arith

process_delivery-sends :
    (delays : List ℤ) (d : NotificationDelivery)
    → SendsAtMost 1 (DeliveryRunner.process_delivery delays d)
unfolding DeliveryRunner.process_delivery
process_delivery-sends delays d w =
    let first = find_by_id-sends d.notification_id w in
    elim (Result-cases (Notifications.find_by_id d.notification_id w).0) [
      | inr (_, bad) ↦ rw bad (ground (arith, first))
      | inl (n, found) ↦
          let w' = (Notifications.find_by_id d.notification_id w).1 in
          rw found (
            ground (
              arith,
              first,
              find_by_user_id-sends n.user_id w',
              send_over-sends delays d n (TelegramLinks.find_by_user_id n.user_id w').0
                  (TelegramLinks.find_by_user_id n.user_id w').1,
            ))
    ]

for_each-sends :
    {A : Type 0} (act : A → Action (Unit {0}))
    → ((a : A) → SendsAtMost 1 (act a))
    → (xs : List A) → SendsAtMost (length xs) (for_each act xs)
unfolding for_each
for_each-sends act h [] w = ground arith
for_each-sends act h (x ∷ xs) w =
    let one = h x w in
    elim (Result-cases (act x w).0) [
      | inr (_, bad) ↦ rw bad (ground (arith, one))
      | inl (_, good) ↦ rw good (ground (arith, one, for_each-sends act h xs (act x w).1))
    ]

length-take : {A : Type 0} (n : ℕ) (xs : List A) → length (take n xs) ≤ n
length-take zero xs = ground arith
length-take (suc n) [] = ground arith
length-take (suc n) (x ∷ xs) = ground (arith, length-take n xs)

length-map_rows :
    {A B : Type 0} (f : A → Result B) (xs : List A) {ys : List B}
    → map_rows f xs ≡ ok ys
    → length ys ≡ length xs
unfolding map_rows
length-map_rows f [] {ys = []} h = refl
length-map_rows f [] {ys = y ∷ ys} h = absurd (ground arith)
length-map_rows {A} {B} f (x ∷ xs) {ys} h = elim (Result-cases (f x)) [
  | inr (_, bad) ↦ absurd (ground arith)
  | inl (y, good) ↦ elim (Result-cases (map_rows f xs)) [
    | inr (_, bad) ↦ absurd (ground arith)
    | inl (rest, mapped) ↦
        let same : y ∷ rest ≡ ys = ground arith in
        subst (λ (zs : List B). length zs ≡ suc (length xs)) same
          (ground (arith, length-map_rows f xs mapped))
  ]
]

process_due_in-sends :
    (delays : List ℤ) (batch_size : ℕ)
    → SendsAtMost batch_size (DeliveryRunner.process_due_in delays batch_size)
unfolding DeliveryRunner.process_due_in Deliveries.claim_due Deliveries.due_rows
process_due_in-sends delays batch_size w =
    let at = w.env.clock w.step in
    let w1 = tick (tick w) in
    let rows = Deliveries.due_rows at batch_size (w.env.locked w1.step) w.tables in
    elim (Bool-cases (w.env.statement_fails (suc w.step))) [
      | inl fails ↦ rw fails (ground arith)
      | inr works ↦ elim (Result-cases (map_rows Deliveries.to_domain rows)) [
        | inr (_, bad) ↦ rw (works, bad) (ground arith)
        | inl (due, mapped) ↦
            let few = length-map_rows Deliveries.to_domain rows mapped in
            let most : length rows ≤ batch_size = length-take batch_size _ in
            rw (works, mapped)
              (ground (
                arith,
                few,
                most,
                for_each-sends (DeliveryRunner.process_delivery delays)
                    (process_delivery-sends delays) due w1,
              ))
      ]
    ]

transaction-sends :
    {A : Type 0} (n : ℕ) (act : Action A) → SendsAtMost n act → SendsAtMost n (transaction act)
unfolding transaction
transaction-sends n act h w = ground (arith, h (tick w))

-- A round of the runner, however it ends, sends at most as many messages as its batch is large.
pub process_due-sends :
    (delays : List ℤ) (batch_size : ℕ)
    → SendsAtMost batch_size (DeliveryRunner.process_due delays batch_size)
unfolding DeliveryRunner.process_due
process_due-sends delays batch_size =
    transaction-sends batch_size (DeliveryRunner.process_due_in delays batch_size)
      (process_due_in-sends delays batch_size)
