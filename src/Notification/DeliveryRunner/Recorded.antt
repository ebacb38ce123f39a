-- ===== src/Notification/DeliveryRunner/Recorded.antt =====
-- The attempts that a round of internal/notification/application/service/delivery_runner.go records.
use go_pet_project.Base.{
  ℕ, Option, some, none, List, [], ◌∷◌, ◌+◌, ◌≤◌, ◌≡◌, refl, ◌∙◌, arith, All, update_rows,
  count_rows, inl, inr, Bool-cases, Option-cases,
}
use go_pet_project.Base.Text.{Text, runes}
use go_pet_project.Base.Int.{ℤ, pos, pos_part, ◌+ℤ◌, ◌≤ℤ◌}
use go_pet_project.Errors.{Result, ok, err, Result-cases, telegram_link_not_found}
use go_pet_project.World.{World, Message, tick, chatted}
use go_pet_project.Notification.Domain.{Notification}
use go_pet_project.Notification.Delivery.{NotificationDelivery}
use go_pet_project.Notification.Telegram.{TelegramLink}
use go_pet_project.Notification.Repository.Notifications
use go_pet_project.Notification.Repository.TelegramLinks
use go_pet_project.Notification.Repository.Deliveries
use go_pet_project.Notification.Repository.Deliveries.{has_id, update_delivery}
use go_pet_project.Notification.DeliveryRunner
use go_pet_project.Notification.DeliveryRunner.Attempts.{chatted-tables, query-tables, find-tables}
use go_pet_project.Notification.DeliveryRunner.Sends.{
  sent_count, chatted-sends, find_by_id-sends, find_by_user_id-sends,
}

-- The attempts that are recorded, of all deliveries together; a negative number counts as none.
abbrev pub recorded : List NotificationDelivery → ℕ
recorded [] = 0
recorded (d ∷ ds) = pos_part d.attempts + recorded ds

-- The row of the delivery has the attempts of the delivery.
abbrev pub Matches : NotificationDelivery → List NotificationDelivery → Type 0
Matches d ds = All (λ (r : NotificationDelivery). r.id ≡ d.id → r.attempts ≡ d.attempts) ds

recorded-none :
    (id : ℕ) (change : NotificationDelivery → NotificationDelivery) (ds : List NotificationDelivery)
    → count_rows (has_id id) ds ≡ 0
    → recorded (update_rows (has_id id) change ds) ≡ recorded ds
recorded-none id change [] h = refl
recorded-none id change (d ∷ ds) h = elim (Bool-cases (has_id id d)) [
  | inl this ↦ absurd (ground arith)
  | inr other ↦ rw other (ground (arith, recorded-none id change ds (rw other at h)))
]

recorded-one :
    (d : NotificationDelivery) (change : NotificationDelivery → NotificationDelivery) (a : ℤ)
    (ds : List NotificationDelivery)
    → ((r : NotificationDelivery) → (change r).attempts ≡ a)
    → Matches d ds
    → count_rows (has_id d.id) ds ≡ 1
    → recorded (update_rows (has_id d.id) change ds) + pos_part d.attempts
      ≡ recorded ds + pos_part a
recorded-one d change a [] c m h = absurd (ground arith)
recorded-one d change a (r ∷ rs) c (m, ms) h = elim (Bool-cases (has_id d.id r)) [
  | inl this ↦
      let same : r.attempts ≡ d.attempts = m (ground arith) in
      let none_left : count_rows (has_id d.id) rs ≡ 0 = ground arith in
      rw (this, c r, same) (ground (arith, recorded-none d.id change rs none_left))
  | inr other ↦ rw other (ground (arith, recorded-one d change a rs c ms (rw other at h)))
]

-- The world after has the row of the delivery changed, and an attempt recorded for each message that
-- was sent since.
pub record IsRecorded (d : NotificationDelivery) (w w' : World) : Type 0 where
  pub change : NotificationDelivery → NotificationDelivery
  pub keeps_id : (r : NotificationDelivery) → (change r).id ≡ r.id
  pub rows : w'.tables.deliveries ≡ update_rows (has_id d.id) change w.tables.deliveries
  pub sends :
      sent_count w' + recorded w.tables.deliveries ≤ sent_count w + recorded w'.tables.deliveries

-- What an update that succeeds leaves.
update_delivery-ok :
    (id : ℕ) (change : NotificationDelivery → NotificationDelivery) (w v : World)
    → v.tables ≡ w.tables
    → (update_delivery id change v).0 ≡ ok tt
    → (count_rows (has_id id) w.tables.deliveries ≡ 1)
      × ((update_delivery id change v).1.tables.deliveries
          ≡ update_rows (has_id id) change w.tables.deliveries)
      × ((update_delivery id change v).1.messages ≡ v.messages)
unfolding update_delivery
update_delivery-ok id change w v same h = ground arith

-- The update of the row of a delivery, after at most k messages, by k attempts more.
update-IsRecorded :
    (k : ℕ) (d : NotificationDelivery) (change : NotificationDelivery → NotificationDelivery)
    (a : ℤ) (w v : World)
    → v.tables ≡ w.tables
    → sent_count v ≤ sent_count w + k
    → pos_part a ≡ pos_part d.attempts + k
    → ((r : NotificationDelivery) → (change r).attempts ≡ a)
    → ((r : NotificationDelivery) → (change r).id ≡ r.id)
    → Matches d w.tables.deliveries
    → (update_delivery d.id change v).0 ≡ ok tt
    → IsRecorded d w (update_delivery d.id change v).1
update-IsRecorded k d change a w v same few more sets keeps m h =
    let (one, rows, silent) = update_delivery-ok d.id change w v same h in
    let moved = recorded-one d change a w.tables.deliveries sets m one in
    record {
      change = change;
      keeps_id = keeps;
      rows = rows;
      sends = rw (rows, silent) (ground (arith, few, more, moved));
    }

retry_or_fail-IsRecorded :
    (k : ℕ) (d : NotificationDelivery) (delay : Option ℤ) (a : ℤ) (text : Option Text) (w v : World)
    → v.tables ≡ w.tables
    → sent_count v ≤ sent_count w + k
    → pos_part a ≡ pos_part d.attempts + k
    → Matches d w.tables.deliveries
    → (DeliveryRunner.retry_or_fail delay d.id a text v).0 ≡ ok tt
    → IsRecorded d w (DeliveryRunner.retry_or_fail delay d.id a text v).1
unfolding Deliveries.schedule_retry Deliveries.mark_failed
retry_or_fail-IsRecorded k d (some wait) a none w v same few more m h = absurd (ground arith)
retry_or_fail-IsRecorded k d none a none w v same few more m h = absurd (ground arith)
retry_or_fail-IsRecorded k d (some wait) a (some text) w v same few more m h =
    update-IsRecorded k d _ a w (tick v) same few more (λ r. refl) (λ r. refl) m h
retry_or_fail-IsRecorded k d none a (some text) w v same few more m h =
    update-IsRecorded k d _ a w v same few more (λ r. refl) (λ r. refl) m h

mark_failed-IsRecorded :
    (d : NotificationDelivery) (reason : Text) (w v : World)
    → v.tables ≡ w.tables
    → sent_count v ≤ sent_count w
    → Matches d w.tables.deliveries
    → (DeliveryRunner.mark_failed d reason v).0 ≡ ok tt
    → IsRecorded d w (DeliveryRunner.mark_failed d reason v).1
unfolding DeliveryRunner.mark_failed Deliveries.mark_failed
mark_failed-IsRecorded d reason w v same few m h =
    elim (Option-cases (DeliveryRunner.sanitize_delivery_error reason)) [
      | inl cut ↦ let bad : err _ ≡ ok tt = rw cut at h in absurd (ground arith)
      | inr (text, fits) ↦ rw fits (
          update-IsRecorded 0 d _ d.attempts w v same (ground arith) (ground arith) (λ r. refl)
            (λ r. refl) m (rw fits at h))
    ]

next_part : (a : ℤ) → pos 0 ≤ℤ a → pos_part (a +ℤ pos 1) ≡ pos_part a + 1
unfolding ◌+ℤ◌
next_part a h = ground arith

settle_sending-IsRecorded :
    (delays : List ℤ) (d : NotificationDelivery) (message : Text) (r : Result (Unit {0}))
    (w v : World)
    → v.tables ≡ w.tables
    → sent_count v ≤ sent_count w + 1
    → pos 0 ≤ℤ d.attempts
    → Matches d w.tables.deliveries
    → (DeliveryRunner.settle_sending delays d message r v).0 ≡ ok tt
    → IsRecorded d w (DeliveryRunner.settle_sending delays d message r v).1
unfolding Deliveries.mark_sent DeliveryRunner.handle_send_failure
settle_sending-IsRecorded delays d message (err e) w v same few z m h =
    retry_or_fail-IsRecorded 1 d _ _ _ w v same few (next_part d.attempts z) m h
settle_sending-IsRecorded delays d message (ok _) w v same few z m h =
    update-IsRecorded 1 d _ (d.attempts +ℤ pos 1) w (tick v) same few (next_part d.attempts z)
      (λ r. refl) (λ r. refl) m h

send_over-IsRecorded :
    (delays : List ℤ) (d : NotificationDelivery) (n : Notification) (r : Result TelegramLink)
    (w v : World)
    → v.tables ≡ w.tables
    → sent_count v ≤ sent_count w
    → pos 0 ≤ℤ d.attempts
    → Matches d w.tables.deliveries
    → (DeliveryRunner.send_over delays d n r v).0 ≡ ok tt
    → IsRecorded d w (DeliveryRunner.send_over delays d n r v).1
send_over-IsRecorded delays d n (err telegram_link_not_found) w v same few z m h =
    mark_failed-IsRecorded d (runes "telegram link unavailable") w v same few m h
send_over-IsRecorded delays d n (err e) w v same few z m h = absurd (ground arith)
send_over-IsRecorded delays d n (ok link) w v same few z m h = elim (Bool-cases link.enabled) [
  | inr disabled ↦
      rw disabled (
        mark_failed-IsRecorded d (runes "telegram link disabled") w v same few m (rw disabled at h))
  | inl enabled ↦
      let m' : Message = record { chat_id = link.chat_id; title = n.title; body = n.body } in
      let (one, (r, answered)) = chatted-sends (v.env.chat v.step) m' v in
      let (kept, _) = chatted-tables (v.env.chat v.step) m' v in
      rw (enabled, answered)
        (settle_sending-IsRecorded delays d (v.env.chat_error v.step) r w
          (chatted (v.env.chat v.step) m' v).1 (kept ∙ same) (ground (arith, one)) z m
          (rw (enabled, answered) at h))
]

-- A delivery that is processed without an error.
pub process_delivery-IsRecorded :
    (delays : List ℤ) (d : NotificationDelivery) (w : World)
    → pos 0 ≤ℤ d.attempts
    → Matches d w.tables.deliveries
    → (DeliveryRunner.process_delivery delays d w).0 ≡ ok tt
    → IsRecorded d w (DeliveryRunner.process_delivery delays d w).1
unfolding DeliveryRunner.process_delivery
process_delivery-IsRecorded delays d w z m h =
    let id = d.notification_id in
    let w' = (Notifications.find_by_id id w).1 in
    elim (Result-cases (Notifications.find_by_id id w).0) [
      | inr (e, bad) ↦ let failed : err e ≡ ok tt = rw bad at h in absurd (ground arith)
      | inl (n, found) ↦ rw found (
          send_over-IsRecorded delays d n (TelegramLinks.find_by_user_id n.user_id w').0 w
            (TelegramLinks.find_by_user_id n.user_id w').1
            (find-tables n.user_id w' ∙ query-tables id w)
            (ground (arith, find_by_id-sends id w, find_by_user_id-sends n.user_id w')) z m
            (rw found at h))
    ]
