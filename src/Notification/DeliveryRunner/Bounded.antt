-- ===== src/Notification/DeliveryRunner/Bounded.antt =====
-- What bounds the sending of internal/notification/application/service/delivery_runner.go.
use go_pet_project.Base.{
  ℕ, suc, List, [], ◌∷◌, ◌+◌, ◌≤◌, ◌≡◌, ◌≢◌, ◌⊎◌, arith, All, length, update_rows, inl, inr,
  Bool-cases,
}
use go_pet_project.Base.Int.{ℤ, pos, ◌≤ℤ◌}
use go_pet_project.Base.Distinct.{IsDistinct}
use go_pet_project.Errors.{Error, Result, ok, err, Result-cases, map_rows}
use go_pet_project.World.{World, Action, IsTransactional, tick, for_each, transaction}
use go_pet_project.World.Frames.{transaction-ok, transaction_atomic}
use go_pet_project.Notification.Delivery.{NotificationDelivery}
use go_pet_project.Notification.Repository.Deliveries
use go_pet_project.Notification.Repository.Deliveries.{has_id}
use go_pet_project.Notification.DeliveryRunner
use go_pet_project.Notification.DeliveryRunner.Attempts.{AllWithin}
use go_pet_project.Notification.DeliveryRunner.Rounds.{process_due-AllWithin}
use go_pet_project.Notification.DeliveryRunner.Sends.{sent_count, process_due-sends}
use go_pet_project.Notification.DeliveryRunner.Recorded.{
  recorded, Matches, process_delivery-IsRecorded,
}
use go_pet_project.Notification.DeliveryRunner.Claimed.{id_of, due_rows-IsClaim}

Matches-update :
    (d e : NotificationDelivery) (change : NotificationDelivery → NotificationDelivery)
    (rows : List NotificationDelivery)
    → ((r : NotificationDelivery) → (change r).id ≡ r.id)
    → e.id ≢ d.id
    → Matches e rows
    → Matches e (update_rows (has_id d.id) change rows)
Matches-update d e change [] keeps apart m = tt
Matches-update d e change (r ∷ rs) keeps apart (m, ms) =
    let rest = Matches-update d e change rs keeps apart ms in
    elim (Bool-cases (has_id d.id r)) [
      | inl this ↦ rw this ((λ clash. absurd (ground (arith, keeps r))), rest)
      | inr other ↦ rw other (m, rest)
    ]

AllMatch-update :
    (d : NotificationDelivery) (change : NotificationDelivery → NotificationDelivery)
    (rows ds : List NotificationDelivery)
    → ((r : NotificationDelivery) → (change r).id ≡ r.id)
    → All (λ (e : NotificationDelivery). e.id ≢ d.id) ds
    → All (λ (e : NotificationDelivery). Matches e rows) ds
    → All (λ (e : NotificationDelivery). Matches e (update_rows (has_id d.id) change rows)) ds
AllMatch-update d change rows [] keeps h m = tt
AllMatch-update d change rows (e ∷ es) keeps (h, hs) (m, ms) =
    (Matches-update d e change rows keeps h m, AllMatch-update d change rows es keeps hs ms)

-- The loop of a round that succeeds.
for_each-records :
    (delays : List ℤ) (ds : List NotificationDelivery) (w : World)
    → IsDistinct id_of ds
    → All (λ (d : NotificationDelivery). pos 0 ≤ℤ d.attempts) ds
    → All (λ (d : NotificationDelivery). Matches d w.tables.deliveries) ds
    → (for_each (DeliveryRunner.process_delivery delays) ds w).0 ≡ ok tt
    → (sent_count (for_each (DeliveryRunner.process_delivery delays) ds w).1
        + recorded w.tables.deliveries)
      ≤ (sent_count w
          + recorded (for_each (DeliveryRunner.process_delivery delays) ds w).1.tables.deliveries)
unfolding for_each
for_each-records delays [] w u z m h = ground arith
for_each-records delays (d ∷ ds) w (u, us) (z, zs) (m, ms) h =
    let act = DeliveryRunner.process_delivery delays in
    elim (Result-cases (act d w).0) [
      | inr (e, bad) ↦ let failed : err e ≡ ok tt = rw bad at h in absurd (ground arith)
      | inl (tt, good) ↦
          let step = process_delivery-IsRecorded delays d w z m good in
          let left = AllMatch-update d step.change w.tables.deliveries ds step.keeps_id u ms in
          let rest =
            for_each-records delays ds (act d w).1 us zs (rw step.rows left) (rw good at h) in
          rw good (ground (arith, step.sends, rest))
    ]

process_due_in-records :
    (delays : List ℤ) (batch_size : ℕ) (w : World)
    → IsDistinct id_of w.tables.deliveries
    → (DeliveryRunner.process_due_in delays batch_size w).0 ≡ ok tt
    → (sent_count (DeliveryRunner.process_due_in delays batch_size w).1
        + recorded w.tables.deliveries)
      ≤ (sent_count w
          + recorded (DeliveryRunner.process_due_in delays batch_size w).1.tables.deliveries)
unfolding DeliveryRunner.process_due_in Deliveries.claim_due
process_due_in-records delays batch_size w u h =
    let at = w.env.clock w.step in
    let w1 = tick (tick w) in
    let locked = w.env.locked w1.step in
    let rows = Deliveries.due_rows at batch_size locked w.tables in
    elim (Bool-cases (w.env.statement_fails (suc w.step))) [
      | inl fails ↦ absurd (ground arith)
      | inr works ↦ elim (Result-cases (map_rows Deliveries.to_domain rows)) [
        | inr (_, bad) ↦ absurd (ground arith)
        | inl (due, mapped) ↦
            let claim = due_rows-IsClaim at batch_size locked w.tables u mapped in
            rw (works, mapped)
              (for_each-records delays due w1 claim.distinct claim.counted claim.matched
                (rw (works, mapped) at h))
      ]
    ]

messages-transaction :
    {A : Type 0} (m : Action A) (w : World) {a : A}
    → (transaction m w).0 ≡ ok a
    → (transaction m w).1.messages ≡ (m (tick w)).1.messages
unfolding transaction
messages-transaction m w h = ground arith

-- A round fails, and the tables are as they were, or it has recorded as many attempts more as it has
-- sent messages, or more.
abbrev pub IsAccounted : World → Result (Unit {0}) → World → Type 0
IsAccounted w r w' =
    (((e : Error) × (r ≡ err e)) × (w'.tables ≡ w.tables))
    ⊎ ((r ≡ ok tt)
        × ((length w'.messages + recorded w.tables.deliveries)
            ≤ (length w.messages + recorded w'.tables.deliveries)))

process_due-IsAccounted :
    (delays : List ℤ) (batch_size : ℕ) (w : World)
    → IsTransactional w.env
    → IsDistinct id_of w.tables.deliveries
    → IsAccounted w
        (DeliveryRunner.process_due delays batch_size w).0
        (DeliveryRunner.process_due delays batch_size w).1
unfolding DeliveryRunner.process_due
process_due-IsAccounted delays batch_size w t u =
    let act = DeliveryRunner.process_due_in delays batch_size in
    elim (Result-cases (transaction act w).0) [
      | inr (e, bad) ↦ inl ((e, bad), transaction_atomic act w t bad)
      | inl (tt, good) ↦
          let (ran, kept) = transaction-ok act w good in
          let told = messages-transaction act w good in
          let counted = process_due_in-records delays batch_size (tick w) u ran in
          inr (good, rw (kept, told) counted)
    ]

-- Where the database is transactional and the ids of the deliveries are distinct, a round of the
-- runner sends at most as many messages as its batch is large, however it ends. It keeps it that of
-- no delivery more attempts are recorded than there are delays, and one, and of a pending one at most
-- as many as there are delays. It fails, and leaves the tables as they were, or the attempts that are
-- recorded have grown by at least the number of the messages that it sent.
pub process_due-IsBounded :
    (delays : List ℤ) (batch_size : ℕ) (w : World)
    → IsTransactional w.env
    → IsDistinct id_of w.tables.deliveries
    → AllWithin delays w
    → (length (DeliveryRunner.process_due delays batch_size w).1.messages
        ≤ length w.messages + batch_size)
      × AllWithin delays (DeliveryRunner.process_due delays batch_size w).1
      × IsAccounted w
          (DeliveryRunner.process_due delays batch_size w).0
          (DeliveryRunner.process_due delays batch_size w).1
process_due-IsBounded delays batch_size w t u h = (
  process_due-sends delays batch_size w,
  process_due-AllWithin delays batch_size w t h,
  process_due-IsAccounted delays batch_size w t u,
)
