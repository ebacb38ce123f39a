-- ===== src/Notification/DeliveryRunner/Rounds.antt =====
-- A round of internal/notification/application/service/delivery_runner.go: `ProcessDue`.
use go_pet_project.Base.{
  subst, ℕ, suc, Bool, List, [], ◌∷◌, ◌≡◌, arith, All, select, length, inl, inr, Bool-cases,
}
use go_pet_project.Base.Int.{ℤ, pos, ◌≤ℤ◌}
use go_pet_project.Base.Sort.{order_by}
use go_pet_project.Base.Distinct.{All-take, All-order_by}
use go_pet_project.Time.{Time}
use go_pet_project.Errors.{ok, Result-cases, map_rows}
use go_pet_project.World.{World, Tables, IsTransactional, transaction, tick}
use go_pet_project.World.Frames.{transaction-ok, transaction_atomic}
use go_pet_project.World.Loops.{for_each-keeps_where}
use go_pet_project.Notification.Delivery.{NotificationDelivery, restore_delivery}
use go_pet_project.Notification.Repository.Deliveries
use go_pet_project.Notification.Repository.Deliveries.{
  has_id, update_delivery, sent_row, retried_row, failed_row,
}
use go_pet_project.Notification.DeliveryRunner
use go_pet_project.Notification.DeliveryRunner.Attempts.{
  IsWithin, AllWithin, Keeps, Keeps-order, process_delivery-Keeps,
}

-- A delivery that is due can be attempted once more.
due-fits :
    (delays : List ℤ) (at : Time) (locked : ℕ → Bool) (ds : List NotificationDelivery)
    → All (IsWithin delays) ds
    → All
        (λ (d : NotificationDelivery). d.attempts ≤ℤ pos (length delays))
        (select (Deliveries.is_due at locked) ds)
due-fits delays at locked [] h = tt
due-fits delays at locked (d ∷ ds) ((a, b), hs) =
    elim (Bool-cases (Deliveries.is_due at locked d)) [
      | inl due ↦ rw due (b (ground arith), due-fits delays at locked ds hs)
      | inr other ↦ rw other (due-fits delays at locked ds hs)
    ]

due_rows-fits :
    (delays : List ℤ) (at : Time) (limit : ℕ) (locked : ℕ → Bool) (db : Tables)
    → All (IsWithin delays) db.deliveries
    → All
        (λ (d : NotificationDelivery). d.attempts ≤ℤ pos (length delays))
        (Deliveries.due_rows at limit locked db)
unfolding Deliveries.due_rows
due_rows-fits delays at limit locked db h =
    let P = λ (d : NotificationDelivery). d.attempts ≤ℤ pos (length delays) in
    let due = select (Deliveries.is_due at locked) db.deliveries in
    All-take P limit (order_by Deliveries.due_before due)
      (All-order_by P Deliveries.due_before due (due-fits delays at locked db.deliveries h))

to_domain-attempts :
    (row : NotificationDelivery) {d : NotificationDelivery}
    → Deliveries.to_domain row ≡ ok d
    → d.attempts ≡ row.attempts
unfolding Deliveries.to_domain restore_delivery
to_domain-attempts row h = ground arith

map_rows-fits :
    (n : ℕ) (rows : List NotificationDelivery) {ds : List NotificationDelivery}
    → map_rows Deliveries.to_domain rows ≡ ok ds
    → All (λ (d : NotificationDelivery). d.attempts ≤ℤ pos n) rows
    → All (λ (d : NotificationDelivery). d.attempts ≤ℤ pos n) ds
unfolding map_rows
map_rows-fits n [] {ds = []} h all = tt
map_rows-fits n [] {ds = d ∷ ds} h all = absurd (ground arith)
map_rows-fits n (row ∷ rows) {ds} h (a, all) = elim (Result-cases (Deliveries.to_domain row)) [
  | inr (_, bad) ↦ absurd (ground arith)
  | inl (d, good) ↦ elim (Result-cases (map_rows Deliveries.to_domain rows)) [
    | inr (_, bad) ↦ absurd (ground arith)
    | inl (rest, mapped) ↦
        let same : d ∷ rest ≡ ds = ground arith in
        subst (All (λ (d : NotificationDelivery). d.attempts ≤ℤ pos n)) same
          (ground (arith, to_domain-attempts row good), map_rows-fits n rows mapped all)
  ]
]

round-Keeps :
    (delays : List ℤ) (batch_size : ℕ) (w : World)
    → AllWithin delays w
    → AllWithin delays (DeliveryRunner.process_due_in delays batch_size w).1
unfolding DeliveryRunner.process_due_in Deliveries.claim_due
round-Keeps delays batch_size w h =
    let at = w.env.clock w.step in
    let w1 = tick (tick w) in
    let rows = Deliveries.due_rows at batch_size (w.env.locked w1.step) w.tables in
    elim (Bool-cases (w.env.statement_fails (suc w.step))) [
      | inl fails ↦ rw fails h
      | inr works ↦ elim (Result-cases (map_rows Deliveries.to_domain rows)) [
        | inr (_, bad) ↦ rw (works, bad) h
        | inl (due, mapped) ↦
            rw (works, mapped)
              (for_each-keeps_where (Keeps delays)
                (λ (d : NotificationDelivery). d.attempts ≤ℤ pos (length delays))
                (DeliveryRunner.process_delivery delays) (Keeps-order delays)
                (process_delivery-Keeps delays) due w1
                (map_rows-fits (length delays) rows mapped
                  (due_rows-fits delays at batch_size (w.env.locked w1.step) w.tables h))
                h)
      ]
    ]

-- A round keeps the attempts that are recorded within the bound, however it ends.
pub process_due-AllWithin :
    (delays : List ℤ) (batch_size : ℕ) (w : World)
    → IsTransactional w.env
    → AllWithin delays w
    → AllWithin delays (DeliveryRunner.process_due delays batch_size w).1
unfolding DeliveryRunner.process_due
process_due-AllWithin delays batch_size w t h =
    let act = DeliveryRunner.process_due_in delays batch_size in
    elim (Result-cases (transaction act w).0) [
      | inr (_, bad) ↦ rw (transaction_atomic act w t bad) h
      | inl (tt, good) ↦ rw (transaction-ok act w good).1 (round-Keeps delays batch_size (tick w) h)
    ]
