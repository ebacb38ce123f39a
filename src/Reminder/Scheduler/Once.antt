-- ===== src/Reminder/Scheduler/Once.antt =====
-- Over the polls of the scheduler, each reminder has one request for its notification in the
-- outbox if it is sent, and none before.
use go_pet_project.Base.{
  ℕ, suc, some, Bool, true, false, List, [], ◌∷◌, ◌++◌, ◌≡◌, ◌≢◌, refl, sym, ◌+◌, arith, All,
  select, update_rows, count_rows, ◌==◌, if◌then◌else◌, inl, inr, Bool-cases,
}
use go_pet_project.Base.Int.{ℤ, pos_part}
use go_pet_project.Base.Sort.{order_by}
use go_pet_project.Base.Distinct.{
  IsDistinct, IsDistinct-select, IsDistinct-take, IsDistinct-order_by, All-select, All-take,
  All-order_by,
}
use go_pet_project.Time.{Time}
use go_pet_project.Errors.{ok, Result-cases, map_rows}
use go_pet_project.World.{World, Tables, tick, for_each, IsTransactional, transaction}
use go_pet_project.World.Frames.{transaction-ok, transaction_atomic}
use go_pet_project.Reminder.Domain.{Reminder, sent, is_sent, is_not_positive, restore_reminder}
use go_pet_project.Reminder.Repository.{
  has_id, updated_row, due_rows, is_due, due_before, claim_due, claim_in, when_any, to_domain,
}
use go_pet_project.Outbox.Event.{Event}
use go_pet_project.Reminder.Scheduler.{process, process_once}
use go_pet_project.Reminder.Scheduler.Requests.{process-ok}

-- How many events of the outbox are about the reminder with this id.
abbrev pub requests : List Event → ℕ → ℕ
requests es id = count_rows (λ e. e.aggregate_id == id) es

abbrev pub expected_requests : Reminder → ℕ
expected_requests r = if is_sent r.state then 1 else 0

abbrev pub IsRequestedOnce : List Event → Reminder → Type 0
IsRequestedOnce es r = requests es r.id ≡ expected_requests r

-- Each reminder that is sent has one request, and the others have none.
abbrev pub AllRequestedOnce : Tables → Type 0
AllRequestedOnce db = All (IsRequestedOnce db.outbox_events) db.reminders

-- No reminder with this id has been sent.
abbrev IsOpen : List Reminder → ℕ → Type 0
IsOpen rows id = All (λ r. r.id ≡ id → is_sent r.state ≡ false) rows

requests-append :
    (es : List Event) (e : Event) (id : ℕ)
    → requests (es ++ e ∷ []) id ≡ requests es id + (if e.aggregate_id == id then 1 else 0)
requests-append [] e id = ground arith
requests-append (x ∷ es) e id = ground (arith, requests-append es e id)

requested-once :
    (es : List Event) (e : Event) (u : Reminder) (id : ℕ) (rows : List Reminder)
    → e.aggregate_id ≡ id
    → is_sent u.state ≡ true
    → IsOpen rows id
    → All (IsRequestedOnce es) rows
    → All (IsRequestedOnce (es ++ e ∷ [])) (update_rows (has_id id) (updated_row u) rows)
requested-once es e u id [] a s o h = tt
requested-once es e u id (r ∷ rows) a s (o, os) (h, hs) =
    (ground (arith, requests-append es e r.id), requested-once es e u id rows a s os hs)

update_rows-IsOpen :
    (u : Reminder) (id other : ℕ) (rows : List Reminder)
    → other ≢ id
    → IsOpen rows other
    → IsOpen (update_rows (has_id id) (updated_row u) rows) other
update_rows-IsOpen u id other [] n o = tt
update_rows-IsOpen u id other (r ∷ rows) n (o, os) =
    (ground arith, update_rows-IsOpen u id other rows n os)

All-IsOpen :
    (u : Reminder) (id : ℕ) (rows rs : List Reminder)
    → All (λ (s : Reminder). s.id ≢ id) rs
    → All (λ (s : Reminder). IsOpen rows s.id) rs
    → All (λ (s : Reminder). IsOpen (update_rows (has_id id) (updated_row u) rows) s.id) rs
All-IsOpen u id rows [] n o = tt
All-IsOpen u id rows (s ∷ rs) (n, ns) (o, os) =
    (update_rows-IsOpen u id s.id rows n o, All-IsOpen u id rows rs ns os)

abbrev pub id_of : Reminder → ℕ
id_of r = r.id

for_each-process-once :
    (rs : List Reminder) (w : World)
    → IsDistinct id_of rs
    → All (λ (s : Reminder). IsOpen w.tables.reminders s.id) rs
    → AllRequestedOnce w.tables
    → (for_each process rs w).0 ≡ ok tt
    → AllRequestedOnce (for_each process rs w).1.tables
unfolding for_each
for_each-process-once [] w d o h e = h
for_each-process-once (r ∷ rs) w (d, ds) (o, os) h e = elim (Result-cases (process r w).0) [
  | inr (_, bad) ↦ absurd (ground arith)
  | inl (_, good) ↦
      let (t, event, _, aggregate, _, _, _, db) = process-ok r w good in
      let u = record r { state = sent; sent_at = some (w.env.clock w.step) } in
      rw good (
        for_each-process-once rs (process r w).1 ds
          (rw db (All-IsOpen u r.id w.tables.reminders rs d os))
          (rw db (
            requested-once w.tables.outbox_events event u r.id w.tables.reminders aggregate refl o
              h))
          (ground arith))
]

IsOpen-by_id :
    (id : ℕ) (rows : List Reminder) → All (λ (r : Reminder). r.id ≢ id) rows → IsOpen rows id
IsOpen-by_id id [] n = tt
IsOpen-by_id id (r ∷ rows) (n, ns) = (λ e. absurd (n e), IsOpen-by_id id rows ns)

IsOpen-below :
    (r : Reminder) (rows rs : List Reminder)
    → All (λ (s : Reminder). s.id ≢ r.id) rs
    → All (λ (s : Reminder). IsOpen rows s.id) rs
    → All (λ (s : Reminder). IsOpen (r ∷ rows) s.id) rs
IsOpen-below r rows [] n o = tt
IsOpen-below r rows (s ∷ rs) (n, ns) (o, os) =
    ((λ e. absurd (n (sym e)), o), IsOpen-below r rows rs ns os)

-- What is due is open, where the ids of the table are distinct.
due-IsOpen :
    (at : Time) (locked : ℕ → Bool) (rows : List Reminder)
    → IsDistinct id_of rows
    → All (λ (s : Reminder). IsOpen rows s.id) (select (is_due at locked) rows)
due-IsOpen at locked [] d = tt
due-IsOpen at locked (r ∷ rows) (d, ds) =
    let rest =
      IsOpen-below r rows (select (is_due at locked) rows)
        (All-select (λ (s : Reminder). s.id ≢ r.id) (is_due at locked) rows d)
        (due-IsOpen at locked rows ds) in
    elim (Bool-cases (is_due at locked r)) [
      | inl due ↦ rw due ((λ _. ground arith, IsOpen-by_id r.id rows d), rest)
      | inr other ↦ rw other rest
    ]

to_domain-same : (row : Reminder) {r : Reminder} → to_domain row ≡ ok r → r ≡ row
unfolding to_domain restore_reminder
to_domain-same row h = ground arith

map_rows-same :
    (rows : List Reminder) {rs : List Reminder} → map_rows to_domain rows ≡ ok rs → rs ≡ rows
unfolding map_rows
map_rows-same [] h = ground arith
map_rows-same (row ∷ rows) {rs} h = elim (Result-cases (to_domain row)) [
  | inr (_, bad) ↦ absurd (ground arith)
  | inl (r, good) ↦ elim (Result-cases (map_rows to_domain rows)) [
    | inr (_, bad) ↦ absurd (ground arith)
    | inl (rest, mapped) ↦ ground (arith, to_domain-same row good, map_rows-same rows mapped)
  ]
]

due_rows-IsOpen :
    (at : Time) (limit : ℤ) (locked : ℕ → Bool) (db : Tables)
    → IsDistinct id_of db.reminders
    → IsDistinct id_of (due_rows at limit locked db)
      × All (λ (s : Reminder). IsOpen db.reminders s.id) (due_rows at limit locked db)
unfolding due_rows
due_rows-IsOpen at limit locked db d =
    let P = λ (s : Reminder). IsOpen db.reminders s.id in
    let due = select (is_due at locked) db.reminders in
    let sorted = order_by due_before due in
    (
      IsDistinct-take id_of (pos_part limit) sorted (
          IsDistinct-order_by id_of due_before due
            (IsDistinct-select id_of (is_due at locked) db.reminders d)),
      All-take P (pos_part limit) sorted
          (All-order_by P due_before due (due-IsOpen at locked db.reminders d)),
    )

when_any-for_each :
    (rs : List Reminder) (w : World) → when_any (for_each process) rs w ≡ for_each process rs w
unfolding for_each
when_any-for_each [] w = refl
when_any-for_each (r ∷ rs) w = refl

claim_in-once :
    (at : Time) (limit : ℤ) (w : World) {n : ℕ}
    → IsDistinct id_of w.tables.reminders
    → AllRequestedOnce w.tables
    → (claim_in at limit (for_each process) w).0 ≡ ok n
    → AllRequestedOnce (claim_in at limit (for_each process) w).1.tables
claim_in-once at limit w d h e =
    let rows = due_rows at limit (w.env.locked (suc w.step)) w.tables in
    let (distinct, opened) = due_rows-IsOpen at limit (w.env.locked (suc w.step)) w.tables d in
    elim (Bool-cases (w.env.statement_fails w.step)) [
      | inl fails ↦ absurd (ground arith)
      | inr works ↦ elim (Result-cases (map_rows to_domain rows)) [
        | inr (_, bad) ↦ absurd (ground arith)
        | inl (due, mapped) ↦ elim (Result-cases (for_each process rows (tick w)).0) [
          | inr (_, bad) ↦
              absurd (ground (arith, map_rows-same rows mapped, when_any-for_each rows (tick w)))
          | inl (_, good) ↦
              rw (works, mapped, map_rows-same rows mapped, when_any-for_each rows (tick w), good)
                (for_each-process-once rows (tick w) distinct opened h good)
        ]
      ]
    ]

-- A poll of the scheduler keeps it that each reminder has been requested once if it is sent and
-- never before, also where it fails. The ids of the reminders are the primary key of their table.
pub process_once-AllRequestedOnce :
    (batch_size : ℤ) (w : World)
    → IsTransactional w.env
    → IsDistinct id_of w.tables.reminders
    → AllRequestedOnce w.tables
    → AllRequestedOnce (process_once batch_size w).1.tables
unfolding process_once claim_due
process_once-AllRequestedOnce batch_size w t d h =
    let act = claim_in (w.env.clock w.step) batch_size (for_each process) in
    elim (Bool-cases (is_not_positive batch_size)) [
      | inl none_asked ↦ rw none_asked h
      | inr asked ↦ elim (Result-cases (transaction act (tick w)).0) [
        | inr (_, bad) ↦ rw (asked, transaction_atomic act (tick w) t bad) h
        | inl (_, good) ↦
            let (inner, kept) = transaction-ok act (tick w) good in
            rw (asked, kept)
              (claim_in-once (w.env.clock w.step) batch_size (tick (tick w)) d h inner)
      ]
    ]
