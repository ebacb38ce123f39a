-- ===== src/Recurrence/Processor/Polls.antt =====
-- A poll of internal/recurrence/adapter/in/scheduler/runner.go generates the occurrences of the series
-- that are due, and no occurrence is generated twice.
use go_pet_project.Base.{
  ℕ, suc, Bool, true, List, [], ◌∷◌, ◌++◌, ◌≡◌, ◌≢◌, refl, sym, ap, ◌∙◌, arith, find, select,
  is_some, All, All2, inl, inr, length, subst, Bool-cases, ◌⊎◌,
}
use mathlib.Core.List.{append_assoc, append-nil}
use go_pet_project.Base.Int.{ℤ, pos, pos_part, leb_ℤ, ◌≤ℤ◌}
use go_pet_project.Base.Distinct.{All-select_self, All-take, All-order_by}
use go_pet_project.Base.Sorted.{All-map}
use go_pet_project.Time.{Time}
use go_pet_project.Errors.{Error, ok, err, Result-cases, map_rows}
use go_pet_project.World.{World, Tables, tick, for_each, transaction, IsTransactional}
use go_pet_project.World.Frames.{transaction-ok, transaction_atomic}
use go_pet_project.Task.Domain.{Task}
use go_pet_project.Task.Repository.{conflicts}
use go_pet_project.Recurrence.Domain.{Zones, TaskSeries, restore_task_series}
use go_pet_project.Recurrence.Repository.{
  to_domain, due_rows, due_before, is_due, claim_due, claim_in, when_any,
}
use go_pet_project.Recurrence.Processor.{process_one, process_due, process_once}
use go_pet_project.Recurrence.Processor.Occurrences.{IsOccurrence}
use go_pet_project.Recurrence.Processor.Processed.{process_one-IsProcessed}

to_domain-same :
    (zones : Zones) (row : TaskSeries) {s : TaskSeries} → to_domain zones row ≡ ok s → s ≡ row
unfolding to_domain restore_task_series
to_domain-same zones row h = ground arith

map_rows-same :
    (zones : Zones) (rows : List TaskSeries) {ss : List TaskSeries}
    → map_rows (to_domain zones) rows ≡ ok ss
    → ss ≡ rows
unfolding map_rows
map_rows-same zones [] h = ground arith
map_rows-same zones (row ∷ rows) {ss} h = elim (Result-cases (to_domain zones row)) [
  | inr (e, bad) ↦ absurd (ground arith)
  | inl (s, good) ↦ elim (Result-cases (map_rows (to_domain zones) rows)) [
    | inr (e, bad) ↦ absurd (ground arith)
    | inl (rest, mapped) ↦
        ground (arith, to_domain-same zones row good, map_rows-same zones rows mapped)
  ]
]

when_any-for_each :
    (ss : List TaskSeries) (w : World)
    → when_any (for_each process_one) ss w ≡ for_each process_one ss w
unfolding for_each
when_any-for_each [] w = refl
when_any-for_each (s ∷ ss) w = refl

-- One task for each series, in their order, at the end of the table.
process_each :
    (ss : List TaskSeries) (w : World)
    → (for_each process_one ss w).0 ≡ ok tt
    → (ts : List Task) × All2 IsOccurrence ss ts
      × ((for_each process_one ss w).1.tables.tasks ≡ w.tables.tasks ++ ts)
unfolding for_each
process_each [] w h = ([], tt, sym (append-nil w.tables.tasks))
process_each (s ∷ ss) w h = elim (Result-cases (process_one s w).0) [
  | inr (e, bad) ↦ absurd (ground arith)
  | inl (_, good) ↦
      let w' = (process_one s w).1 in
      let (t, rs, u, is, _, _, _, _, rows) = process_one-IsProcessed s w good in
      let (ts, are, tasks) = process_each ss w' (rw good at h) in
      (
        t ∷ ts,
        (is, are),
        rw good (tasks ∙ ap (λ db. db.tasks ++ ts) rows ∙ append_assoc w.tables.tasks (t ∷ []) ts),
      )
]

same_occurrence-conflicts :
    (s again : TaskSeries) (t t' : Task)
    → IsOccurrence s t
    → IsOccurrence again t'
    → again.id ≡ s.id
    → again.next_deadline_at ≡ s.next_deadline_at
    → conflicts t' t ≡ true
same_occurrence-conflicts s again t t' is is' same_id same_deadline =
    rw (is.0, is.1, is'.0, is'.1, same_id, same_deadline) (ground arith)

find_among :
    (p : Task → Bool) (before : List Task) (t : Task) (after : List Task)
    → p t ≡ true
    → is_some (find p (before ++ t ∷ after)) ≡ true
find_among p [] t after h = rw h refl
find_among p (x ∷ before) t after h = elim (Bool-cases (p x)) [
  | inl hit ↦ rw hit refl
  | inr miss ↦ rw miss (find_among p before t after h)
]

-- What is due by then.
abbrev IsDueBy : Time → TaskSeries → Type 0
IsDueBy at s = (s.is_active ≡ true) × (s.next_deadline_at ≤ℤ at)

due_rows-IsDueBy :
    (at : Time) (limit : ℤ) (locked : ℕ → Bool) (db : Tables)
    → All (IsDueBy at) (due_rows at limit locked db)
unfolding due_rows
due_rows-IsDueBy at limit locked db =
    let selected = All-select_self (is_due at locked) db.task_series in
    let by =
      All-map (λ s. is_due at locked s ≡ true) (IsDueBy at)
        (select (is_due at locked) db.task_series) (λ s h. ground arith) selected in
    All-take (IsDueBy at) (pos_part limit) _ (All-order_by (IsDueBy at) due_before _ by)

claim_in-generates :
    (at : Time) (limit : ℤ) (w : World) {n : ℕ}
    → (claim_in at limit (for_each process_one) w).0 ≡ ok n
    → (let due = due_rows at limit (w.env.locked (suc w.step)) w.tables in
        (ts : List Task) × All2 IsOccurrence due ts
        × (n ≡ length due)
        × ((claim_in at limit (for_each process_one) w).1.tables.tasks ≡ w.tables.tasks ++ ts))
claim_in-generates at limit w {n} h =
    let rows = due_rows at limit (w.env.locked (suc w.step)) w.tables in
    elim (Bool-cases (w.env.statement_fails w.step)) [
      | inl down ↦ absurd (ground arith)
      | inr up ↦ elim (Result-cases (map_rows (to_domain w.env.zones) rows)) [
        | inr (e, bad) ↦ absurd (ground arith)
        | inl (due, good) ↦
            let same = map_rows-same w.env.zones rows good in
            elim (Result-cases (for_each process_one due (tick w)).0) [
              | inr (e, bad) ↦ absurd (ground (arith, when_any-for_each due (tick w)))
              | inl (_, done) ↦
                  let (ts, are, tasks) = process_each due (tick w) done in
                  let counted : n ≡ length due = ground (arith, when_any-for_each due (tick w)) in
                  (
                    ts,
                    subst (λ ss. All2 IsOccurrence ss ts) same are,
                    counted ∙ ap length same,
                    rw (up, good, when_any-for_each due (tick w), done) tasks,
                  )
            ]
      ]
    ]

-- The series that a poll claims.
abbrev pub claimed : ℤ → World → List TaskSeries
claimed batch_size w =
    due_rows (w.env.clock w.step) batch_size (w.env.locked (suc (suc (suc w.step)))) w.tables

-- A poll that succeeds has added one task for each series that it has claimed, in their order, of the
-- deadline that the series had, and answers their number. Each of these series is active, and its
-- deadline is not after the time of the poll: a task is generated when it is due, and not before. A
-- poll that fails leaves the tables as they were, where the database is transactional.
pub process_once-generates :
    (batch_size : ℤ) (w : World)
    → IsTransactional w.env
    → ((n : ℕ) × (ts : List Task) × ((process_once batch_size w).0 ≡ ok n)
        × All2 IsOccurrence (claimed batch_size w) ts
        × All
            (λ s. (s.is_active ≡ true) × (s.next_deadline_at ≤ℤ w.env.clock w.step))
            (claimed batch_size w)
        × (n ≡ length (claimed batch_size w))
        × ((process_once batch_size w).1.tables.tasks ≡ w.tables.tasks ++ ts))
      ⊎ ((e : Error) × ((process_once batch_size w).0 ≡ err e)
          × ((process_once batch_size w).1.tables ≡ w.tables))
unfolding process_once process_due claim_due
process_once-generates batch_size w t =
    let at = w.env.clock w.step in
    let act = claim_in at batch_size (for_each process_one) in
    elim (Bool-cases (leb_ℤ batch_size (pos 0))) [
      | inl none_asked ↦ rw none_asked (inr (_, refl, refl))
      | inr asked ↦ elim (Result-cases (transaction act (tick w)).0) [
        | inr (e, bad) ↦
            let kept = transaction_atomic act (tick w) t bad in
            rw (asked, bad, kept) (inr (e, refl, refl))
        | inl (n, good) ↦
            let (inner, kept) = transaction-ok act (tick w) good in
            let (ts, are, counted, tasks) =
              claim_in-generates at batch_size (tick (tick w)) inner in
            let due =
              due_rows-IsDueBy at batch_size (w.env.locked (suc (suc (suc w.step)))) w.tables in
            rw (asked, good, kept) (inl (n, ts, refl, are, due, counted, tasks))
      ]
    ]

-- An occurrence of a series at a deadline is generated once: after a series was processed, a series
-- with its id and the deadline that it had is not, whatever tasks have been added since.
pub process_one_once :
    (s again : TaskSeries) (w v : World) (more : List Task)
    → (process_one s w).0 ≡ ok tt
    → again.id ≡ s.id
    → again.next_deadline_at ≡ s.next_deadline_at
    → v.tables.tasks ≡ (process_one s w).1.tables.tasks ++ more
    → (process_one again v).0 ≢ ok tt
process_one_once s again w v more h same_id same_deadline tasks second =
    let (t, _, _, is, _, _, _, _, rows) = process_one-IsProcessed s w h in
    let (t', _, _, is', free, _, _, _, _) = process_one-IsProcessed again v second in
    let there : v.tables.tasks ≡ w.tables.tasks ++ t ∷ more =
      tasks ∙ ap (λ db. db.tasks ++ more) rows ∙ append_assoc w.tables.tasks (t ∷ []) more in
    let clash : conflicts t' t ≡ true =
      same_occurrence-conflicts s again t t' is is' same_id same_deadline in
    let found = find_among (conflicts t') w.tables.tasks t more clash in absurd (ground arith)
