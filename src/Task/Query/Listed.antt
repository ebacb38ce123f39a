-- ===== src/Task/Query/Listed.antt =====
-- What a list of tasks holds, and in which order.
use go_pet_project.Base.{
  Bool, true, false, not, ◌&&◌, Option, none, some, List, [], ◌∷◌, ◌≡◌, refl, ◌∙◌, arith, All,
  select, count_rows, inl, inr, Bool-cases, if◌then◌else◌,
}
use go_pet_project.Base.Int.{ltb_ℤ}
use go_pet_project.Base.Sort.{order_by}
use go_pet_project.Base.Sorted.{IsSorted, IsSorted-order_by, count_rows-order_by, count_rows-select}
use go_pet_project.Base.Distinct.{All-order_by, All-select}
use go_pet_project.Time.{Time}
use go_pet_project.Errors.{ok, err, map_rows, invalid_task_filter, database}
use go_pet_project.World.{World, Environment}
use go_pet_project.Task.Domain.{Task, is_overdue}
use go_pet_project.Task.Invariant.{IsWellFormed}
use go_pet_project.Task.Repository.{to_domain}
use go_pet_project.Task.Repository.Laws.{to_domain_self}
use go_pet_project.Task.Query.{
  TaskSort, TaskFilter, fits, fits_overdue, listed_before, by_time, by_deadline, is_invalid, list,
  created_at_desc, created_at_asc, deadline_at_asc, deadline_at_desc,
}

-- The clause of the filter on overdue tasks says what `Task.IsOverdue` says.
pub fits_overdue-is_overdue :
    (b : Bool) (now : Time) (t : Task)
    → fits_overdue (some b) (some now) t ≡ (if b then is_overdue now t else not (is_overdue now t))
unfolding is_overdue
fits_overdue-is_overdue true now t = ground arith
fits_overdue-is_overdue false now t = ground arith

listed_before_total :
    (sort : TaskSort) (t u : Task) → listed_before sort t u ≡ false → listed_before sort u t ≡ true
listed_before_total created_at_desc t u h = ground arith
listed_before_total created_at_asc t u h = ground arith
listed_before_total deadline_at_asc t u h = ground arith
listed_before_total deadline_at_desc t u h = ground arith
listed_before_total (TaskSort.other n) t u h = ground arith

by_later_trans :
    (a b c : Time) (t u v : Task)
    → by_time (λ x y. ltb_ℤ y x) a b t u ≡ true
    → by_time (λ x y. ltb_ℤ y x) b c u v ≡ true
    → by_time (λ x y. ltb_ℤ y x) a c t v ≡ true
by_later_trans a b c t u v h k = ground arith

by_earlier_trans :
    (a b c : Time) (t u v : Task)
    → by_time ltb_ℤ a b t u ≡ true
    → by_time ltb_ℤ b c u v ≡ true
    → by_time ltb_ℤ a c t v ≡ true
by_earlier_trans a b c t u v h k = ground arith

module _ (earlier : Time → Time → Bool) (t u v : Task) where
  by_deadline_trans :
      ((a b c : Time)
        → by_time earlier a b t u ≡ true
        → by_time earlier b c u v ≡ true
        → by_time earlier a c t v ≡ true)
      → (a b c : Option Time) → by_deadline earlier a b t u ≡ true
      → by_deadline earlier b c u v ≡ true
      → by_deadline earlier a c t v ≡ true
  by_deadline_trans trans (some a) (some b) (some c) h k = trans a b c h k
  by_deadline_trans trans (some a) b none h k = refl
  by_deadline_trans trans (some a) none (some c) h k = cc
  by_deadline_trans trans none (some b) c h k = cc
  by_deadline_trans trans none none (some c) h k = cc
  by_deadline_trans trans none none none h k = ground arith

listed_before_trans :
    (sort : TaskSort) (t u v : Task)
    → listed_before sort t u ≡ true
    → listed_before sort u v ≡ true
    → listed_before sort t v ≡ true
listed_before_trans created_at_desc t u v h k =
    by_later_trans t.created_at u.created_at v.created_at t u v h k
listed_before_trans created_at_asc t u v h k =
    by_earlier_trans t.created_at u.created_at v.created_at t u v h k
listed_before_trans deadline_at_asc t u v h k =
    by_deadline_trans ltb_ℤ t u v (λ a b c. by_earlier_trans a b c t u v) t.deadline_at
      u.deadline_at v.deadline_at h k
listed_before_trans deadline_at_desc t u v h k =
    by_deadline_trans (λ x y. ltb_ℤ y x) t u v (λ a b c. by_later_trans a b c t u v) t.deadline_at
      u.deadline_at v.deadline_at h k
listed_before_trans (TaskSort.other n) t u v h k =
    by_later_trans t.created_at u.created_at v.created_at t u v h k

map_rows_self : (rows : List Task) → All IsWellFormed rows → map_rows to_domain rows ≡ ok rows
unfolding map_rows
map_rows_self [] h = refl
map_rows_self (t ∷ ts) (h, hs) = rw (to_domain_self t h, map_rows_self ts hs) refl

-- The rows that pass the filter, each as often as it stands in the table, in the order asked for.
abbrev pub IsListed : Environment → TaskFilter → List Task → List Task → Type 0
IsListed env f rows ts =
    IsSorted (listed_before f.sort) ts
    × ((p : Task → Bool) → count_rows p ts ≡ count_rows (λ t. fits env f t && p t) rows)

-- The rows that `found_rows` maps.
abbrev found : TaskFilter → World → List Task
found f w = order_by (listed_before f.sort) (select (fits w.env f) w.tables.tasks)

list-ok :
    (f : TaskFilter) (w : World) {ts : List Task}
    → map_rows to_domain (found f w) ≡ ok (found f w)
    → (list f w).0 ≡ ok ts
    → (is_invalid f ≡ false) × (ts ≡ found f w) × ((list f w).1.tables ≡ w.tables)
unfolding list
list-ok f w {ts} mapped h = elim (Bool-cases (is_invalid f)) [
  | inl bad ↦ let broken : err invalid_task_filter ≡ ok ts = rw bad at h in cc
  | inr good ↦ elim (Bool-cases (w.env.statement_fails w.step)) [
    | inl down ↦ let broken : err database ≡ ok ts = rw (good, down) at h in cc
    | inr up ↦
        let done : ok (found f w) ≡ ok ts = rw (good, up, mapped) at h in
        (good, cc, rw (good, up) refl)
  ]
]

-- A query on well-formed rows that succeeds has a valid filter; the answer is the rows that pass it,
-- all of them, in the order asked for, and the tables stay as they are.
pub list-IsListed :
    (f : TaskFilter) (w : World) {ts : List Task}
    → All IsWellFormed w.tables.tasks
    → (list f w).0 ≡ ok ts
    → (is_invalid f ≡ false) × IsListed w.env f w.tables.tasks ts × ((list f w).1.tables ≡ w.tables)
list-IsListed f w {ts} wf h =
    let before = listed_before f.sort in
    let rows = select (fits w.env f) w.tables.tasks in
    let mapped = map_rows_self (order_by before rows) (
      All-order_by IsWellFormed before rows
        (All-select IsWellFormed (fits w.env f) w.tables.tasks wf)) in
    let (valid, e, same) = list-ok f w mapped h in
    (
      valid,
      rw e (
        IsSorted-order_by before (listed_before_total f.sort) (listed_before_trans f.sort) rows,
        λ p. count_rows-order_by before p rows ∙ count_rows-select p (fits w.env f) w.tables.tasks,
      ),
      same,
    )
