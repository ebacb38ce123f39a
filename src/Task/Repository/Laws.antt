-- ===== src/Task/Repository/Laws.antt =====
-- What the queries and the updates of the table tasks do.
use go_pet_project.Base.{
  ℕ, ◌≡◌, arith, some, find, update_rows, Option-cases, Bool-cases, ◌==◌, suc, inl, inr, List, [],
  ◌∷◌, ◌++◌,
}
use go_pet_project.Errors.{ok}
use go_pet_project.World.{World, tick}
use go_pet_project.Task.Domain.{Task, restore_task}
use go_pet_project.Task.Invariant.{IsWellFormed, restore_task-ok_iff, restore_task_self}
use go_pet_project.Task.Repository.{
  has_id, updated_row, to_domain, find_by_id, create, update, to_model,
}

-- A query changes nothing.
pub find_by_id-tick : (id : ℕ) (w : World) → (find_by_id id w).1 ≡ tick w
unfolding find_by_id
find_by_id-tick id w = ground arith

-- A task that is found is a row of the table, restored.
pub find_by_id-row :
    (id : ℕ) (w : World) {t : Task}
    → (find_by_id id w).0 ≡ ok t
    → (row : Task) × (find (has_id id) w.tables.tasks ≡ some row) × (to_domain row ≡ ok t)
unfolding find_by_id
find_by_id-row id w h = elim (Option-cases (find (has_id id) w.tables.tasks)) [
  | inl missing ↦ absurd (ground arith)
  | inr (row, e) ↦ (row, e, ground arith)
]

-- An update that succeeds has rewritten the row of the task, and nothing else.
pub update-tables :
    (t : Task) (w : World) {u : Task}
    → (update t w).0 ≡ ok u
    → (update t w).1.tables
      ≡ record (w.tables) { tasks = update_rows (has_id t.id) (updated_row t) w.tables.tasks }
unfolding update to_model find_by_id
update-tables t w h = ground arith

find_has_id :
    (id : ℕ) (rows : List Task) {row : Task} → find (has_id id) rows ≡ some row → row.id ≡ id
find_has_id id [] h = cc
find_has_id id (r ∷ rows) {row} h = ground (arith, find_has_id id rows {row = row})

to_domain-restore : (row : Task) {t : Task} → to_domain row ≡ ok t → restore_task row ≡ ok t
unfolding to_domain
to_domain-restore row h = ground arith

-- A task that is found has the id that was asked for, and is well formed.
pub find_by_id-ok :
    (id : ℕ) (w : World) {t : Task} → (find_by_id id w).0 ≡ ok t → (t.id ≡ id) × IsWellFormed t
find_by_id-ok id w {t} h =
    let (row, found, restored) = find_by_id-row id w h in
    let restoring = to_domain-restore row restored in
    let (e, wf) = (restore_task-ok_iff row t).0 restoring in
    (rw e (find_has_id id w.tables.tasks found), wf)

pub to_domain_self : (t : Task) → IsWellFormed t → to_domain t ≡ ok t
unfolding to_domain
to_domain_self t wf = ground (arith, restore_task_self t wf)

-- A well-formed task that is created is one more row at the end of the table, and is returned.
pub create-appends :
    (t : Task) (w : World) {u : Task}
    → IsWellFormed t
    → (create t w).0 ≡ ok u
    → (u ≡ t) × ((create t w).1.tables ≡ record (w.tables) { tasks = w.tables.tasks ++ t ∷ [] })
unfolding create to_model
create-appends t w wf h = ground (arith, to_domain_self t wf)

find-update_rows :
    (t : Task) (id : ℕ) (rows : List Task) {row' : Task}
    → find (has_id id) (update_rows (has_id id) (updated_row t) rows) ≡ some row'
    → (row : Task) × (find (has_id id) rows ≡ some row) × (row' ≡ updated_row t row)
find-update_rows t id [] h = absurd (cc)
find-update_rows t id (r ∷ rows) h = elim (Bool-cases (r.id == id)) [
  | inl same ↦ (r, ground arith, ground arith)
  | inr other ↦
      let (row, found, e) = find-update_rows t id rows (ground arith) in (row, ground arith, e)
]

-- An update that succeeds returns the task as it was written, with the deadline and the assignee
-- that it was given.
pub update-returns :
    (t : Task) (w : World) {u : Task}
    → (update t w).0 ≡ ok u
    → (u.id ≡ t.id) × (u.deadline_at ≡ t.deadline_at) × (u.assignee_id ≡ t.assignee_id)
unfolding update to_model
update-returns t w {u} h =
    let after = record (w.tables) {
      tasks = update_rows (has_id t.id) (updated_row t) w.tables.tasks;
    } in
    let w' = record w { tables = after; step = suc w.step } in
    let read : (find_by_id t.id w').0 ≡ ok u = ground arith in
    let (row', found, restored) = find_by_id-row t.id w' read in
    let (row, old, e) = find-update_rows t t.id w.tables.tasks found in
    let (e', wf) = (restore_task-ok_iff row' u).0 (to_domain-restore row' restored) in
    let (same_id, _) = find_by_id-ok t.id w' read in (same_id, ground arith, ground arith)
