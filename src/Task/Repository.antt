-- ===== src/Task/Repository.antt =====
-- internal/task/adapter/out/postgres: mapper.go and repository.go without `List`. A row of the
-- table tasks is the task with its status as a text.
pub mod Laws
use go_pet_project.Base.{
  ℕ, Bool, true, false, not, ◌&&◌, ◌||◌, Option, none, some, List, [], ◌∷◌, ◌++◌, ◌==◌,
  if◌then◌else◌, find, update_rows, count_rows, is_some,
}
use go_pet_project.Base.Int.{eqb_ℤ}
use go_pet_project.Time.{Time, equal}
use go_pet_project.Errors.{Result, ok, err, invalid_status, task_not_found, database}
use go_pet_project.World.{
  Action, Tables, ◌>>=◌, ◌>>◌, pure, raise, lift, gets, or_raise, modify, refuse_when, statement,
}
use go_pet_project.Task.Status.{is_valid}
use go_pet_project.Task.Domain.{Task, restore_task}

abbrev pub has_id : ℕ → Task → Bool
has_id id t = t.id == id

-- `toModel` and `toDomain`
unfoldable pub to_model : Task → Result Task
to_model t = if not (is_valid t.status) then err invalid_status else ok t

unfoldable pub to_domain : Task → Result Task
to_domain row = if not (is_valid row.status) then err invalid_status else restore_task row

abbrev both : {A : Type 0} → (A → A → Bool) → Option A → Option A → Bool
both same (some a) (some b) = same a b
both same _ _ = false

-- The unique indexes of the table: the primary key, and (series_id, deadline_at) where there is a
-- series. A null column equals nothing.
abbrev pub conflicts : Task → Task → Bool
conflicts t u =
    t.id == u.id
    || (both (λ a b. a == b) t.series_id u.series_id && both equal t.deadline_at u.deadline_at)

unfoldable pub create : Task → Action Task
create t = do
  model ← lift (to_model t)
  statement
  taken ← gets (λ db. is_some (find (conflicts model) db.tasks))
  refuse_when taken database
  modify (λ db. record db { tasks = db.tasks ++ model ∷ [] })
  lift (to_domain model)

unfoldable pub find_by_id : ℕ → Action Task
find_by_id id = do
  statement
  found ← gets (λ db. find (has_id id) db.tasks)
  row ← or_raise found task_not_found
  lift (to_domain row)

-- The columns that the UPDATE sets.
abbrev pub updated_row : Task → Task → Task
updated_row model row = record row {
  series_id = model.series_id;
  assignee_id = model.assignee_id;
  title = model.title;
  description = model.description;
  status = model.status;
  deadline_at = model.deadline_at;
  updated_at = model.updated_at;
  completed_at = model.completed_at;
  archived_at = model.archived_at;
}

unfoldable pub update : Task → Action Task
update t = do
  model ← lift (to_model t)
  statement
  affected ← gets (λ db. count_rows (has_id model.id) db.tasks)
  modify (λ db. record db { tasks = update_rows (has_id model.id) (updated_row model) db.tasks })
  refuse_when (not (affected == 1)) task_not_found
  find_by_id model.id
