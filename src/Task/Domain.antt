-- ===== src/Task/Domain.antt =====
-- internal/task/domain/task.go. A method that changes its receiver returns the new task, or the
-- error, on which the Go code leaves the receiver alone. Pointers are options; the `clone` helpers
-- copy what they point to and change no value.
use go_pet_project.Base.{
  ℕ, Bool, false, not, ◌&&◌, Option, none, some, if◌then◌else◌, ◌==◌, is_some,
}
use go_pet_project.Base.Text.{Text, is_blank}
use go_pet_project.Time.{Time, is_zero, before}
use go_pet_project.Errors.{
  Result, ok, err, refuse_if, ◌>>◌, invalid_task_id, invalid_series_id, invalid_creator_id,
  invalid_assignee_id, invalid_title, invalid_status, invalid_status_transition, invalid_timestamp,
}
use go_pet_project.Task.Status.{Status, initial_status, is_valid, is_completed, can_transition_to}

-- A `uuid.UUID` is only compared, so it is a number; `uuid.Nil` is 0.
pub record Task : Type 0 where
  pub id : ℕ
  pub series_id : Option ℕ
  pub creator_id : ℕ
  pub assignee_id : ℕ
  pub title : Text
  pub description : Text
  pub status : Status
  pub deadline_at : Option Time
  pub created_at : Time
  pub updated_at : Time
  pub completed_at : Option Time
  pub archived_at : Option Time

abbrev pub nil_uuid : ℕ
nil_uuid = 0

-- `p != nil && *p == uuid.Nil`
abbrev pub points_to_nil : Option ℕ → Bool
points_to_nil none = false
points_to_nil (some id) = id == nil_uuid

unfoldable pub validate_title : Text → Result (Unit {0})
validate_title title = refuse_if (is_blank title) invalid_title

unfoldable pub validate_updated_at : Time → Time → Time → Result (Unit {0})
validate_updated_at created current next = do
  refuse_if (is_zero next) invalid_timestamp
  refuse_if (before next created) invalid_timestamp
  refuse_if (before next current) invalid_timestamp

-- The completion time that `RestoreTask` stores.
abbrev pub completion : Status → Option Time → Time → Option Time
completion status none updated = if is_completed status then some updated else none
completion status (some t) updated = some t

-- The arguments are the fields of the task to be.
unfoldable pub restore_task : Task → Result Task
unfolding validate_title validate_updated_at
restore_task t = do
  refuse_if (t.id == nil_uuid) invalid_task_id
  refuse_if (points_to_nil t.series_id) invalid_series_id
  refuse_if (t.creator_id == nil_uuid) invalid_creator_id
  refuse_if (t.assignee_id == nil_uuid) invalid_assignee_id
  validate_title t.title
  refuse_if (not (is_valid t.status)) invalid_status
  refuse_if (is_zero t.created_at) invalid_timestamp
  validate_updated_at t.created_at t.created_at t.updated_at
  let completed = completion t.status t.completed_at t.updated_at
  refuse_if (not (is_completed t.status) && is_some completed) invalid_status
  ok (record t { completed_at = completed })

-- `id` is the value of `uuid.New()`.
unfoldable pub new_task : ℕ → ℕ → ℕ → Text → Text → Option Time → Time → Result Task
unfolding restore_task
new_task id creator assignee title description deadline now = restore_task (record {
  id = id;
  series_id = none;
  creator_id = creator;
  assignee_id = if assignee == nil_uuid then creator else assignee;
  title = title;
  description = description;
  status = initial_status;
  deadline_at = deadline;
  created_at = now;
  updated_at = now;
  completed_at = none;
  archived_at = none;
})

unfoldable pub new_task_occurrence : ℕ → ℕ → ℕ → ℕ → Text → Text → Time → Time → Result Task
unfolding restore_task
new_task_occurrence id series creator assignee title description deadline now =
    restore_task (record {
      id = id;
      series_id = some series;
      creator_id = creator;
      assignee_id = assignee;
      title = title;
      description = description;
      status = initial_status;
      deadline_at = some deadline;
      created_at = now;
      updated_at = now;
      completed_at = none;
      archived_at = none;
    })

abbrev pub validate_mutation_time : Task → Time → Result (Unit {0})
validate_mutation_time t now = validate_updated_at t.created_at t.updated_at now

unfoldable pub change_status : Status → Time → Task → Result Task
unfolding validate_updated_at
change_status next now t = do
  refuse_if (not (is_valid next)) invalid_status
  refuse_if (not (can_transition_to t.status next)) invalid_status_transition
  validate_mutation_time t now
  ok (record t {
    status = next;
    updated_at = now;
    completed_at = if is_completed next then some now else t.completed_at;
  })

unfoldable pub update_title : Text → Time → Task → Result Task
unfolding validate_title validate_updated_at
update_title title now t = do
  validate_title title
  validate_mutation_time t now
  ok (record t { title = title; updated_at = now })

unfoldable pub update_description : Text → Time → Task → Result Task
unfolding validate_updated_at
update_description description now t = do
  validate_mutation_time t now
  ok (record t { description = description; updated_at = now })

unfoldable pub update_deadline : Option Time → Time → Task → Result Task
unfolding validate_updated_at
update_deadline deadline now t = do
  validate_mutation_time t now
  ok (record t { deadline_at = deadline; updated_at = now })

unfoldable pub reassign : ℕ → Time → Task → Result Task
unfolding validate_updated_at
reassign assignee now t =
    if assignee == nil_uuid
    then err invalid_assignee_id
    else if assignee == t.assignee_id
    then ok t
    else do validate_mutation_time t now; ok (record t { assignee_id = assignee; updated_at = now })

unfoldable pub archive : Time → Task → Result Task
unfolding validate_updated_at
archive now t =
    if is_some t.archived_at
    then ok t
    else do validate_mutation_time t now; ok (record t { archived_at = some now; updated_at = now })

unfoldable pub restore : Time → Task → Result Task
unfolding validate_updated_at
restore now t =
    if not (is_some t.archived_at)
    then ok t
    else do validate_mutation_time t now; ok (record t { archived_at = none; updated_at = now })

unfoldable pub is_archived : Task → Bool
is_archived t = is_some t.archived_at

unfoldable pub is_overdue : Time → Task → Bool
is_overdue now t = elim t.deadline_at [
  | none ↦ false
  | some deadline ↦ if is_completed t.status then false else before deadline now
]
