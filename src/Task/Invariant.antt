-- ===== src/Task/Invariant.antt =====
-- The well-formed tasks of internal/task/domain/task.go: what `RestoreTask` lets through.
use go_pet_project.Base.{true, false, ◌≡◌, ◌≢◌, ◌↔◌, arith, is_some, ℕ, Option, if◌then◌else◌, ◌==◌}
use go_pet_project.Base.Int.{◌≤ℤ◌}
use go_pet_project.Base.Text.{Text, is_blank}
use go_pet_project.Time.{Time, is_zero}
use go_pet_project.Errors.{ok}
use go_pet_project.Task.Status.{is_valid, is_completed}
use go_pet_project.Task.Domain.{Task, points_to_nil, completion, restore_task, new_task}

pub record IsWellFormed (t : Task) : Type 0 where
  pub has_id : t.id ≢ 0
  pub has_series : points_to_nil t.series_id ≡ false
  pub has_creator : t.creator_id ≢ 0
  pub has_assignee : t.assignee_id ≢ 0
  pub has_title : is_blank t.title ≡ false
  pub has_status : is_valid t.status ≡ true
  pub has_created : is_zero t.created_at ≡ false
  pub has_updated : is_zero t.updated_at ≡ false
  pub ordered : t.created_at ≤ℤ t.updated_at
  pub completed : is_some t.completed_at ≡ is_completed t.status

-- The task with the completion time that a completed task without one is given.
abbrev pub completed_task : Task → Task
completed_task t = record t { completed_at = completion t.status t.completed_at t.updated_at }

restore_task-ok : (t u : Task) → restore_task t ≡ ok u → (u ≡ completed_task t) × IsWellFormed u
unfolding restore_task
restore_task-ok t u h = ground arith

restore_task_completes :
    (t : Task) → IsWellFormed (completed_task t) → restore_task t ≡ ok (completed_task t)
unfolding restore_task
restore_task_completes t w = ground arith

-- `RestoreTask` succeeds exactly with a well-formed task, which is its arguments with the
-- completion time filled in where the status is DONE and none was given.
pub restore_task-ok_iff :
    (t u : Task) → (restore_task t ≡ ok u) ↔ ((u ≡ completed_task t) × IsWellFormed u)
restore_task-ok_iff t u =
    (restore_task-ok t u, λ (e, w). rw e (restore_task_completes t (rw e at w)))

-- A well-formed task is restored as it is.
pub restore_task_self : (t : Task) → IsWellFormed t → restore_task t ≡ ok t
unfolding restore_task
restore_task_self t w = ground arith

-- A new task is well formed, and has the creator, and the assignee or else the creator.
pub new_task-IsWellFormed :
    (id creator assignee : ℕ) (title description : Text) (deadline : Option Time) (now : Time)
    {t : Task}
    → new_task id creator assignee title description deadline now ≡ ok t
    → IsWellFormed t
      × (t.creator_id ≡ creator)
      × (t.assignee_id ≡ (if assignee == 0 then creator else assignee))
unfolding new_task
new_task-IsWellFormed id creator assignee title description deadline now h = ground arith
