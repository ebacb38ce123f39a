-- ===== src/Task/Service.antt =====
-- internal/task/application/service/task_service.go without `ListTasks`, over the repositories and
-- the services that internal/bootstrap/api.go wires it to.
pub mod Completion
pub mod Access
pub mod Refusals
pub mod Reassigned
pub mod Edits
pub mod Deadline
use go_pet_project.Base.{
  ℕ, Bool, true, false, not, ◌||◌, Option, none, some, ◌==◌, if◌then◌else◌, is_some,
}
use go_pet_project.Base.Text.{Text}
use go_pet_project.Time.{Time, equal}
use go_pet_project.Errors.{
  Result, ok, err, invalid_actor, task_access_denied, assignment_denied, invalid_assignee_id,
}
use go_pet_project.World.{
  Action, ◌>>=◌, ◌>>◌, pure, raise, lift, refuse_when, now, new_uuid, transaction,
}
use go_pet_project.Permission.{can_assign}
use go_pet_project.Reminder.Service as Reminders
use go_pet_project.Task.Status.{Status, is_completed}
use go_pet_project.Task.Domain
use go_pet_project.Task.Domain.{Task, new_task}
use go_pet_project.Task.Repository

pub record CreateTaskCommand : Type 0 where
  pub actor_id : ℕ
  pub assignee_id : ℕ
  pub title : Text
  pub description : Text
  pub deadline_at : Option Time

-- `DeadlineAt` is nil, or points to a `DeadlineUpdate` whose `Value` may be nil.
pub record UpdateTaskCommand : Type 0 where
  pub actor_id : ℕ
  pub task_id : ℕ
  pub assignee_id : Option ℕ
  pub title : Option Text
  pub description : Option Text
  pub deadline_at : Option (Option Time)

pub record ReassignTaskCommand : Type 0 where
  pub actor_id : ℕ
  pub task_id : ℕ
  pub new_assignee_id : ℕ

pub record ChangeStatusCommand : Type 0 where
  pub actor_id : ℕ
  pub task_id : ℕ
  pub status : Status

-- `ArchiveTaskCommand` and `RestoreTaskCommand`
pub record TaskCommand : Type 0 where
  pub actor_id : ℕ
  pub task_id : ℕ

abbrev pub require_actor : ℕ → Action (Unit {0})
require_actor actor = refuse_when (actor == 0) invalid_actor

abbrev pub can_view : ℕ → Task → Bool
can_view actor t = actor == t.creator_id || actor == t.assignee_id

unfoldable pub same_time_ptr : Option Time → Option Time → Bool
same_time_ptr none none = true
same_time_ptr (some a) (some b) = equal a b
same_time_ptr _ _ = false

unfoldable pub create_task : CreateTaskCommand → Action Task
create_task cmd = do
  require_actor cmd.actor_id
  let assignee = if cmd.assignee_id == 0 then cmd.actor_id else cmd.assignee_id
  allowed ← can_assign cmd.actor_id assignee
  refuse_when (not allowed) assignment_denied
  at ← now
  id ← new_uuid
  task ← lift (new_task id cmd.actor_id assignee cmd.title cmd.description cmd.deadline_at at)
  Repository.create task

unfoldable pub get_task : ℕ → ℕ → Action Task
get_task actor id = do
  require_actor actor
  task ← Repository.find_by_id id
  refuse_when (not (can_view actor task)) task_access_denied
  pure task

unfoldable pub reassign_loaded_task : ℕ → Task → ℕ → Time → Action Task
reassign_loaded_task actor t assignee at = do
  refuse_when (assignee == 0) invalid_assignee_id
  allowed ← can_assign actor assignee
  refuse_when (not allowed) assignment_denied
  lift (Domain.reassign assignee at t)

-- The four `if cmd.… != nil` of `updateTask`, each of which returns the task and whether it was
-- changed.
unfoldable pub apply_assignee : ℕ → Option ℕ → Time → Task → Action (Task × Bool)
apply_assignee actor none at t = pure (t, false)
apply_assignee actor (some assignee) at t =
    if assignee == t.assignee_id
    then pure (t, false)
    else do u ← reassign_loaded_task actor t assignee at; pure (u, true)

unfoldable pub apply_title : Option Text → Time → Task × Bool → Action (Task × Bool)
apply_title none at tc = pure tc
apply_title (some title) at tc = do u ← lift (Domain.update_title title at tc.0); pure (u, true)

unfoldable pub apply_description : Option Text → Time → Task × Bool → Action (Task × Bool)
apply_description none at tc = pure tc
apply_description (some text) at tc = do
  u ← lift (Domain.update_description text at tc.0)
  pure (u, true)

-- Also whether the deadline was changed.
unfoldable pub apply_deadline :
    Option (Option Time) → Time → Task × Bool → Action (Task × Bool × Bool)
apply_deadline none at (t, changed) = pure (t, changed, false)
apply_deadline (some deadline) at (t, changed) =
    if same_time_ptr t.deadline_at deadline
    then pure (t, changed, false)
    else do u ← lift (Domain.update_deadline deadline at t); pure (u, true, true)

abbrev sync_reminders : Bool → Task → Action (Unit {0})
sync_reminders false t = pure tt
sync_reminders true t = Reminders.recalculate_pending_before_deadline t.id t.deadline_at

-- The end of `updateTask`: nothing is written where nothing has changed.
unfoldable pub save_update : Task × Bool × Bool → Action Task
save_update (t, changed, deadline_changed) =
    if not changed then pure t else do sync_reminders deadline_changed t; Repository.update t

unfoldable pub update_task_in : UpdateTaskCommand → Action Task
update_task_in cmd = do
  require_actor cmd.actor_id
  task ← Repository.find_by_id cmd.task_id
  refuse_when (not (cmd.actor_id == task.creator_id)) task_access_denied
  at ← now
  assigned ← apply_assignee cmd.actor_id cmd.assignee_id at task
  titled ← apply_title cmd.title at assigned
  described ← apply_description cmd.description at titled
  scheduled ← apply_deadline cmd.deadline_at at described
  save_update scheduled

unfoldable pub update_task : UpdateTaskCommand → Action Task
update_task cmd = transaction (update_task_in cmd)

unfoldable pub reassign_task : ReassignTaskCommand → Action Task
reassign_task cmd = do
  require_actor cmd.actor_id
  task ← Repository.find_by_id cmd.task_id
  refuse_when (not (cmd.actor_id == task.creator_id)) task_access_denied
  if cmd.new_assignee_id == task.assignee_id then pure task else do
    at ← now
    reassigned ← reassign_loaded_task cmd.actor_id task cmd.new_assignee_id at
    Repository.update reassigned

abbrev cancel_if_completed : Task → Action (Unit {0})
cancel_if_completed t = if is_completed t.status then Reminders.cancel_pending t.id else pure tt

unfoldable pub change_status_in : ChangeStatusCommand → Action Task
change_status_in cmd = do
  require_actor cmd.actor_id
  task ← Repository.find_by_id cmd.task_id
  refuse_when (not (cmd.actor_id == task.assignee_id)) task_access_denied
  at ← now
  changed ← lift (Domain.change_status cmd.status at task)
  cancel_if_completed changed
  Repository.update changed

unfoldable pub change_status : ChangeStatusCommand → Action Task
change_status cmd = transaction (change_status_in cmd)

unfoldable pub archive_task : TaskCommand → Action Task
archive_task cmd = do
  require_actor cmd.actor_id
  task ← Repository.find_by_id cmd.task_id
  refuse_when (not (cmd.actor_id == task.creator_id)) task_access_denied
  at ← now
  archived ← lift (Domain.archive at task)
  Repository.update archived

unfoldable pub restore_task : TaskCommand → Action Task
restore_task cmd = do
  require_actor cmd.actor_id
  task ← Repository.find_by_id cmd.task_id
  refuse_when (not (cmd.actor_id == task.creator_id)) task_access_denied
  at ← now
  restored ← lift (Domain.restore at task)
  Repository.update restored
