-- ===== src/Reminder/Service.antt =====
-- internal/reminder/application/service/reminder_service.go, over the repositories that
-- internal/bootstrap/api.go wires it to.
pub mod Edits
use go_pet_project.Base.{ℕ, Bool, not, ◌||◌, Option, none, some, List, ◌==◌}
use go_pet_project.Base.Int.{ℤ}
use go_pet_project.Time.{Time, after}
use go_pet_project.Errors.{
  Result, err, reminder_invalid_actor, reminder_access_denied, reminder_invalid_task_id,
  task_already_completed, invalid_trigger_at, invalid_reminder_fields, task_deadline_required,
  invalid_kind, reminder_not_found,
}
use go_pet_project.World.{Action, ◌>>=◌, ◌>>◌, lift, refuse_when, now, new_uuid}
use go_pet_project.Task.Status.{is_completed}
use go_pet_project.Task.Domain.{Task}
use go_pet_project.Task.Repository as Tasks
use go_pet_project.Reminder.Domain.{
  Reminder, Kind, absolute, before_deadline, new_absolute_reminder, new_before_deadline_reminder,
  reschedule_absolute, reschedule_before_deadline,
}
use go_pet_project.Reminder.Repository

pub record CreateReminderCommand : Type 0 where
  pub actor_id : ℕ
  pub task_id : ℕ
  pub kind : Kind
  pub offset_seconds : Option ℤ
  pub trigger_at : Option Time

pub record UpdateReminderCommand : Type 0 where
  pub actor_id : ℕ
  pub task_id : ℕ
  pub reminder_id : ℕ
  pub offset_seconds : Option ℤ
  pub trigger_at : Option Time

pub record DeleteReminderCommand : Type 0 where
  pub actor_id : ℕ
  pub task_id : ℕ
  pub reminder_id : ℕ

abbrev pub require_actor : ℕ → Action (Unit {0})
require_actor actor = refuse_when (actor == 0) reminder_invalid_actor

abbrev pub can_read : ℕ → Task → Bool
can_read actor t = actor == t.creator_id || actor == t.assignee_id

-- `buildNewReminder`, by the kind, the two optional fields and the deadline. `id` is the value of
-- `uuid.New()`.
unfoldable pub build_new_reminder :
    ℕ → ℕ → Kind → Option ℤ → Option Time → Option Time → Time → Result Reminder
build_new_reminder id task absolute none (some trigger) deadline at =
    new_absolute_reminder id task trigger at
build_new_reminder id task absolute _ _ deadline at = err invalid_reminder_fields
build_new_reminder id task before_deadline (some offset) none none at = err task_deadline_required
build_new_reminder id task before_deadline (some offset) none (some deadline) at =
    new_before_deadline_reminder id task deadline offset at
build_new_reminder id task before_deadline _ _ deadline at = err invalid_reminder_fields
build_new_reminder id task (Kind.unknown value) _ _ deadline at = err invalid_kind

unfoldable pub create_reminder : CreateReminderCommand → Action Reminder
create_reminder cmd = do
  require_actor cmd.actor_id
  task ← Tasks.find_by_id cmd.task_id
  refuse_when (not (cmd.actor_id == task.creator_id)) reminder_access_denied
  refuse_when (is_completed task.status) task_already_completed
  at ← now
  id ← new_uuid
  reminder ←
      lift (
        build_new_reminder id task.id cmd.kind cmd.offset_seconds cmd.trigger_at task.deadline_at
          at)
  refuse_when (not (after reminder.trigger_at at)) invalid_trigger_at
  Repository.create reminder

unfoldable pub list_reminders : ℕ → ℕ → Action (List Reminder)
list_reminders actor task_id = do
  require_actor actor
  task ← Tasks.find_by_id task_id
  refuse_when (not (can_read actor task)) reminder_access_denied
  Repository.list_by_task_id task_id

-- `applyUpdate`, by the kind of the reminder.
unfoldable pub apply_update :
    Kind → Option ℤ → Option Time → Option Time → Reminder → Result Reminder
apply_update absolute none (some trigger) deadline r = reschedule_absolute trigger r
apply_update absolute _ _ deadline r = err invalid_reminder_fields
apply_update before_deadline (some offset) none none r = err task_deadline_required
apply_update before_deadline (some offset) none (some deadline) r =
    reschedule_before_deadline deadline offset r
apply_update before_deadline _ _ deadline r = err invalid_reminder_fields
apply_update (Kind.unknown value) _ _ deadline r = err invalid_kind

unfoldable pub update_reminder : UpdateReminderCommand → Action Reminder
update_reminder cmd = do
  require_actor cmd.actor_id
  task ← Tasks.find_by_id cmd.task_id
  refuse_when (not (cmd.actor_id == task.creator_id)) reminder_access_denied
  found ← Repository.find_by_id cmd.reminder_id
  refuse_when (not (found.task_id == cmd.task_id)) reminder_not_found
  reminder ← lift (apply_update found.kind cmd.offset_seconds cmd.trigger_at task.deadline_at found)
  at ← now
  refuse_when (not (after reminder.trigger_at at)) invalid_trigger_at
  Repository.update reminder

unfoldable pub delete_reminder : DeleteReminderCommand → Action (Unit {0})
delete_reminder cmd = do
  require_actor cmd.actor_id
  task ← Tasks.find_by_id cmd.task_id
  refuse_when (not (cmd.actor_id == task.creator_id)) reminder_access_denied
  found ← Repository.find_by_id cmd.reminder_id
  refuse_when (not (found.task_id == cmd.task_id)) reminder_not_found
  Repository.delete cmd.reminder_id

-- The two branches of `RecalculatePendingBeforeDeadline`.
abbrev recalculate_for : ℕ → Option Time → Action (Unit {0})
recalculate_for task none = do
  has_relative ← Repository.has_pending_before_deadline task
  refuse_when has_relative task_deadline_required
recalculate_for task (some deadline) = Repository.recalculate_pending_before_deadline task deadline

unfoldable pub recalculate_pending_before_deadline : ℕ → Option Time → Action (Unit {0})
recalculate_pending_before_deadline task deadline = do
  refuse_when (task == 0) reminder_invalid_task_id
  recalculate_for task deadline

unfoldable pub cancel_pending : ℕ → Action (Unit {0})
cancel_pending task = do
  refuse_when (task == 0) reminder_invalid_task_id
  Repository.cancel_pending_by_task_id task
