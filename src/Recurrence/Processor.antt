-- ===== src/Recurrence/Processor.antt =====
-- internal/recurrence/application/service/processor.go, over the repositories of the tasks and of the
-- reminders, and a poll of internal/recurrence/adapter/in/scheduler/runner.go.
pub mod Occurrences
pub mod Processed
pub mod Polls
use go_pet_project.Base.{ℕ, if◌then◌else◌}
use go_pet_project.Base.Int.{ℤ, pos, leb_ℤ}
use go_pet_project.Time.{Time}
use go_pet_project.Errors.{limit_not_positive}
use go_pet_project.World.{
  Action, ◌>>=◌, ◌>>◌, pure, raise, lift, now, new_uuid, transaction, for_each,
}
use go_pet_project.Task.Domain.{Task, new_task_occurrence}
use go_pet_project.Task.Repository as Tasks
use go_pet_project.Reminder.Domain.{new_before_deadline_reminder}
use go_pet_project.Reminder.Repository as Reminders
use go_pet_project.Recurrence.Domain.{TaskSeries, ReminderRule, advance_after_occurrence}
use go_pet_project.Recurrence.Repository as Series

unfoldable pub create_reminder : ℕ → Time → Time → ReminderRule → Action (Unit {0})
create_reminder task deadline at rule = do
  id ← new_uuid
  reminder ← lift (new_before_deadline_reminder id task deadline rule.offset_seconds at)
  _ ← Reminders.create reminder
  pure tt

unfoldable pub create_task : TaskSeries → Time → Action Task
create_task s at = do
  id ← new_uuid
  task ← lift (
      new_task_occurrence id s.id s.creator_id s.assignee_id s.title s.description
        s.next_deadline_at at)
  Tasks.create task

abbrev pub advanced : TaskSeries → Time → Action TaskSeries
advanced s at w = lift (advance_after_occurrence w.env.zones at s) w

unfoldable pub advance : TaskSeries → Time → Action (Unit {0})
advance s at = do next ← advanced s at; _ ← Series.update next; pure tt

unfoldable pub process_one : TaskSeries → Action (Unit {0})
process_one s = do
  at ← now
  task ← create_task s at
  rules ← Series.list_reminder_rules s.id
  for_each (create_reminder task.id s.next_deadline_at at) rules
  advance s at

unfoldable pub process_series : TaskSeries → Action (Unit {0})
process_series s = transaction (process_one s)

unfoldable pub process_due : Time → ℤ → Action ℕ
process_due at batch_size =
    if leb_ℤ batch_size (pos 0)
    then raise limit_not_positive
    else Series.claim_due at batch_size (for_each process_one)

-- `ProcessOnce` of the runner.
unfoldable pub process_once : ℤ → Action ℕ
process_once batch_size = do at ← now; process_due at batch_size
