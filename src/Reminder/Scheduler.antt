-- ===== src/Reminder/Scheduler.antt =====
-- internal/reminder/adapter/in/scheduler: notification_processor.go and a poll of runner.go. The
-- poll calls `processBatch` in the transaction of `ClaimDue`, where `database.HasGORM` holds: the
-- branch with the workers is not taken, and the reminders are processed one after the other.
pub mod Requests
pub mod Once
use go_pet_project.Base.{ℕ, not}
use go_pet_project.Base.Int.{ℤ}
use go_pet_project.Errors.{ok, marshal}
use go_pet_project.World.{Action, ◌>>=◌, ◌>>◌, pure, lift, refuse_when, now, new_uuid, for_each}
use go_pet_project.Task.Domain.{Task}
use go_pet_project.Task.Repository as Tasks
use go_pet_project.Reminder.Domain.{Reminder, mark_sent}
use go_pet_project.Reminder.Repository as Reminders
use go_pet_project.Outbox.Event.{
  Payload, notification_requested, new_event, reminder_aggregate_type,
  notification_requested_v1_type,
}
use go_pet_project.Outbox.Envelope.{has_json_form}
use go_pet_project.Outbox.Repository as Outbox

abbrev pub request_payload : Reminder → Task → Payload
request_payload r task = notification_requested (record {
  reminder_id = r.id;
  task_id = r.task_id;
  recipient_user_id = task.assignee_id;
  trigger_at = r.trigger_at;
})

unfoldable pub process : Reminder → Action (Unit {0})
process r = do
  at ← now
  task ← Tasks.find_by_id r.task_id
  refuse_when (not (has_json_form r.trigger_at)) marshal
  id ← new_uuid
  event ← lift (
      new_event id reminder_aggregate_type r.id notification_requested_v1_type
        (request_payload r task) at)
  _ ← Outbox.create event
  sent ← lift (mark_sent at r)
  _ ← Reminders.update sent
  pure tt

unfoldable pub process_once : ℤ → Action ℕ
process_once batch_size = do at ← now; Reminders.claim_due at batch_size (for_each process)
