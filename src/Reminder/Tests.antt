-- ===== src/Reminder/Tests.antt =====
-- Runs of the code of internal/reminder on example data.
use go_pet_project.Base.{true, some, none, [], ◌∷◌, ◌≡◌, refl, arith, update_rows, ◌++◌}
use go_pet_project.Base.Int.{pos, ◌+ℤ◌, ◌<ℤ◌}
use go_pet_project.Base.Text.{is_blank, trim_space}
use go_pet_project.Base.Sort.{insert_row, order_by}
use go_pet_project.Base.Distinct.{IsDistinct}
use go_pet_project.Errors.{ok, map_rows}
use go_pet_project.World.{tick, transaction, for_each}
use go_pet_project.Samples.{office, hour_before, due_reminder, env-IsTransactional}
use go_pet_project.Task.Domain.{Task, restore_task}
use go_pet_project.Task.Repository as Tasks
use go_pet_project.Reminder.Domain.{
  Reminder, sent, cancelled, mark_sent, restore_reminder, trigger_before,
}
use go_pet_project.Task.Status.{is_completed}
use go_pet_project.Base.{false}
use go_pet_project.Reminder.Domain.{
  before_deadline, pending, is_pending, new_before_deadline_reminder, reschedule_absolute,
}
use go_pet_project.Reminder.Service.{
  CreateReminderCommand, UpdateReminderCommand, DeleteReminderCommand, create_reminder,
  update_reminder, delete_reminder, build_new_reminder, apply_update,
}
use go_pet_project.Reminder.Service.Edits.{create_reminder-schedules, update_reminder-reschedules}
use go_pet_project.Reminder.Invariant.{IsWellFormed}
use go_pet_project.Reminder.Triggers.{trigger_before_wraps}
use go_pet_project.Reminder.Lifecycle.{Call, perform, Follows, perform_final, perform-Follows}
use go_pet_project.Reminder.Repository as Reminders
use go_pet_project.Reminder.Repository.{has_id, updated_row}
use go_pet_project.Outbox.Event.{Event, new_event}
use go_pet_project.Outbox.Envelope.{has_json_form}
use go_pet_project.Outbox.Repository as Outbox
use go_pet_project.Reminder.Scheduler.{process, process_once}
use go_pet_project.Reminder.Scheduler.Once.{
  AllRequestedOnce, id_of, requests, process_once-AllRequestedOnce,
}

poll-ok : (process_once (pos 10) office).0 ≡ ok 1
unfolding process_once Reminders.claim_due transaction Reminders.due_rows insert_row order_by
    map_rows for_each process Tasks.find_by_id Tasks.to_domain restore_task is_blank trim_space
    has_json_form new_event Outbox.create Outbox.to_domain mark_sent Reminders.update
    Reminders.find_by_id Reminders.to_domain restore_reminder
poll-ok = refl

-- One of the two reminders was due.
poll-sends :
    (requests (process_once (pos 10) office).1.tables.outbox_events 22 ≡ 1)
    × (requests (process_once (pos 10) office).1.tables.outbox_events 21 ≡ 0)
unfolding process_once Reminders.claim_due transaction Reminders.due_rows insert_row order_by
    map_rows for_each process Tasks.find_by_id Tasks.to_domain restore_task is_blank trim_space
    has_json_form new_event Outbox.create Outbox.to_domain mark_sent Reminders.update
    Reminders.find_by_id Reminders.to_domain restore_reminder
poll-sends = (refl, refl)

office-IsDistinct : IsDistinct id_of office.tables.reminders
office-IsDistinct = ground arith

process_once-AllRequestedOnce_example : AllRequestedOnce (process_once (pos 10) office).1.tables
process_once-AllRequestedOnce_example =
    process_once-AllRequestedOnce (pos 10) office env-IsTransactional office-IsDistinct
      (ground arith)

trigger_before_wraps_example :
    (trigger_before (pos 9000000000000) (pos 10000000000)
      ≡ pos 9000000000000 +ℤ pos 8446744073709551616)
    × (pos 9000000000000 <ℤ trigger_before (pos 9000000000000) (pos 10000000000))
trigger_before_wraps_example =
    trigger_before_wraps (pos 9000000000000) 10000000000 (ground arith) (ground arith)

hour_before-IsWellFormed : IsWellFormed hour_before
hour_before-IsWellFormed = ground arith

abbrev sent_reminder : Reminder
sent_reminder = record hour_before { state = sent; sent_at = some (pos 6000000000000) }

sent_reminder-IsWellFormed : IsWellFormed sent_reminder
sent_reminder-IsWellFormed = ground arith

abbrev cancelled_reminder : Reminder
cancelled_reminder = record hour_before { state = cancelled }

cancelled_reminder-IsWellFormed : IsWellFormed cancelled_reminder
cancelled_reminder-IsWellFormed = ground arith

cancels_again : perform Call.cancel cancelled_reminder ≡ ok cancelled_reminder
unfolding perform
cancels_again = refl

perform_final_example : cancelled_reminder ≡ cancelled_reminder
perform_final_example =
    perform_final Call.cancel cancelled_reminder cancelled_reminder cancelled_reminder-IsWellFormed
      (ground arith) cancels_again

marks : perform (Call.mark_sent (pos 6000000000000)) hour_before ≡ ok sent_reminder
unfolding perform
marks = refl

perform-Follows_example : Follows hour_before sent_reminder
perform-Follows_example =
    perform-Follows (Call.mark_sent (pos 6000000000000)) hour_before sent_reminder
      hour_before-IsWellFormed marks

abbrev remind : CreateReminderCommand
remind = record {
  actor_id = 1;
  task_id = 7;
  kind = before_deadline;
  offset_seconds = some (pos 600);
  trigger_at = none;
}

abbrev ten_minutes_before : Reminder
ten_minutes_before = record {
  id = 1002;
  task_id = 7;
  kind = before_deadline;
  offset_seconds = some (pos 600);
  trigger_at = pos 8400000000000;
  state = pending;
  created_at = pos 5001000000000;
  sent_at = none;
}

remind-ok : (create_reminder remind office).0 ≡ ok ten_minutes_before
unfolding create_reminder Tasks.find_by_id Tasks.to_domain restore_task is_blank trim_space
    build_new_reminder new_before_deadline_reminder restore_reminder trigger_before Reminders.create
    Reminders.to_domain
remind-ok = refl

create_reminder-schedules_example :
    (t : Task) × ((Tasks.find_by_id 7 office).0 ≡ ok t)
    × (1 ≡ t.creator_id)
    × (is_completed t.status ≡ false)
    × (ten_minutes_before.state ≡ pending)
    × (ten_minutes_before.task_id ≡ 7)
    × (ten_minutes_before.kind ≡ before_deadline)
    × (pos 5001000000000 <ℤ pos 8400000000000)
    × ((create_reminder remind office).1.tables
        ≡ record (office.tables) { reminders = office.tables.reminders ++ ten_minutes_before ∷ [] })
create_reminder-schedules_example = create_reminder-schedules remind office remind-ok

abbrev put_off : UpdateReminderCommand
put_off = record {
  actor_id = 1;
  task_id = 7;
  reminder_id = 22;
  offset_seconds = none;
  trigger_at = some (pos 7000000000000);
}

put_off-ok :
    (update_reminder put_off office).0 ≡ ok (record due_reminder { trigger_at = pos 7000000000000 })
unfolding update_reminder Tasks.find_by_id Tasks.to_domain restore_task is_blank trim_space
    Reminders.find_by_id Reminders.to_domain restore_reminder apply_update reschedule_absolute
    Reminders.update
put_off-ok = refl

update_reminder-reschedules_example :
    (t : Task) × (r u : Reminder) × ((Tasks.find_by_id 7 office).0 ≡ ok t)
    × ((Reminders.find_by_id 22 (tick office)).0 ≡ ok r)
    × (1 ≡ t.creator_id)
    × (r.task_id ≡ 7)
    × (is_pending r.state ≡ true)
    × (u.state ≡ r.state)
    × (u.id ≡ r.id)
    × (u.task_id ≡ r.task_id)
    × (u.kind ≡ r.kind)
    × (pos 5002000000000 <ℤ u.trigger_at)
    × ((update_reminder put_off office).1.tables ≡ record (office.tables) {
      reminders = update_rows (has_id u.id) (updated_row u) office.tables.reminders;
    })
update_reminder-reschedules_example = update_reminder-reschedules put_off office put_off-ok

abbrev forget : DeleteReminderCommand
forget = record { actor_id = 1; task_id = 7; reminder_id = 22 }

forget-ok : (delete_reminder forget office).0 ≡ ok tt
unfolding delete_reminder Tasks.find_by_id Tasks.to_domain restore_task is_blank trim_space
    Reminders.find_by_id Reminders.to_domain restore_reminder Reminders.delete
forget-ok = refl
