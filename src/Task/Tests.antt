-- ===== src/Task/Tests.antt =====
-- Runs of the code of internal/task on example data.
use go_pet_project.Base.{
  false, some, none, List, [], ◌∷◌, ◌≡◌, ◌⊎◌, refl, arith, All, update_rows, if◌then◌else◌, ◌++◌,
}
use go_pet_project.Base.Int.{pos, ◌-ℤ◌, ◌*ℤ◌}
use go_pet_project.Base.Text.{runes, is_blank, trim_space}
use go_pet_project.Time.{Time}
use go_pet_project.Errors.{ok, err, task_access_denied}
use go_pet_project.World.{tick, transaction}
use go_pet_project.Samples.{report, report-IsWellFormed, office, env-IsTransactional}
use go_pet_project.Task.Status.{open_status, in_progress, done, can_transition_to, is_completed}
use go_pet_project.Task.Domain
use go_pet_project.Task.Domain.{Task, restore_task, new_task}
use go_pet_project.Task.Invariant.{IsWellFormed}
use go_pet_project.Task.Lifecycle.{Mutation, mutate, run, ◌⟶*◌, run-IsWellFormed, run-⟶*}
use go_pet_project.Task.Repository as Tasks
use go_pet_project.Task.Repository.{has_id, updated_row}
use go_pet_project.Task.Service
use go_pet_project.Task.Service.{
  ChangeStatusCommand, UpdateTaskCommand, CreateTaskCommand, ReassignTaskCommand, change_status,
  update_task, create_task, reassign_task,
}
use go_pet_project.Task.Service.Completion.{change_status-writes, completed_without_pending}
use go_pet_project.Task.Service.Deadline.{InStep, update_task-InStep}
use go_pet_project.Task.Service.Access.{
  Request, serve, MayAssign, serve_allows, create_task-MayAssign,
}
use go_pet_project.Task.Service.Refusals.{respond, respond_refuses}
use go_pet_project.Task.Service.Reassigned.{IsReassigned, reassign_task-IsReassigned}
use go_pet_project.Permission.{can_assign, exists}
use go_pet_project.Reminder.Repository as ReminderRows
use go_pet_project.Reminder.Repository.{
  is_pending_of, cancelled_row, is_pending_relative, sql_trigger,
}
use go_pet_project.Reminder.Service as Reminders

abbrev finish : ChangeStatusCommand
finish = record { actor_id = 2; task_id = 7; status = done }

abbrev finished : Task
finished = record report {
  status = done;
  updated_at = pos 5002000000000;
  completed_at = some (pos 5002000000000);
}

finish-ok : (change_status finish office).0 ≡ ok finished
unfolding change_status transaction Service.change_status_in Tasks.find_by_id Tasks.to_domain
    restore_task is_blank trim_space Domain.change_status can_transition_to Reminders.cancel_pending
    ReminderRows.cancel_pending_by_task_id Tasks.update Tasks.to_model
finish-ok = refl

change_status-writes_example :
    (t : Task) × (changed : Task) × ((Tasks.find_by_id 7 (tick office)).0 ≡ ok t)
    × (2 ≡ t.assignee_id)
    × (Domain.change_status done (pos 5002000000000) t ≡ ok changed)
    × ((change_status finish office).1.tables ≡ record (office.tables) {
      tasks = update_rows (has_id changed.id) (updated_row changed) office.tables.tasks;
      reminders =
          if is_completed changed.status
          then update_rows (is_pending_of changed.id) cancelled_row office.tables.reminders
          else office.tables.reminders;
    })
change_status-writes_example = change_status-writes finish office finished finish-ok

completed_without_pending_example :
    All (λ r. is_pending_of 7 r ≡ false) (change_status finish office).1.tables.reminders
completed_without_pending_example = completed_without_pending finish office finished refl finish-ok

-- The creator may not move the status of the report.
abbrev usurp : ChangeStatusCommand
usurp = record { actor_id = 1; task_id = 7; status = done }

usurp-denied : (change_status usurp office).0 ≡ err task_access_denied
unfolding change_status transaction Service.change_status_in Tasks.find_by_id Tasks.to_domain
    restore_task is_blank trim_space
usurp-denied = refl

abbrev postpone : UpdateTaskCommand
postpone = record {
  actor_id = 1;
  task_id = 7;
  assignee_id = none;
  title = none;
  description = none;
  deadline_at = some (some (pos 9600000000000));
}

abbrev postponed : Task
postponed = record report { deadline_at = some (pos 9600000000000); updated_at = pos 5002000000000 }

report-found : (Tasks.find_by_id 7 (tick office)).0 ≡ ok report
unfolding Tasks.find_by_id Tasks.to_domain restore_task is_blank trim_space
report-found = refl

postpone-ok : (update_task postpone office).0 ≡ ok postponed
unfolding update_task transaction Service.update_task_in Tasks.find_by_id Tasks.to_domain
    restore_task is_blank trim_space Service.apply_assignee Service.apply_title
    Service.apply_description Service.apply_deadline Service.same_time_ptr Domain.update_deadline
    Service.save_update Reminders.recalculate_pending_before_deadline
    ReminderRows.recalculate_pending_before_deadline Tasks.update Tasks.to_model
postpone-ok = refl

office-InStep : All (InStep 7 (some (pos 9000000000000))) office.tables.reminders
unfolding sql_trigger ◌-ℤ◌ ◌*ℤ◌
office-InStep = (λ _. refl, (λ h. absurd (ground arith), tt))

update_task-InStep_example :
    All (InStep 7 (some (pos 9600000000000))) (update_task postpone office).1.tables.reminders
update_task-InStep_example =
    update_task-InStep postpone office {t = report} {v = postponed} report-found office-InStep
      postpone-ok

-- The creator asks for the status of the task, which is the assignee's to move.
respond_refuses_example :
    ((respond (Request.change_status usurp) office).0 ≡ err task_access_denied)
    × ((respond (Request.change_status usurp) office).1.tables ≡ office.tables)
respond_refuses_example =
    respond_refuses (Request.change_status usurp) office report env-IsTransactional refl
      report-found (ground arith) (ground arith)

abbrev look : Request
look = Request.get 2 7

look-ok : (serve look office).0 ≡ ok report
unfolding serve Service.get_task Tasks.find_by_id Tasks.to_domain restore_task is_blank trim_space
look-ok = refl

serve_allows_example :
    (t : Task) × ((Tasks.find_by_id 7 office).0 ≡ ok t) × ((2 ≡ t.creator_id) ⊎ (2 ≡ t.assignee_id))
serve_allows_example = serve_allows look office look-ok

abbrev delegate : CreateTaskCommand
delegate = record {
  actor_id = 1;
  assignee_id = 3;
  title = runes "call back";
  description = [];
  deadline_at = none;
}

abbrev delegated : Task
delegated = record {
  id = 1002;
  series_id = none;
  creator_id = 1;
  assignee_id = 3;
  title = runes "call back";
  description = [];
  status = open_status;
  deadline_at = none;
  created_at = pos 5001000000000;
  updated_at = pos 5001000000000;
  completed_at = none;
  archived_at = none;
}

delegate-ok : (create_task delegate office).0 ≡ ok delegated
unfolding create_task can_assign exists new_task restore_task is_blank trim_space Tasks.create
    Tasks.to_model Tasks.to_domain
delegate-ok = refl

create_task-MayAssign_example :
    (delegated.creator_id ≡ delegate.actor_id)
    × MayAssign 1 3 office.tables
    × ((create_task delegate office).1.tables
        ≡ record (office.tables) { tasks = office.tables.tasks ++ delegated ∷ [] })
create_task-MayAssign_example = create_task-MayAssign delegate office delegate-ok

abbrev hand_over : ReassignTaskCommand
hand_over = record { actor_id = 1; task_id = 7; new_assignee_id = 3 }

abbrev handed_over : Task
handed_over = record report { assignee_id = 3; updated_at = pos 5001000000000 }

hand_over-ok : (reassign_task hand_over office).0 ≡ ok handed_over
unfolding reassign_task Tasks.find_by_id Tasks.to_domain restore_task is_blank trim_space
    Service.reassign_loaded_task can_assign exists Domain.reassign Tasks.update Tasks.to_model
hand_over-ok = refl

reassign_task-IsReassigned_example :
    (t : Task) × ((Tasks.find_by_id 7 office).0 ≡ ok t)
    × (1 ≡ t.creator_id)
    × (handed_over.id ≡ 7)
    × (handed_over.assignee_id ≡ 3)
    × IsReassigned hand_over
        (pos 5001000000000)
        t
        office.tables
        (reassign_task hand_over office).1.tables
reassign_task-IsReassigned_example = reassign_task-IsReassigned hand_over office hand_over-ok

abbrev a_day : List (Mutation × Time)
a_day =
    (Mutation.change_status done, pos 2000000000000)
    ∷ (Mutation.change_status open_status, pos 3000000000000)
    ∷ (Mutation.archive, pos 4000000000000)
    ∷ []

a_day-ends : (run a_day report).status ≡ done
unfolding run mutate Domain.change_status can_transition_to Domain.archive
a_day-ends = refl

run-IsWellFormed_example : IsWellFormed (run a_day report)
run-IsWellFormed_example = run-IsWellFormed a_day report report-IsWellFormed

run-⟶*_example : in_progress ⟶* (run a_day report).status
run-⟶*_example = run-⟶* a_day report

delegated-made : new_task 1002 1 3 (runes "call back") [] none (pos 5001000000000) ≡ ok delegated
unfolding new_task restore_task is_blank trim_space
delegated-made = refl
