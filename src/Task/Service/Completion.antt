-- ===== src/Task/Service/Completion.antt =====
-- `ChangeStatus` of internal/task/application/service/task_service.go: the status, the reminders
-- and the task are written together.
use go_pet_project.Base.{
  ℕ, ◌≡◌, arith, false, update_rows, inl, inr, if◌then◌else◌, suc, List, [], ◌∷◌, All, ◌∙◌,
}
use go_pet_project.Time.{Time}
use go_pet_project.Errors.{ok, Result-cases}
use go_pet_project.World.{World, tick}
use go_pet_project.World.Frames.{transaction-ok}
use go_pet_project.Task.Status.{Status, done, is_completed}
use go_pet_project.Task.Domain
use go_pet_project.Task.Domain.{Task}
use go_pet_project.Task.Repository as Tasks
use go_pet_project.Task.Repository.{has_id, updated_row}
use go_pet_project.Task.Repository.Laws.{find_by_id-tick, find_by_id-ok, update-tables}
use go_pet_project.Reminder.Domain.{Reminder}
use go_pet_project.Reminder.Repository as ReminderRows
use go_pet_project.Reminder.Repository.{is_pending_of, cancelled_row}
use go_pet_project.Reminder.Service as Reminders
use go_pet_project.Task.Service.{ChangeStatusCommand, change_status_in, change_status}

-- The world in which the task is written: the reminders of a completed task are cancelled.
abbrev before_update : Task → World → World
before_update changed w =
    let w2 = tick (tick w) in
    if is_completed changed.status
    then record w2 {
      tables = record (w.tables) {
        reminders = update_rows (is_pending_of changed.id) cancelled_row w.tables.reminders;
      };
      step = suc w2.step;
    }
    else w2

module _ (cmd : ChangeStatusCommand) (w : World) (u : Task) where
  change_status_in-writes :
      (change_status_in cmd w).0 ≡ ok u
      → (t : Task) × (changed : Task) × ((Tasks.find_by_id cmd.task_id w).0 ≡ ok t)
        × (cmd.actor_id ≡ t.assignee_id)
        × (Domain.change_status cmd.status (w.env.clock (suc w.step)) t ≡ ok changed)
        × ((change_status_in cmd w).1.tables ≡ record (w.tables) {
          tasks = update_rows (has_id changed.id) (updated_row changed) w.tables.tasks;
          reminders =
              if is_completed changed.status
              then update_rows (is_pending_of changed.id) cancelled_row w.tables.reminders
              else w.tables.reminders;
        })
  unfolding change_status_in Reminders.cancel_pending ReminderRows.cancel_pending_by_task_id
  change_status_in-writes h = elim (Result-cases (Tasks.find_by_id cmd.task_id w).0) [
    | inr (e, eq) ↦ absurd (ground (arith, find_by_id-tick cmd.task_id w))
    | inl (t, eq) ↦
        elim (Result-cases (Domain.change_status cmd.status (w.env.clock (suc w.step)) t)) [
          | inr (e, bad) ↦ absurd (ground (arith, find_by_id-tick cmd.task_id w))
          | inl (changed, good) ↦ (
            t,
            changed,
            eq,
            ground (arith, find_by_id-tick cmd.task_id w),
            good,
            ground (
              arith,
              find_by_id-tick cmd.task_id w,
              update-tables changed (before_update changed w) {u = u},
            ),
          )
        ]
  ]

-- A status change that succeeds was asked for by the assignee of the task, follows
-- `Task.ChangeStatus` at the time of the clock, and writes the task together with its reminders:
-- the pending ones are cancelled if the task is now completed, and no other row is touched.
pub change_status-writes :
    (cmd : ChangeStatusCommand) (w : World) (u : Task)
    → (change_status cmd w).0 ≡ ok u
    → (t : Task) × (changed : Task) × ((Tasks.find_by_id cmd.task_id (tick w)).0 ≡ ok t)
      × (cmd.actor_id ≡ t.assignee_id)
      × (Domain.change_status cmd.status (w.env.clock (suc (suc w.step))) t ≡ ok changed)
      × ((change_status cmd w).1.tables ≡ record (w.tables) {
        tasks = update_rows (has_id changed.id) (updated_row changed) w.tables.tasks;
        reminders =
            if is_completed changed.status
            then update_rows (is_pending_of changed.id) cancelled_row w.tables.reminders
            else w.tables.reminders;
      })
unfolding change_status
change_status-writes cmd w u h =
    let (inner, same) = transaction-ok (change_status_in cmd) w h in
    let (t, changed, found, who, good, tables) = change_status_in-writes cmd (tick w) u inner in
    (t, changed, found, who, good, same ∙ tables)

none_pending :
    (task : ℕ) (rs : List Reminder)
    → All (λ r. is_pending_of task r ≡ false) (update_rows (is_pending_of task) cancelled_row rs)
none_pending task [] = tt
none_pending task (r ∷ rs) = (ground arith, none_pending task rs)

change_status-result :
    (next : Status) (at : Time) (t u : Task)
    → Domain.change_status next at t ≡ ok u
    → (u.status ≡ next) × (u.id ≡ t.id)
unfolding Domain.change_status
change_status-result next at t u h = ground arith

-- Once a task is completed, none of its reminders is pending.
pub completed_without_pending :
    (cmd : ChangeStatusCommand) (w : World) (u : Task)
    → cmd.status ≡ done
    → (change_status cmd w).0 ≡ ok u
    → All (λ r. is_pending_of cmd.task_id r ≡ false) (change_status cmd w).1.tables.reminders
completed_without_pending cmd w u d h =
    let (t, changed, found, who, good, tables) = change_status-writes cmd w u h in
    let (same_id, wf) = find_by_id-ok cmd.task_id (tick w) found in
    let (now_done, id_kept) = change_status-result cmd.status _ t changed good in
    rw (tables, now_done ∙ d, id_kept ∙ same_id) (none_pending cmd.task_id w.tables.reminders)
