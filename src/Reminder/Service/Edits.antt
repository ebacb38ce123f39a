-- ===== src/Reminder/Service/Edits.antt =====
-- What the edits of internal/reminder/application/service/reminder_service.go may do, and to whom.
use go_pet_project.Base.{
  ℕ, suc, true, false, not, Option, [], ◌∷◌, ◌++◌, ◌≡◌, refl, arith, select, update_rows,
  count_rows, ◌==◌, inl, inr,
}
use go_pet_project.Base.Int.{◌<ℤ◌}
use go_pet_project.Time.{Time}
use go_pet_project.Errors.{ok, Result-cases}
use go_pet_project.World.{World, tick}
use go_pet_project.Task.Status.{is_completed}
use go_pet_project.Task.Domain.{Task}
use go_pet_project.Task.Repository as Tasks
use go_pet_project.Task.Repository.Laws.{find_by_id-tick, find_by_id-ok}
use go_pet_project.Reminder.Domain.{
  Reminder, Kind, pending, is_pending, new_absolute_reminder, new_before_deadline_reminder,
  restore_reminder, reschedule_absolute, reschedule_before_deadline, trigger_before,
}
use go_pet_project.Reminder.Repository as Reminders
use go_pet_project.Reminder.Repository.{has_id, updated_row, to_domain}
use go_pet_project.Reminder.Repository.Laws
use go_pet_project.Reminder.Service.{
  CreateReminderCommand, UpdateReminderCommand, DeleteReminderCommand, create_reminder,
  update_reminder, delete_reminder, build_new_reminder, apply_update,
}

-- A reminder that is built is pending, of the task that was given, and not restored otherwise.
build_new_reminder-pending :
    (id task : ℕ) (cmd : CreateReminderCommand) (deadline : Option Time) (at : Time) {r : Reminder}
    → build_new_reminder id task cmd.kind cmd.offset_seconds cmd.trigger_at deadline at ≡ ok r
    → (r.state ≡ pending)
      × (r.task_id ≡ task)
      × (r.kind ≡ cmd.kind)
      × (r.id ≡ id)
      × (to_domain r ≡ ok r)
unfolding build_new_reminder new_absolute_reminder new_before_deadline_reminder to_domain
    restore_reminder trigger_before
build_new_reminder-pending id task cmd deadline at h = ground arith

-- A reminder that is created was asked for by the creator of a task that is not completed. It is
-- pending, of that task and the kind that was asked for, triggers after the time of its creation,
-- and is the one row that is added.
pub create_reminder-schedules :
    (cmd : CreateReminderCommand) (w : World) {r : Reminder}
    → (create_reminder cmd w).0 ≡ ok r
    → (t : Task) × ((Tasks.find_by_id cmd.task_id w).0 ≡ ok t)
      × (cmd.actor_id ≡ t.creator_id)
      × (is_completed t.status ≡ false)
      × (r.state ≡ pending)
      × (r.task_id ≡ cmd.task_id)
      × (r.kind ≡ cmd.kind)
      × (w.env.clock (suc w.step) <ℤ r.trigger_at)
      × ((create_reminder cmd w).1.tables
          ≡ record (w.tables) { reminders = w.tables.reminders ++ r ∷ [] })
unfolding create_reminder
create_reminder-schedules cmd w {r} h = elim (Result-cases (Tasks.find_by_id cmd.task_id w).0) [
  | inr (_, bad) ↦ absurd (ground arith)
  | inl (t, found) ↦
      let at = w.env.clock (suc w.step) in
      let made =
        build_new_reminder (w.env.uuid (suc (suc w.step))) t.id cmd.kind cmd.offset_seconds
          cmd.trigger_at t.deadline_at at in
      elim (Result-cases made) [
        | inr (_, bad) ↦ absurd (ground (arith, find_by_id-tick cmd.task_id w))
        | inl (u, good) ↦
            let (same_id, _) = find_by_id-ok cmd.task_id w found in
            let (is_open, of_task, of_kind, _, kept) =
              build_new_reminder-pending (w.env.uuid (suc (suc w.step))) t.id cmd t.deadline_at at
                good in
            let w' = tick (tick (tick w)) in
            elim (Result-cases (Reminders.create u w').0) [
              | inr (_, bad) ↦ absurd (ground (arith, find_by_id-tick cmd.task_id w))
              | inl (v, created) ↦
                  let (same, rows) = Laws.create-appends u w' kept created in
                  let facts : (cmd.actor_id ≡ t.creator_id)
                      × (is_completed t.status ≡ false)
                      × (at <ℤ u.trigger_at)
                      × (r ≡ v)
                      × ((create_reminder cmd w).1.tables ≡ (Reminders.create u w').1.tables) =
                    ground (arith, find_by_id-tick cmd.task_id w) in
                  let (who, is_live, later, answered, ends) = facts in
                  rw (answered, same)
                    (
                      t,
                      found,
                      who,
                      is_live,
                      is_open,
                      ground arith,
                      of_kind,
                      later,
                      rw (ends, rows) refl,
                    )
            ]
      ]
]

apply_update-kept :
    (kind : Kind) (cmd : UpdateReminderCommand) (deadline : Option Time) (r : Reminder)
    {u : Reminder}
    → apply_update kind cmd.offset_seconds cmd.trigger_at deadline r ≡ ok u
    → (is_pending r.state ≡ true)
      × (u.state ≡ r.state)
      × (u.id ≡ r.id)
      × (u.task_id ≡ r.task_id)
      × (u.kind ≡ r.kind)
unfolding apply_update reschedule_absolute reschedule_before_deadline trigger_before
apply_update-kept kind cmd deadline r h = ground arith

-- An update of a reminder that succeeds was asked for by the creator of its task. The reminder was
-- pending and stays so, keeps its id, task and kind, triggers after the time of the update, and its
-- row is the one that is written.
pub update_reminder-reschedules :
    (cmd : UpdateReminderCommand) (w : World) {v : Reminder}
    → (update_reminder cmd w).0 ≡ ok v
    → (t : Task) × (r u : Reminder) × ((Tasks.find_by_id cmd.task_id w).0 ≡ ok t)
      × ((Reminders.find_by_id cmd.reminder_id (tick w)).0 ≡ ok r)
      × (cmd.actor_id ≡ t.creator_id)
      × (r.task_id ≡ cmd.task_id)
      × (is_pending r.state ≡ true)
      × (u.state ≡ r.state)
      × (u.id ≡ r.id)
      × (u.task_id ≡ r.task_id)
      × (u.kind ≡ r.kind)
      × (w.env.clock (suc (suc w.step)) <ℤ u.trigger_at)
      × ((update_reminder cmd w).1.tables ≡ record (w.tables) {
        reminders = update_rows (has_id u.id) (updated_row u) w.tables.reminders;
      })
unfolding update_reminder
update_reminder-reschedules cmd w {v} h = elim (Result-cases (Tasks.find_by_id cmd.task_id w).0) [
  | inr (_, bad) ↦ absurd (ground arith)
  | inl (t, found) ↦ elim (Result-cases (Reminders.find_by_id cmd.reminder_id (tick w)).0) [
    | inr (_, bad) ↦ absurd (ground (arith, find_by_id-tick cmd.task_id w))
    | inl (r, loaded) ↦
        elim (Result-cases
          (apply_update r.kind cmd.offset_seconds cmd.trigger_at t.deadline_at r)) [
            | inr (_, bad) ↦ absurd (
                ground (
                  arith,
                  find_by_id-tick cmd.task_id w,
                  Laws.find_by_id-tick cmd.reminder_id (tick w),
                ))
            | inl (u, good) ↦
                let w' = tick (tick (tick w)) in
                elim (Result-cases (Reminders.update u w').0) [
                  | inr (_, bad) ↦ absurd (
                      ground (
                        arith,
                        find_by_id-tick cmd.task_id w,
                        Laws.find_by_id-tick cmd.reminder_id (tick w),
                      ))
                  | inl (u', updated) ↦
                      let (was_pending, state, id, task, kind) =
                        apply_update-kept r.kind cmd t.deadline_at r good in
                      let facts : (cmd.actor_id ≡ t.creator_id)
                          × (r.task_id ≡ cmd.task_id)
                          × (w.env.clock (suc (suc w.step)) <ℤ u.trigger_at)
                          × ((update_reminder cmd w).1.tables ≡ (Reminders.update u w').1.tables) =
                        ground (
                          arith,
                          find_by_id-tick cmd.task_id w,
                          Laws.find_by_id-tick cmd.reminder_id (tick w),
                        ) in
                      let (who, of_task, later, ends) = facts in
                      (
                        t,
                        r,
                        u,
                        found,
                        loaded,
                        who,
                        of_task,
                        was_pending,
                        state,
                        id,
                        task,
                        kind,
                        later,
                        rw (ends, (Laws.update-rows u w' updated).1) refl,
                      )
                ]
          ]
  ]
]

-- A deletion that succeeds was asked for by the creator of the task of the reminder, and takes away
-- the rows with its id, of which there is one.
pub delete_reminder-removes :
    (cmd : DeleteReminderCommand) (w : World)
    → (delete_reminder cmd w).0 ≡ ok tt
    → (t : Task) × (r : Reminder) × ((Tasks.find_by_id cmd.task_id w).0 ≡ ok t)
      × ((Reminders.find_by_id cmd.reminder_id (tick w)).0 ≡ ok r)
      × (cmd.actor_id ≡ t.creator_id)
      × (r.task_id ≡ cmd.task_id)
      × (count_rows (has_id cmd.reminder_id) w.tables.reminders ≡ 1)
      × ((delete_reminder cmd w).1.tables ≡ record (w.tables) {
        reminders = select (λ x. not (x.id == cmd.reminder_id)) w.tables.reminders;
      })
unfolding delete_reminder Reminders.delete
delete_reminder-removes cmd w h = elim (Result-cases (Tasks.find_by_id cmd.task_id w).0) [
  | inr (_, bad) ↦ absurd (ground arith)
  | inl (t, found) ↦ elim (Result-cases (Reminders.find_by_id cmd.reminder_id (tick w)).0) [
    | inr (_, bad) ↦ absurd (ground (arith, find_by_id-tick cmd.task_id w))
    | inl (r, loaded) ↦
        let facts : (cmd.actor_id ≡ t.creator_id)
            × (r.task_id ≡ cmd.task_id)
            × (count_rows (has_id cmd.reminder_id) w.tables.reminders ≡ 1)
            × ((delete_reminder cmd w).1.tables ≡ record (w.tables) {
              reminders = select (λ x. not (x.id == cmd.reminder_id)) w.tables.reminders;
            }) =
          ground
            (arith, find_by_id-tick cmd.task_id w, Laws.find_by_id-tick cmd.reminder_id (tick w)) in
        let (who, of_task, one, rows) = facts in (t, r, found, loaded, who, of_task, one, rows)
  ]
]
