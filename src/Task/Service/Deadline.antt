-- ===== src/Task/Service/Deadline.antt =====
-- `UpdateTask` of internal/task/application/service/task_service.go keeps the pending relative
-- reminders of a task in step with its deadline.
use go_pet_project.Base.{
  ℕ, suc, Bool, ◌≡◌, refl, sym, ap, ◌∙◌, arith, true, false, Option, some, none, inl, inr, List, [],
  ◌∷◌, All, update_rows, find, is_some, Bool-cases, if◌then◌else◌,
}
use go_pet_project.Base.Int.{ℤ}
use go_pet_project.Time.{Time}
use go_pet_project.Errors.{ok}
use go_pet_project.World.{World, Tables, tick}
use go_pet_project.World.Frames.{transaction-ok}
use go_pet_project.Task.Domain.{Task}
use go_pet_project.Task.Repository as Tasks
use go_pet_project.Task.Repository.{has_id, updated_row}
use go_pet_project.Task.Repository.Laws.{find_by_id-ok, update-tables, update-returns}
use go_pet_project.Reminder.Domain.{Reminder}
use go_pet_project.Reminder.Repository as ReminderRows
use go_pet_project.Reminder.Repository.{is_pending_relative, sql_trigger, recalculated_row}
use go_pet_project.Reminder.Service as Reminders
use go_pet_project.Task.Service.{UpdateTaskCommand, update_task, update_task_in, save_update}
use go_pet_project.Task.Service.Edits.{update_task_in-saves}

-- Without a deadline no relative reminder is pending; with one, each pending relative reminder
-- triggers its offset before it.
abbrev pub InStep : ℕ → Option Time → Reminder → Type 0
InStep task none r = is_pending_relative task r ≡ false
InStep task (some deadline) r =
    is_pending_relative task r ≡ true
    → r.trigger_at ≡ sql_trigger deadline r.offset_seconds r.trigger_at

sql_trigger_idem :
    (deadline : Time) (offset : Option ℤ) (t : Time)
    → sql_trigger deadline offset t ≡ sql_trigger deadline offset (sql_trigger deadline offset t)
unfolding sql_trigger
sql_trigger_idem deadline (some offset) t = refl
sql_trigger_idem deadline none t = refl

abbrev recalculated_if_pending : ℕ → Time → Reminder → Reminder
recalculated_if_pending task deadline r =
    if is_pending_relative task r then recalculated_row deadline r else r

recalculated_if_pending-InStep :
    (task : ℕ) (deadline : Time) (r : Reminder)
    → InStep task (some deadline) (recalculated_if_pending task deadline r)
recalculated_if_pending-InStep task deadline r = elim (Bool-cases (is_pending_relative task r)) [
  | inl relative ↦ rw relative (λ _. sql_trigger_idem deadline r.offset_seconds r.trigger_at)
  | inr other ↦ rw other (λ relative. absurd (ground arith))
]

recalculated_rows-InStep :
    (task : ℕ) (deadline : Time) (rs : List Reminder)
    → All
        (InStep task (some deadline))
        (update_rows (is_pending_relative task) (recalculated_row deadline) rs)
recalculated_rows-InStep task deadline [] = tt
recalculated_rows-InStep task deadline (r ∷ rs) =
    (recalculated_if_pending-InStep task deadline r, recalculated_rows-InStep task deadline rs)

none_relative :
    (task : ℕ) (rs : List Reminder)
    → is_some (find (is_pending_relative task) rs) ≡ false
    → All (InStep task none) rs
none_relative task [] h = tt
none_relative task (r ∷ rs) h = (ground arith, none_relative task rs (ground arith))

-- What `save_update` leaves behind, by whether the deadline was changed.
module _ (t : Task) (w : World) {u : Task} where
  save_update-kept :
      (changed : Bool) (old : Option Time)
      → t.deadline_at ≡ old
      → All (InStep t.id old) w.tables.reminders
      → (save_update (t, changed, false) w).0 ≡ ok u
      → (u.deadline_at ≡ old)
        × All (InStep t.id u.deadline_at) (save_update (t, changed, false) w).1.tables.reminders
  unfolding save_update
  save_update-kept false old e h r = let p : u.deadline_at ≡ old = ground arith in (p, rw p h)
  save_update-kept true old e h r =
      let (_, kept, _) = update-returns t w r in
      let p = kept ∙ e in (p, rw (p, update-tables t w r) h)

  save_update-moved :
      (deadline : Option Time)
      → t.deadline_at ≡ deadline
      → (save_update (t, true, true) w).0 ≡ ok u
      → (u.deadline_at ≡ deadline)
        × All (InStep t.id u.deadline_at) (save_update (t, true, true) w).1.tables.reminders
  unfolding save_update Reminders.recalculate_pending_before_deadline
      ReminderRows.has_pending_before_deadline ReminderRows.recalculate_pending_before_deadline
  save_update-moved none e r =
      let ready = record w { step = suc w.step } in
      let written : (Tasks.update t ready).0 ≡ ok u = ground arith in
      let same : (save_update (t, true, true) w).1.tables ≡ (Tasks.update t ready).1.tables =
        ground arith in
      let (_, kept, _) = update-returns t ready written in
      let p = kept ∙ e in
      (
        p,
        rw (p, same, update-tables t ready written)
            (none_relative t.id w.tables.reminders (ground arith)),
      )
  save_update-moved (some deadline) e r =
      let ready = record w {
        tables = record (w.tables) {
          reminders =
              update_rows (is_pending_relative t.id) (recalculated_row deadline) w.tables.reminders;
        };
        step = suc w.step;
      } in
      let written : (Tasks.update t ready).0 ≡ ok u = ground arith in
      let same : (save_update (t, true, true) w).1.tables ≡ (Tasks.update t ready).1.tables =
        ground arith in
      let (_, kept, _) = update-returns t ready written in
      let p = kept ∙ e in
      (
        p,
        rw (p, same, update-tables t ready written)
            (recalculated_rows-InStep t.id deadline w.tables.reminders),
      )

saved-InStep :
    (id : ℕ) (u : Task) (w : World) (c moved : Bool) (old : Option Time) {v : Task}
    → u.id ≡ id
    → (moved ≡ false → u.deadline_at ≡ old)
    → (moved ≡ true → c ≡ true)
    → All (InStep id old) w.tables.reminders
    → (save_update (u, c, moved) w).0 ≡ ok v
    → All (InStep id v.deadline_at) (save_update (u, c, moved) w).1.tables.reminders
saved-InStep id u w c false old e kept changed h r =
    rw (sym e) (save_update-kept u w c old (kept refl) (rw e h) r).1
saved-InStep id u w true true old e kept changed h r =
    rw (sym e) (save_update-moved u w u.deadline_at refl r).1
saved-InStep id u w false true old e kept changed h r = absurd (ground (arith, changed refl))

-- An update that succeeds keeps the pending relative reminders in step with the deadline of the
-- task: it recalculates them for a new deadline, and refuses to take the deadline away from them.
pub update_task-InStep :
    (cmd : UpdateTaskCommand) (w : World) {t v : Task}
    → (Tasks.find_by_id cmd.task_id (tick w)).0 ≡ ok t
    → All (InStep cmd.task_id t.deadline_at) w.tables.reminders
    → (update_task cmd w).0 ≡ ok v
    → All (InStep cmd.task_id v.deadline_at) (update_task cmd w).1.tables.reminders
unfolding update_task
update_task-InStep cmd w {t} {v} found in_step h =
    let (inner, same) = transaction-ok (update_task_in cmd) w h in
    let (t', u, c, moved, w', found', (keeps_id, kept, changed, db), saves) =
      update_task_in-saves cmd (tick w) inner in
    let one : t' ≡ t = ground arith in
    let (named, _) = find_by_id-ok cmd.task_id (tick w) found' in
    let saved : (save_update (u, c, moved) w').0 ≡ ok v = rw (sym saves) inner in
    rw (same, saves)
      (saved-InStep cmd.task_id u w' c moved t.deadline_at (keeps_id ∙ named)
        (λ still. kept still ∙ ap (λ (x : Task). x.deadline_at) one) changed
        (rw (ap (λ (x : Tables). x.reminders) db) in_step) saved)
