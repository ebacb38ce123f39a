-- ===== src/Recurrence/Processor/Processed.antt =====
-- `processOne` and `ProcessDue` of internal/recurrence/application/service/processor.go.
use go_pet_project.Base.{
  ℕ, false, List, [], ◌∷◌, ◌++◌, ◌≡◌, refl, ap, ◌∙◌, arith, find, update_rows, count_rows, is_some,
  All2, inl, inr, subst,
}
use go_pet_project.Time.{Time}
use go_pet_project.Errors.{ok, Result-cases}
use go_pet_project.World.{World, Tables, tick, for_each}
use go_pet_project.World.Loops.{IsPreorder, for_each-keeps}
use go_pet_project.Task.Domain.{Task}
use go_pet_project.Task.Repository as Tasks
use go_pet_project.Task.Repository.{conflicts}
use go_pet_project.Reminder.Domain.{Reminder}
use go_pet_project.Reminder.Repository as Reminders
use go_pet_project.Recurrence.Domain.{TaskSeries, ReminderRule, Zones, advance_after_occurrence}
use go_pet_project.Recurrence.Repository.{has_id, updated_row, list_reminder_rules}
use go_pet_project.Recurrence.Processor.{create_reminder, create_task, advance, process_one}
use go_pet_project.Recurrence.Processor.Occurrences.{
  IsOccurrence, IsReminderOf, rules_of, create_task-IsOccurrence, create_reminders-ok,
  list_reminder_rules-ok, advance-ok,
}

-- What the processing of a series, at this time, has done to the tables.
abbrev pub IsProcessed : Zones → TaskSeries → Time → Tables → Tables → Type 0
IsProcessed zones s at db after =
    (t : Task) × (rs : List Reminder) × (u : TaskSeries) × IsOccurrence s t
    × (is_some (find (conflicts t) db.tasks) ≡ false)
    × All2 (IsReminderOf t.id s.next_deadline_at) (rules_of s.id db) rs
    × (advance_after_occurrence zones at s ≡ ok u)
    × (count_rows (has_id u.id) db.task_series ≡ 1)
    × (after ≡ record db {
      tasks = db.tasks ++ t ∷ [];
      reminders = db.reminders ++ rs;
      task_series = update_rows (has_id u.id) (updated_row u) db.task_series;
    })

abbrev KeepsEnv : World → World → Type 0
KeepsEnv w w' = w'.env ≡ w.env

KeepsEnv-IsPreorder : IsPreorder KeepsEnv
KeepsEnv-IsPreorder = record { stays = λ w. refl; composes = λ p q. q ∙ p }

env-create_task : (s : TaskSeries) (at : Time) (w : World) → KeepsEnv w (create_task s at w).1
unfolding create_task Tasks.create
env-create_task s at w = ground arith

env-create_reminders :
    (task : ℕ) (deadline at : Time) (rules : List ReminderRule) (w : World)
    → KeepsEnv w (for_each (create_reminder task deadline at) rules w).1
unfolding create_reminder Reminders.create
env-create_reminders task deadline at rules w =
    for_each-keeps KeepsEnv (create_reminder task deadline at) KeepsEnv-IsPreorder
      (λ r w'. ground arith) rules w

pub process_one-IsProcessed :
    (s : TaskSeries) (w : World)
    → (process_one s w).0 ≡ ok tt
    → IsProcessed w.env.zones s (w.env.clock w.step) w.tables (process_one s w).1.tables
unfolding process_one
process_one-IsProcessed s w h =
    let at = w.env.clock w.step in
    let w0 = tick w in
    elim (Result-cases (create_task s at w0).0) [
      | inr (e, bad) ↦ absurd (ground arith)
      | inl (t, created) ↦
          let w1 = (create_task s at w0).1 in
          elim (Result-cases (list_reminder_rules s.id w1).0) [
            | inr (e, bad) ↦ absurd (ground arith)
            | inl (rules, listed) ↦
                let (are_rules, unchanged) = list_reminder_rules-ok s.id w1 listed in
                let act = create_reminder t.id s.next_deadline_at at in
                elim (Result-cases (for_each act rules (tick w1)).0) [
                  | inr (e, bad) ↦ absurd (ground arith)
                  | inl (_, made) ↦
                      let w2 = (for_each act rules (tick w1)).1 in
                      let moved : (advance s at w2).0 ≡ ok tt =
                        rw (created, listed, unchanged, made) at h in
                      let (is, free, task_row) = create_task-IsOccurrence s at w0 created in
                      let (rs, reminders, reminder_rows) =
                        create_reminders-ok t.id s.next_deadline_at at rules (tick w1) made in
                      let (u, advanced, one, series_rows) = advance-ok s at w2 moved in
                      let written : w2.tables ≡ record (w.tables) {
                        tasks = w.tables.tasks ++ t ∷ [];
                        reminders = w.tables.reminders ++ rs;
                      } =
                        reminder_rows
                        ∙ ap (λ (db : Tables). record db { reminders = db.reminders ++ rs })
                            task_row in
                      let same_env =
                        env-create_reminders t.id s.next_deadline_at at rules (tick w1)
                        ∙ env-create_task s at w0 in
                      (
                        t,
                        rs,
                        u,
                        is,
                        free,
                        subst (λ l. All2 (IsReminderOf t.id s.next_deadline_at) l rs)
                            (are_rules ∙ ap (rules_of s.id) task_row) reminders,
                        subst (λ e. advance_after_occurrence e.zones at s ≡ ok u) same_env advanced,
                        subst (λ db. count_rows (has_id u.id) db.task_series ≡ 1) written one,
                        rw (created, listed, unchanged, made)
                            (series_rows
                              ∙ ap
                                  (λ (db : Tables). record db {
                                    task_series =
                                        update_rows (has_id u.id) (updated_row u) db.task_series;
                                  })
                                  written),
                      )
                ]
          ]
    ]
