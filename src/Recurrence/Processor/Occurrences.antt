-- ===== src/Recurrence/Processor/Occurrences.antt =====
-- What the processor generates from one series: a task, and a reminder for each rule.
use go_pet_project.Base.{
  ℕ, false, some, List, [], ◌∷◌, ◌++◌, ◌≡◌, sym, ap, arith, find, select, update_rows, count_rows,
  is_some, All2, inl, inr, ◌==◌,
}
use mathlib.Core.List.{append_assoc, append-nil}
use go_pet_project.Base.Sort.{order_by}
use go_pet_project.Time.{Time}
use go_pet_project.Errors.{ok, Result-cases, map_rows}
use go_pet_project.World.{World, Tables, tick, for_each}
use go_pet_project.Task.Status.{initial_status}
use go_pet_project.Task.Domain.{Task, new_task_occurrence}
use go_pet_project.Task.Invariant.{IsWellFormed}
use go_pet_project.Task.Repository as Tasks
use go_pet_project.Task.Repository.{conflicts}
use go_pet_project.Task.Repository.Laws.{create-appends}
use go_pet_project.Reminder.Domain.{
  Reminder, before_deadline, initial_state, new_before_deadline_reminder, trigger_before,
}
use go_pet_project.Reminder.Repository as Reminders
use go_pet_project.Reminder.Repository.Laws as Laws
use go_pet_project.Recurrence.Domain.{
  TaskSeries, ReminderRule, advance_after_occurrence, restore_reminder_rule,
}
use go_pet_project.Recurrence.Repository as Series
use go_pet_project.Recurrence.Repository.{rule_before, list_reminder_rules}
use go_pet_project.Recurrence.Processor.{create_reminder, create_task, advance}

-- The task of a series for its next deadline.
abbrev pub IsOccurrence : TaskSeries → Task → Type 0
IsOccurrence s t =
    (t.series_id ≡ some s.id)
    × (t.deadline_at ≡ some s.next_deadline_at)
    × (t.creator_id ≡ s.creator_id)
    × (t.assignee_id ≡ s.assignee_id)
    × (t.title ≡ s.title)
    × (t.description ≡ s.description)
    × (t.status ≡ initial_status)

new_task_occurrence-IsOccurrence :
    (id : ℕ) (s : TaskSeries) (at : Time) {t : Task}
    → new_task_occurrence id s.id s.creator_id s.assignee_id s.title s.description
        s.next_deadline_at at
      ≡ ok t
    → IsWellFormed t × IsOccurrence s t
unfolding new_task_occurrence
new_task_occurrence-IsOccurrence id s at h = ground arith

create-free :
    (t : Task) (w : World) {u : Task}
    → (Tasks.create t w).0 ≡ ok u
    → is_some (find (conflicts t) w.tables.tasks) ≡ false
unfolding Tasks.create Tasks.to_model
create-free t w h = ground arith

-- The task that is created is the occurrence, one row more, and no row was one already.
pub create_task-IsOccurrence :
    (s : TaskSeries) (at : Time) (w : World) {t : Task}
    → (create_task s at w).0 ≡ ok t
    → IsOccurrence s t
      × (is_some (find (conflicts t) w.tables.tasks) ≡ false)
      × ((create_task s at w).1.tables ≡ record (w.tables) { tasks = w.tables.tasks ++ t ∷ [] })
unfolding create_task
create_task-IsOccurrence s at w {t} h =
    let made =
      new_task_occurrence (w.env.uuid w.step) s.id s.creator_id s.assignee_id s.title s.description
        s.next_deadline_at at in
    elim (Result-cases made) [
      | inr (e, bad) ↦ absurd (ground arith)
      | inl (u, good) ↦
          let (wf, is) = new_task_occurrence-IsOccurrence (w.env.uuid w.step) s at good in
          let stored : (Tasks.create u (tick w)).0 ≡ ok t = rw good at h in
          let (same, rows) = create-appends u (tick w) wf stored in
          let free = create-free u (tick w) stored in rw (same, good) (is, free, rows)
    ]

-- The reminder of a rule.
abbrev pub IsReminderOf : ℕ → Time → ReminderRule → Reminder → Type 0
IsReminderOf task deadline rule r =
    (r.task_id ≡ task)
    × (r.kind ≡ before_deadline)
    × (r.offset_seconds ≡ some rule.offset_seconds)
    × (r.trigger_at ≡ trigger_before deadline rule.offset_seconds)
    × (r.state ≡ initial_state)

new_before_deadline_reminder-ok :
    (id task : ℕ) (deadline : Time) (rule : ReminderRule) (at : Time) {r : Reminder}
    → new_before_deadline_reminder id task deadline rule.offset_seconds at ≡ ok r
    → IsReminderOf task deadline rule r × (Reminders.to_domain r ≡ ok r)
unfolding new_before_deadline_reminder Reminders.to_domain
new_before_deadline_reminder-ok id task deadline rule at h = ground arith

create_reminder-ok :
    (task : ℕ) (deadline at : Time) (rule : ReminderRule) (w : World)
    → (create_reminder task deadline at rule w).0 ≡ ok tt
    → (r : Reminder) × IsReminderOf task deadline rule r
      × ((create_reminder task deadline at rule w).1.tables
          ≡ record (w.tables) { reminders = w.tables.reminders ++ r ∷ [] })
unfolding create_reminder
create_reminder-ok task deadline at rule w h =
    let made =
      new_before_deadline_reminder (w.env.uuid w.step) task deadline rule.offset_seconds at in
    elim (Result-cases made) [
      | inr (e, bad) ↦ absurd (ground arith)
      | inl (r, good) ↦ elim (Result-cases (Reminders.create r (tick w)).0) [
        | inr (e, bad) ↦ absurd (ground arith)
        | inl (u, stored) ↦
            let (is, kept) =
              new_before_deadline_reminder-ok (w.env.uuid w.step) task deadline rule at good in
            (r, is, rw (good, stored) (Laws.create-appends r (tick w) kept stored).1)
      ]
    ]

add_reminders : Tables → List Reminder → Tables
add_reminders db rs = record db { reminders = rs }

-- One reminder for each rule, in the order of the rules.
pub create_reminders-ok :
    (task : ℕ) (deadline at : Time) (rules : List ReminderRule) (w : World)
    → (for_each (create_reminder task deadline at) rules w).0 ≡ ok tt
    → (rs : List Reminder) × All2 (IsReminderOf task deadline) rules rs
      × ((for_each (create_reminder task deadline at) rules w).1.tables
          ≡ record (w.tables) { reminders = w.tables.reminders ++ rs })
unfolding for_each add_reminders
create_reminders-ok task deadline at [] w h =
    ([], tt, ap (add_reminders w.tables) (sym (append-nil w.tables.reminders)))
create_reminders-ok task deadline at (rule ∷ rules) w h =
    elim (Result-cases (create_reminder task deadline at rule w).0) [
      | inr (e, bad) ↦ absurd (ground arith)
      | inl (_, good) ↦
          let w' = (create_reminder task deadline at rule w).1 in
          let (r, is, row) = create_reminder-ok task deadline at rule w good in
          let (rs, are, rows) = create_reminders-ok task deadline at rules w' (rw good at h) in
          (
            r ∷ rs,
            (is, are),
            rw (good, rows, row)
                (ap (add_reminders w.tables) (append_assoc w.tables.reminders (r ∷ []) rs)),
          )
    ]

map_rows-rules :
    (rows : List ReminderRule) {rules : List ReminderRule}
    → map_rows restore_reminder_rule rows ≡ ok rules
    → rules ≡ rows
unfolding map_rows restore_reminder_rule
map_rows-rules [] h = ground arith
map_rows-rules (r ∷ rows) h = elim (Result-cases (map_rows restore_reminder_rule rows)) [
  | inr (e, bad) ↦ absurd (ground arith)
  | inl (rest, good) ↦ let same = map_rows-rules rows good in ground arith
]

-- The rules of a series, in their order.
abbrev pub rules_of : ℕ → Tables → List ReminderRule
rules_of series db = order_by rule_before (select (λ r. r.series_id == series) db.reminder_rules)

pub list_reminder_rules-ok :
    (series : ℕ) (w : World) {rules : List ReminderRule}
    → (list_reminder_rules series w).0 ≡ ok rules
    → (rules ≡ rules_of series w.tables) × ((list_reminder_rules series w).1 ≡ tick w)
unfolding list_reminder_rules
list_reminder_rules-ok series w {rules} h =
    ground (arith, map_rows-rules (rules_of series w.tables) {rules = rules})

update-rows :
    (s : TaskSeries) (w : World) {u : TaskSeries}
    → (Series.update s w).0 ≡ ok u
    → (count_rows (Series.has_id s.id) w.tables.task_series ≡ 1)
      × ((Series.update s w).1.tables ≡ record (w.tables) {
        task_series = update_rows (Series.has_id s.id) (Series.updated_row s) w.tables.task_series;
      })
unfolding Series.update Series.find_by_id
update-rows s w h = ground arith

pub advance-ok :
    (s : TaskSeries) (at : Time) (w : World)
    → (advance s at w).0 ≡ ok tt
    → (u : TaskSeries) × (advance_after_occurrence w.env.zones at s ≡ ok u)
      × (count_rows (Series.has_id u.id) w.tables.task_series ≡ 1)
      × ((advance s at w).1.tables ≡ record (w.tables) {
        task_series = update_rows (Series.has_id u.id) (Series.updated_row u) w.tables.task_series;
      })
unfolding advance
advance-ok s at w h = elim (Result-cases (advance_after_occurrence w.env.zones at s)) [
  | inr (e, bad) ↦ absurd (ground arith)
  | inl (u, good) ↦ elim (Result-cases (Series.update u w).0) [
    | inr (e, bad) ↦ absurd (ground arith)
    | inl (u', stored) ↦
        let (one, rows) = update-rows u w stored in (u, good, one, rw (good, stored) rows)
  ]
]
