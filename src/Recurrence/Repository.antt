-- ===== src/Recurrence/Repository.antt =====
-- internal/recurrence/adapter/out/postgres: mapper.go and repository.go. A row of the table
-- task_series is the series with its frequency as a text; CHECK constraints refuse a frequency that
-- is none of the constants, and numbers that are not positive.
use go_pet_project.Base.{
  ℕ, Bool, not, ◌&&◌, ◌||◌, List, [], ◌∷◌, ◌++◌, ◌==◌, leb, if◌then◌else◌, find, select, take,
  length, update_rows, count_rows, is_some,
}
use go_pet_project.Base.Int.{ℤ, pos, pos_part, ltb_ℤ, leb_ℤ, eqb_ℤ}
use go_pet_project.Base.Sort.{order_by}
use go_pet_project.Time.{Time}
use go_pet_project.Errors.{
  Result, err, map_rows, invalid_frequency, series_not_found, database, limit_not_positive,
}
use go_pet_project.World.{
  Action, Tables, ◌>>=◌, ◌>>◌, pure, raise, lift, gets, or_raise, modify, refuse_when, statement,
  locked_rows, transaction,
}
use go_pet_project.Recurrence.Domain.{
  Zones, TaskSeries, ReminderRule, is_valid, restore_task_series, restore_reminder_rule,
}

abbrev pub has_id : ℕ → TaskSeries → Bool
has_id id s = s.id == id

-- `seriesToDomain`
unfoldable pub to_domain : Zones → TaskSeries → Result TaskSeries
to_domain zones row =
    if not (is_valid row.frequency) then err invalid_frequency else restore_task_series zones row

abbrev pub mapped : TaskSeries → Action TaskSeries
mapped row w = lift (to_domain w.env.zones row) w

-- The CHECK constraints of the table.
abbrev pub is_refused : TaskSeries → Bool
is_refused s = not (is_valid s.frequency) || leb_ℤ s.interval (pos 0)

unfoldable pub create : TaskSeries → Action TaskSeries
create s = do
  statement
  refuse_when (is_refused s) database
  taken ← gets (λ db. is_some (find (has_id s.id) db.task_series))
  refuse_when taken database
  modify (λ db. record db { task_series = db.task_series ++ s ∷ [] })
  mapped s

unfoldable pub find_by_id : ℕ → Action TaskSeries
find_by_id id = do
  statement
  found ← gets (λ db. find (has_id id) db.task_series)
  row ← or_raise found series_not_found
  mapped row

-- The columns that the UPDATE sets.
abbrev pub updated_row : TaskSeries → TaskSeries → TaskSeries
updated_row model row = record row {
  creator_id = model.creator_id;
  assignee_id = model.assignee_id;
  title = model.title;
  description = model.description;
  frequency = model.frequency;
  interval = model.interval;
  next_deadline_at = model.next_deadline_at;
  timezone = model.timezone;
  ends_at = model.ends_at;
  is_active = model.is_active;
  updated_at = model.updated_at;
}

unfoldable pub update : TaskSeries → Action TaskSeries
update s = do
  statement
  affected ← gets (λ db. count_rows (has_id s.id) db.task_series)
  refuse_when (not (affected == 0) && is_refused s) database
  modify
      (λ db. record db { task_series = update_rows (has_id s.id) (updated_row s) db.task_series })
  refuse_when (not (affected == 1)) series_not_found
  find_by_id s.id

-- ORDER BY next_deadline_at ASC, id ASC
abbrev pub due_before : TaskSeries → TaskSeries → Bool
due_before r s =
    ltb_ℤ r.next_deadline_at s.next_deadline_at
    || (eqb_ℤ r.next_deadline_at s.next_deadline_at && leb r.id s.id)

-- `is_active = true AND next_deadline_at <= now`, and not locked by another transaction.
abbrev pub is_due : Time → (ℕ → Bool) → TaskSeries → Bool
is_due now locked s = s.is_active && leb_ℤ s.next_deadline_at now && not (locked s.id)

unfoldable pub due_rows : Time → ℤ → (ℕ → Bool) → Tables → List TaskSeries
due_rows now limit locked db =
    take (pos_part limit) (order_by due_before (select (is_due now locked) db.task_series))

abbrev pub all_mapped : List TaskSeries → Action (List TaskSeries)
all_mapped rows w = lift (map_rows (to_domain w.env.zones) rows) w

abbrev pub when_any : (List TaskSeries → Action (Unit {0})) → List TaskSeries → Action (Unit {0})
when_any handle [] = pure tt
when_any handle (s ∷ ss) = handle (s ∷ ss)

-- The function of the transaction.
abbrev pub claim_in : Time → ℤ → (List TaskSeries → Action (Unit {0})) → Action ℕ
claim_in now limit handle = do
  statement
  locked ← locked_rows
  rows ← gets (due_rows now limit locked)
  due ← all_mapped rows
  when_any handle due
  pure (length due)

unfoldable pub claim_due : Time → ℤ → (List TaskSeries → Action (Unit {0})) → Action ℕ
claim_due now limit handle =
    if leb_ℤ limit (pos 0)
    then raise limit_not_positive
    else transaction (claim_in now limit handle)

-- ORDER BY offset_seconds ASC, id ASC
abbrev pub rule_before : ReminderRule → ReminderRule → Bool
rule_before r s =
    ltb_ℤ r.offset_seconds s.offset_seconds
    || (eqb_ℤ r.offset_seconds s.offset_seconds && leb r.id s.id)

unfoldable pub list_reminder_rules : ℕ → Action (List ReminderRule)
list_reminder_rules series = do
  statement
  rows ← gets (λ db. order_by rule_before (select (λ r. r.series_id == series) db.reminder_rules))
  lift (map_rows restore_reminder_rule rows)

unfoldable pub create_reminder_rule : ReminderRule → Action ReminderRule
create_reminder_rule r = do
  statement
  refuse_when (leb_ℤ r.offset_seconds (pos 0)) database
  taken ← gets (λ db. is_some (find (λ s. s.id == r.id) db.reminder_rules))
  refuse_when taken database
  modify (λ db. record db { reminder_rules = db.reminder_rules ++ r ∷ [] })
  lift (restore_reminder_rule r)
