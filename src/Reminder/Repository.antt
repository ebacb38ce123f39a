-- ===== src/Reminder/Repository.antt =====
-- internal/reminder/adapter/out/postgres: mapper.go and repository.go. A row of the table
-- reminders is the reminder with its kind and its state as texts.
pub mod Laws
use go_pet_project.Base.{
  ℕ, Bool, not, ◌&&◌, ◌||◌, Option, none, some, List, [], ◌∷◌, ◌++◌, ◌==◌, leb, if◌then◌else◌, find,
  select, take, length, update_rows, count_rows, is_some,
}
use go_pet_project.Base.Int.{ℤ, pos_part, ◌-ℤ◌, ◌*ℤ◌, ltb_ℤ, leb_ℤ, eqb_ℤ}
use go_pet_project.Base.Sort.{order_by}
use go_pet_project.Time.{Time, second}
use go_pet_project.Errors.{
  Result, err, map_rows, invalid_kind, invalid_state, reminder_not_found, database,
  limit_not_positive,
}
use go_pet_project.World.{
  Action, Tables, ◌>>=◌, ◌>>◌, pure, raise, lift, gets, or_raise, modify, refuse_when, statement,
  locked_rows, transaction,
}
use go_pet_project.Reminder.Domain.{
  Reminder, cancelled, is_valid_kind, is_valid_state, is_pending, is_before_deadline,
  is_not_positive, restore_reminder,
}

abbrev pub has_id : ℕ → Reminder → Bool
has_id id r = r.id == id

unfoldable pub to_domain : Reminder → Result Reminder
to_domain row =
    if not (is_valid_kind row.kind)
    then err invalid_kind
    else if not (is_valid_state row.state)
    then err invalid_state
    else restore_reminder row

unfoldable pub create : Reminder → Action Reminder
create r = do
  statement
  taken ← gets (λ db. is_some (find (has_id r.id) db.reminders))
  refuse_when taken database
  modify (λ db. record db { reminders = db.reminders ++ r ∷ [] })
  lift (to_domain r)

unfoldable pub find_by_id : ℕ → Action Reminder
find_by_id id = do
  statement
  found ← gets (λ db. find (has_id id) db.reminders)
  row ← or_raise found reminder_not_found
  lift (to_domain row)

-- ORDER BY trigger_at ASC, created_at ASC, id ASC
abbrev pub listed_before : Reminder → Reminder → Bool
listed_before r s =
    ltb_ℤ r.trigger_at s.trigger_at
    || (eqb_ℤ r.trigger_at s.trigger_at
        && (ltb_ℤ r.created_at s.created_at || (eqb_ℤ r.created_at s.created_at && leb r.id s.id)))

unfoldable pub list_by_task_id : ℕ → Action (List Reminder)
list_by_task_id task = do
  statement
  rows ← gets (λ db. order_by listed_before (select (λ r. r.task_id == task) db.reminders))
  lift (map_rows to_domain rows)

-- The columns that the UPDATE sets.
abbrev pub updated_row : Reminder → Reminder → Reminder
updated_row model row = record row {
  kind = model.kind;
  offset_seconds = model.offset_seconds;
  trigger_at = model.trigger_at;
  state = model.state;
  sent_at = model.sent_at;
}

unfoldable pub update : Reminder → Action Reminder
update r = do
  statement
  affected ← gets (λ db. count_rows (has_id r.id) db.reminders)
  modify (λ db. record db { reminders = update_rows (has_id r.id) (updated_row r) db.reminders })
  refuse_when (not (affected == 1)) reminder_not_found
  find_by_id r.id

unfoldable pub delete : ℕ → Action (Unit {0})
delete id = do
  statement
  affected ← gets (λ db. count_rows (has_id id) db.reminders)
  modify (λ db. record db { reminders = select (λ r. not (r.id == id)) db.reminders })
  refuse_when (not (affected == 1)) reminder_not_found

-- `task_id = ? AND kind = 'BEFORE_DEADLINE' AND state = 'PENDING'`
abbrev pub is_pending_relative : ℕ → Reminder → Bool
is_pending_relative task r = r.task_id == task && is_before_deadline r.kind && is_pending r.state

unfoldable pub has_pending_before_deadline : ℕ → Action Bool
has_pending_before_deadline task = do
  statement
  gets (λ db. is_some (find (is_pending_relative task) db.reminders))

-- `deadline - (offset_seconds * INTERVAL '1 second')`: no `int64` is involved, so nothing wraps. A
-- null offset makes the trigger null, which the column refuses (below).
unfoldable pub sql_trigger : Time → Option ℤ → Time → Time
sql_trigger deadline none trigger = trigger
sql_trigger deadline (some offset) trigger = deadline -ℤ offset *ℤ second

abbrev pub recalculated_row : Time → Reminder → Reminder
recalculated_row deadline r = record r {
  trigger_at = sql_trigger deadline r.offset_seconds r.trigger_at;
}

unfoldable pub recalculate_pending_before_deadline : ℕ → Time → Action (Unit {0})
recalculate_pending_before_deadline task deadline = do
  statement
  nulls ← gets (λ db.
      is_some
        (find (λ r. is_pending_relative task r && not (is_some r.offset_seconds)) db.reminders))
  refuse_when nulls database
  modify (λ db. record db {
    reminders = update_rows (is_pending_relative task) (recalculated_row deadline) db.reminders;
  })

-- `task_id = ? AND state = 'PENDING'`
abbrev pub is_pending_of : ℕ → Reminder → Bool
is_pending_of task r = r.task_id == task && is_pending r.state

abbrev pub cancelled_row : Reminder → Reminder
cancelled_row r = record r { state = cancelled }

unfoldable pub cancel_pending_by_task_id : ℕ → Action (Unit {0})
cancel_pending_by_task_id task = do
  statement
  modify
      (λ db. record db { reminders = update_rows (is_pending_of task) cancelled_row db.reminders })

-- ORDER BY trigger_at ASC, id ASC
abbrev pub due_before : Reminder → Reminder → Bool
due_before r s =
    ltb_ℤ r.trigger_at s.trigger_at || (eqb_ℤ r.trigger_at s.trigger_at && leb r.id s.id)

-- `state = 'PENDING' AND trigger_at <= now`, and not locked by another transaction.
abbrev pub is_due : Time → (ℕ → Bool) → Reminder → Bool
is_due now locked r = is_pending r.state && leb_ℤ r.trigger_at now && not (locked r.id)

unfoldable pub due_rows : Time → ℤ → (ℕ → Bool) → Tables → List Reminder
due_rows now limit locked db =
    take (pos_part limit) (order_by due_before (select (is_due now locked) db.reminders))

abbrev pub when_any : (List Reminder → Action (Unit {0})) → List Reminder → Action (Unit {0})
when_any handle [] = pure tt
when_any handle (r ∷ rs) = handle (r ∷ rs)

-- The function of the transaction.
abbrev pub claim_in : Time → ℤ → (List Reminder → Action (Unit {0})) → Action ℕ
claim_in now limit handle = do
  statement
  locked ← locked_rows
  rows ← gets (due_rows now limit locked)
  due ← lift (map_rows to_domain rows)
  when_any handle due
  pure (length due)

-- The number that is returned is the number of reminders that were handed on.
unfoldable pub claim_due : Time → ℤ → (List Reminder → Action (Unit {0})) → Action ℕ
claim_due now limit handle =
    if is_not_positive limit
    then raise limit_not_positive
    else transaction (claim_in now limit handle)
