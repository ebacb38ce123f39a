-- ===== src/Reminder/Domain.antt =====
-- internal/reminder/domain: kind.go, state.go and reminder.go. The two string types hold any text:
-- `unknown` is one that is none of the constants. A method that changes its receiver returns the
-- new reminder, or the error, on which the Go code leaves the receiver alone.
use text.Mathlib.Text.{◌==◌ as str_eq}
use go_pet_project.Base.{
  ℕ, String, Bool, true, false, not, ◌&&◌, ◌||◌, Option, none, some, if◌then◌else◌, ◌==◌, is_some,
}
use go_pet_project.Base.Int.{ℤ, pos, leb_ℤ}
use go_pet_project.Time.{Time, is_zero, before, add, minus_seconds}
use go_pet_project.Errors.{
  Result, ok, err, refuse_if, ◌>>◌, invalid_reminder_id, reminder_invalid_task_id, invalid_kind,
  invalid_offset_seconds, invalid_trigger_at, invalid_state, invalid_created_at, invalid_sent_at,
  invalid_reminder_fields, invalid_reminder_lifecycle, task_deadline_required,
}

pub data Kind : Type 0 where
  absolute before_deadline : Kind
  unknown : String → Kind

pub data State : Type 0 where
  pending sent cancelled : State
  unknown : String → State

abbrev pub initial_state : State
initial_state = pending

-- The conversions `Kind(value)`, `string(kind)`, `State(value)` and `string(state)`.
unfoldable pub to_kind : String → Kind
to_kind value =
    if str_eq value "ABSOLUTE"
    then absolute
    else if str_eq value "BEFORE_DEADLINE"
    then before_deadline
    else Kind.unknown value

unfoldable pub kind_text : Kind → String
kind_text absolute = "ABSOLUTE"
kind_text before_deadline = "BEFORE_DEADLINE"
kind_text (Kind.unknown value) = value

unfoldable pub to_state : String → State
to_state value =
    if str_eq value "PENDING"
    then pending
    else if str_eq value "SENT"
    then sent
    else if str_eq value "CANCELLED"
    then cancelled
    else State.unknown value

unfoldable pub state_text : State → String
state_text pending = "PENDING"
state_text sent = "SENT"
state_text cancelled = "CANCELLED"
state_text (State.unknown value) = value

abbrev pub is_valid_kind : Kind → Bool
is_valid_kind (Kind.unknown value) = false
is_valid_kind _ = true

abbrev pub is_valid_state : State → Bool
is_valid_state (State.unknown value) = false
is_valid_state _ = true

abbrev pub is_pending : State → Bool
is_pending pending = true
is_pending _ = false

abbrev pub is_sent : State → Bool
is_sent sent = true
is_sent _ = false

abbrev pub is_absolute : Kind → Bool
is_absolute absolute = true
is_absolute _ = false

abbrev pub is_before_deadline : Kind → Bool
is_before_deadline before_deadline = true
is_before_deadline _ = false

unfoldable pub parse_kind : String → Result Kind
unfolding to_kind
parse_kind value =
    let kind = to_kind value in if not (is_valid_kind kind) then err invalid_kind else ok kind

unfoldable pub parse_state : String → Result State
unfolding to_state
parse_state value =
    let state = to_state value in if not (is_valid_state state) then err invalid_state else ok state

-- `offset_seconds` is an `int64`.
pub record Reminder : Type 0 where
  pub id : ℕ
  pub task_id : ℕ
  pub kind : Kind
  pub offset_seconds : Option ℤ
  pub trigger_at : Time
  pub state : State
  pub created_at : Time
  pub sent_at : Option Time

abbrev pub is_not_positive : ℤ → Bool
is_not_positive n = leb_ℤ n (pos 0)

-- `offsetSeconds == nil || *offsetSeconds <= 0`
abbrev pub lacks_offset : Option ℤ → Bool
lacks_offset none = true
lacks_offset (some n) = is_not_positive n

unfoldable pub validate_kind_fields : Kind → Option ℤ → Result (Unit {0})
validate_kind_fields absolute offset = refuse_if (is_some offset) invalid_reminder_fields
validate_kind_fields before_deadline offset = refuse_if (lacks_offset offset) invalid_offset_seconds
validate_kind_fields (Kind.unknown value) offset = err invalid_kind

-- `sentAt != nil && sentAt.Before(createdAt)`
abbrev pub sent_before : Option Time → Time → Bool
sent_before none created = false
sent_before (some t) created = before t created

-- The arguments are the fields of the reminder to be.
unfoldable pub restore_reminder : Reminder → Result Reminder
unfolding validate_kind_fields
restore_reminder r = do
  refuse_if (r.id == 0) invalid_reminder_id
  refuse_if (r.task_id == 0) reminder_invalid_task_id
  refuse_if (not (is_valid_kind r.kind)) invalid_kind
  validate_kind_fields r.kind r.offset_seconds
  refuse_if (is_zero r.trigger_at) invalid_trigger_at
  refuse_if (is_zero r.created_at) invalid_created_at
  refuse_if (not (is_valid_state r.state)) invalid_state
  refuse_if (is_sent r.state && not (is_some r.sent_at)) invalid_sent_at
  refuse_if (not (is_sent r.state) && is_some r.sent_at) invalid_sent_at
  refuse_if (sent_before r.sent_at r.created_at) invalid_sent_at
  ok r

unfoldable pub new_absolute_reminder : ℕ → ℕ → Time → Time → Result Reminder
unfolding restore_reminder
new_absolute_reminder id task trigger created = restore_reminder (record {
  id = id;
  task_id = task;
  kind = absolute;
  offset_seconds = none;
  trigger_at = trigger;
  state = initial_state;
  created_at = created;
  sent_at = none;
})

-- `taskDeadline.Add(-time.Duration(offsetSeconds) * time.Second)`
unfoldable pub trigger_before : Time → ℤ → Time
unfolding add minus_seconds
trigger_before deadline offset = add deadline (minus_seconds offset)

unfoldable pub new_before_deadline_reminder : ℕ → ℕ → Time → ℤ → Time → Result Reminder
unfolding restore_reminder
new_before_deadline_reminder id task deadline offset created =
    if is_not_positive offset
    then err invalid_offset_seconds
    else restore_reminder (record {
      id = id;
      task_id = task;
      kind = before_deadline;
      offset_seconds = some offset;
      trigger_at = trigger_before deadline offset;
      state = initial_state;
      created_at = created;
      sent_at = none;
    })

unfoldable pub reschedule_absolute : Time → Reminder → Result Reminder
reschedule_absolute trigger r = do
  refuse_if (not (is_absolute r.kind)) invalid_reminder_fields
  refuse_if (not (is_pending r.state)) invalid_reminder_lifecycle
  refuse_if (is_zero trigger) invalid_trigger_at
  ok (record r { trigger_at = trigger })

unfoldable pub reschedule_before_deadline : Time → ℤ → Reminder → Result Reminder
reschedule_before_deadline deadline offset r = do
  refuse_if (not (is_before_deadline r.kind)) invalid_reminder_fields
  refuse_if (not (is_pending r.state)) invalid_reminder_lifecycle
  refuse_if (is_zero deadline) task_deadline_required
  refuse_if (is_not_positive offset) invalid_offset_seconds
  ok (record r { offset_seconds = some offset; trigger_at = trigger_before deadline offset })

-- The last branch of `recalculate_for_deadline`, where the offset has passed its test.
abbrev recalculated : Time → Option ℤ → Reminder → Result Reminder
recalculated deadline none r = err invalid_offset_seconds
recalculated deadline (some offset) r =
    if is_not_positive offset
    then err invalid_offset_seconds
    else ok (record r { trigger_at = trigger_before deadline offset })

unfoldable pub recalculate_for_deadline : Time → Reminder → Result Reminder
recalculate_for_deadline deadline r = if not (is_before_deadline r.kind) then ok r else do
  refuse_if (not (is_pending r.state)) invalid_reminder_lifecycle
  refuse_if (is_zero deadline) task_deadline_required
  recalculated deadline r.offset_seconds r

unfoldable pub mark_sent : Time → Reminder → Result Reminder
mark_sent now r = do
  refuse_if (not (is_pending r.state)) invalid_reminder_lifecycle
  refuse_if (is_zero now || before now r.created_at) invalid_sent_at
  ok (record r { state = sent; sent_at = some now })

-- The `switch` on the state.
abbrev cancel_from : State → Reminder → Result Reminder
cancel_from pending r = ok (record r { state = cancelled })
cancel_from cancelled r = ok r
cancel_from sent r = err invalid_reminder_lifecycle
cancel_from (State.unknown value) r = err invalid_state

unfoldable pub cancel : Reminder → Result Reminder
cancel r = cancel_from r.state r
