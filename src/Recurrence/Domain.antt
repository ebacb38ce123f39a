-- ===== src/Recurrence/Domain.antt =====
-- internal/recurrence/domain: frequency.go, reminder_rule.go and series.go. `time.LoadLocation`
-- reads the time zone database, which is the argument `zones`. The interval is a Go `int`.
pub mod Deadlines
pub mod Months
use text.Mathlib.Text.{◌==◌ as str_eq}
use go_pet_project.Base.{
  ℕ, String, Bool, true, false, not, ◌||◌, Option, none, some, if◌then◌else◌, ◌==◌, ltb,
}
use go_pet_project.Base.Int.{ℤ, pos, pos_part, ◌+ℤ◌, ◌*ℤ◌, leb_ℤ, wrap64}
use go_pet_project.Base.Text.{Text, is_blank}
use go_pet_project.Time.{Time, is_zero, before, after}
use go_pet_project.Time.Zone.{Zone, date, clock, make_date, add_days}
use go_pet_project.Errors.{
  Result, ok, err, refuse_if, ◌>>=◌, ◌>>◌, recurrence_invalid_series_id,
  recurrence_invalid_creator_id, recurrence_invalid_assignee_id, recurrence_invalid_title,
  invalid_frequency, invalid_interval, invalid_next_deadline_at, recurrence_invalid_timezone,
  recurrence_invalid_timestamp, invalid_reminder_rule_id, recurrence_invalid_offset_seconds,
}

-- The string type holds any text: `unknown` is one that is none of the constants.
pub data Frequency : Type 0 where
  daily weekly monthly : Frequency
  unknown : String → Frequency

abbrev pub is_valid : Frequency → Bool
is_valid (unknown value) = false
is_valid _ = true

-- The conversions `Frequency(value)` and `string(frequency)`.
unfoldable pub to_frequency : String → Frequency
to_frequency value =
    if str_eq value "DAILY"
    then daily
    else if str_eq value "WEEKLY"
    then weekly
    else if str_eq value "MONTHLY"
    then monthly
    else unknown value

unfoldable pub frequency_text : Frequency → String
frequency_text daily = "DAILY"
frequency_text weekly = "WEEKLY"
frequency_text monthly = "MONTHLY"
frequency_text (unknown value) = value

unfoldable pub parse_frequency : String → Result Frequency
unfolding to_frequency
parse_frequency value =
    let frequency = to_frequency value in
    if not (is_valid frequency) then err invalid_frequency else ok frequency

pub record ReminderRule : Type 0 where
  pub id : ℕ
  pub series_id : ℕ
  pub offset_seconds : ℤ

unfoldable pub restore_reminder_rule : ReminderRule → Result ReminderRule
restore_reminder_rule r = do
  refuse_if (r.id == 0) invalid_reminder_rule_id
  refuse_if (r.series_id == 0) recurrence_invalid_series_id
  refuse_if (leb_ℤ r.offset_seconds (pos 0)) recurrence_invalid_offset_seconds
  ok r

-- `id` is the value of `uuid.New()`.
unfoldable pub new_reminder_rule : ℕ → ℕ → ℤ → Result ReminderRule
unfolding restore_reminder_rule
new_reminder_rule id series offset =
    restore_reminder_rule (record { id = id; series_id = series; offset_seconds = offset })

pub record TaskSeries : Type 0 where
  pub id : ℕ
  pub creator_id : ℕ
  pub assignee_id : ℕ
  pub title : Text
  pub description : Text
  pub frequency : Frequency
  pub interval : ℤ
  pub next_deadline_at : Time
  pub timezone : Text
  pub ends_at : Option Time
  pub is_active : Bool
  pub created_at : Time
  pub updated_at : Time

abbrev pub Zones : Type 0
Zones = Text → Option Zone

abbrev pub or_invalid_timezone : Option Zone → Result Zone
or_invalid_timezone none = err recurrence_invalid_timezone
or_invalid_timezone (some z) = ok z

unfoldable pub load_location : Zones → Text → Result Zone
load_location zones timezone =
    if is_blank timezone
    then err recurrence_invalid_timezone
    else or_invalid_timezone (zones timezone)

-- `endsAt != nil && endsAt.IsZero()`
abbrev pub ends_at_zero : Option Time → Bool
ends_at_zero none = false
ends_at_zero (some t) = is_zero t

-- The arguments are the fields of the series to be.
unfoldable pub restore_task_series : Zones → TaskSeries → Result TaskSeries
restore_task_series zones s = do
  refuse_if (s.id == 0) recurrence_invalid_series_id
  refuse_if (s.creator_id == 0) recurrence_invalid_creator_id
  refuse_if (s.assignee_id == 0) recurrence_invalid_assignee_id
  refuse_if (is_blank s.title) recurrence_invalid_title
  refuse_if (not (is_valid s.frequency)) invalid_frequency
  refuse_if (leb_ℤ s.interval (pos 0)) invalid_interval
  refuse_if (is_zero s.next_deadline_at) invalid_next_deadline_at
  _ ← load_location zones s.timezone
  refuse_if (is_zero s.created_at || is_zero s.updated_at || before s.updated_at s.created_at)
      recurrence_invalid_timestamp
  refuse_if (ends_at_zero s.ends_at) recurrence_invalid_timestamp
  ok s

-- `id` is the value of `uuid.New()`; the other arguments are the fields of the draft.
unfoldable pub new_task_series : Zones → ℕ → TaskSeries → Time → Result TaskSeries
unfolding restore_task_series
new_task_series zones id draft now = restore_task_series zones (record draft {
  id = id;
  assignee_id = if draft.assignee_id == 0 then draft.creator_id else draft.assignee_id;
  is_active = true;
  created_at = now;
  updated_at = now;
})

unfoldable pub add_calendar_months : Zone → Time → ℤ → Time
add_calendar_months z value months =
    let d = date z value in
    let time_of_day = clock z value in
    let first = date z (make_date z d.year (pos d.month +ℤ months) (pos 1) time_of_day) in
    let last = date z (make_date z first.year (pos first.month +ℤ pos 1) (pos 0) time_of_day) in
    let day = if ltb last.day d.day then last.day else d.day in
    make_date z first.year (pos first.month) (pos day) time_of_day

-- The `switch` on the frequency.
abbrev pub advanced : Frequency → Zone → Time → ℤ → Result Time
advanced daily z t interval = ok (add_days z t interval)
advanced weekly z t interval = ok (add_days z t (wrap64 (interval *ℤ pos 7)))
advanced monthly z t interval = ok (add_calendar_months z t interval)
advanced (unknown value) z t interval = err invalid_frequency

unfoldable pub next_deadline : Zones → TaskSeries → Time → Result Time
next_deadline zones s current = do
  refuse_if (is_zero current) invalid_next_deadline_at
  refuse_if (leb_ℤ s.interval (pos 0)) invalid_interval
  z ← load_location zones s.timezone
  advanced s.frequency z current s.interval

-- `s.EndsAt != nil && next.After(*s.EndsAt)`
abbrev pub is_past : Option Time → Time → Bool
is_past none next = false
is_past (some end) next = after next end

unfoldable pub advance_after_occurrence : Zones → Time → TaskSeries → Result TaskSeries
advance_after_occurrence zones now s = do
  next ← next_deadline zones s s.next_deadline_at
  ok (
      if is_past s.ends_at next
      then record s { is_active = false; updated_at = now }
      else record s { next_deadline_at = next; updated_at = now })
