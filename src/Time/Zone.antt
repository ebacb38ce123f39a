-- ===== src/Time/Zone.antt =====
-- Go's `time.Location`, and `In`, `Date`, `AddDate` and `time.Date` of package time. The rules of a
-- zone come from the time zone database, so that they are a parameter: `lookup` gives the offset in
-- force at a second, and the seconds between which it is in force.
pub mod Readings
use go_pet_project.Base.{ℕ, suc, ◌+◌, ◌-◌, Bool, ◌||◌, if◌then◌else◌, ◌≡◌, refl, ◌*◌}
use go_pet_project.Base.Int.{
  ℤ, pos, negsuc, ◌+ℤ◌, ◌-ℤ◌, ◌*ℤ◌, ◌≤ℤ◌, ◌<ℤ◌, ltb_ℤ, leb_ℤ, eqb_ℤ, wrap64,
}
use go_pet_project.Time.{Time, second}
use go_pet_project.Time.Calendar.{Date, floor_div, floor_mod, day_number, date_of}

-- Seconds from 0001-01-01 00:00:00 UTC, and an offset in seconds.
pub record Span : Type 0 where
  pub offset : ℤ
  pub start : ℤ
  pub finish : ℤ

pub record Zone : Type 0 where
  pub lookup : ℤ → Span

-- What the database guarantees: a span that is found is in force all through.
pub record IsConsistent (z : Zone) : Type 0 where
  pub in_force :
      (s t : ℤ) → (z.lookup s).start ≤ℤ t → t <ℤ (z.lookup s).finish → z.lookup t ≡ z.lookup s

-- The nanoseconds of a second and of a day.
abbrev pub second_ns : ℕ
second_ns = 1000000000

abbrev pub day_ns : ℕ
day_ns = 86400000000000

-- The reading of the clocks of the zone, as if it were UTC.
unfoldable pub local : Zone → Time → ℤ
local z t = t +ℤ (z.lookup (floor_div t second_ns)).offset *ℤ second

-- `t.Date()` and `t.Clock()` with `t.Nanosecond()`, of the reading.
unfoldable pub date : Zone → Time → Date
date z t = date_of (floor_div (local z t) day_ns)

unfoldable pub clock : Zone → Time → ℕ
clock z t = floor_mod (local z t) day_ns

-- The end of `time.Date`: the instant of a reading.
unfoldable pub instant : Zone → ℤ → Time
instant z reading =
    let s = floor_div reading second_ns in
    let span = z.lookup s in
    let utc = s -ℤ span.offset in
    let offset =
      if ltb_ℤ utc span.start || leb_ℤ span.finish utc
      then (z.lookup utc).offset
      else span.offset in
    if eqb_ℤ span.offset (pos 0) then reading else reading -ℤ offset *ℤ second

-- Months out of range move the year.
abbrev pub normal : ℤ → ℤ → ℕ → Date
normal year month day = record {
  year = year +ℤ floor_div (month -ℤ pos 1) 12;
  month = suc (floor_mod (month -ℤ pos 1) 12);
  day = day;
}

-- `time.Date(year, month, day, …, z)`, where the day may lie outside of the month.
unfoldable pub reading_of : ℤ → ℤ → ℤ → ℕ → ℤ
reading_of year month day time_of_day =
    let first = normal year month 1 in
    day_number first.year first.month day *ℤ pos day_ns +ℤ pos time_of_day

unfoldable pub make_date : Zone → ℤ → ℤ → ℤ → ℕ → Time
make_date z year month day time_of_day = instant z (reading_of year month day time_of_day)

-- `t.AddDate(0, 0, days)`
unfoldable pub add_days : Zone → Time → ℤ → Time
unfolding date clock make_date
add_days z t days =
    let d = date z t in make_date z d.year (pos d.month) (pos d.day +ℤ days) (clock z t)

-- The zones of fixed offset.
abbrev pub fixed_zone : ℤ → Zone
fixed_zone offset = record {
  lookup = λ s. record {
    offset = offset;
    start = negsuc 9223372036854775807;
    finish = pos 9223372036854775807;
  };
}

abbrev pub utc : Zone
utc = fixed_zone (pos 0)

-- 2024-01-31 09:30, and 30 days later.
leap_march :
    add_days utc (pos (738915 * 86400000000000 + 34200000000000)) (pos 30)
    ≡ pos (738945 * 86400000000000 + 34200000000000)
unfolding add_days local instant reading_of day_number date_of ◌+ℤ◌ ◌-ℤ◌ ◌*ℤ◌
leap_march = refl
