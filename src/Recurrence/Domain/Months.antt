-- ===== src/Recurrence/Domain/Months.antt =====
-- `NextDeadline` of internal/recurrence/domain/series.go, for a series that moves by months.
use go_pet_project.Base.{ℕ, suc, ◌≤◌, ◌<◌, ◌≡◌, refl, ap, ◌∙◌, false, arith, ltb, if◌then◌else◌}
use go_pet_project.Base.Int.{ℤ, pos, negsuc, ◌+ℤ◌, ◌-ℤ◌, ◌*ℤ◌, ◌<ℤ◌}
use go_pet_project.Time.{Time, is_zero}
use go_pet_project.Time.Calendar.{
  Date, floor_div, floor_mod, is_leap, year_of_era, days_in_month, day_number,
}
use go_pet_project.Time.Calendar.Ordinal.{IsValid, day_number-date_of, date_of-day_number}
use go_pet_project.Time.Calendar.Months.{days_fit, last_day}
use go_pet_project.Time.Zone.{
  Zone, IsConsistent, day_ns, local, date, clock, normal, reading_of, make_date,
}
use go_pet_project.Time.Zone.Readings.{
  IsClear, local-instant, make_date-parts, split_day, month_in_range, day_parts,
}
use go_pet_project.Errors.{ok}
use go_pet_project.Recurrence.Domain.{
  monthly, TaskSeries, Zones, load_location, add_calendar_months, advanced, next_deadline,
}
use go_pet_project.Recurrence.Domain.Deadlines.{next_deadline-advanced}

-- The length of the month of a date.
abbrev pub length_of : Date → ℕ
length_of t = days_in_month (is_leap (year_of_era t.year)) t.month

-- The day of a date, cut to the length of a month.
abbrev pub cut_day : ℕ → ℕ → ℕ
cut_day day last = if ltb last day then last else day

-- The reading at a day of the month of `t`, at a time of the day.
abbrev pub reading_at : Date → ℕ → ℕ → ℤ
reading_at t day c = day_number t.year t.month (pos day) *ℤ pos day_ns +ℤ pos c

cut_day_bounds :
    (day last : ℕ) → 1 ≤ day → 1 ≤ last → (1 ≤ cut_day day last) × (cut_day day last ≤ last)
cut_day_bounds day last h k = ground arith

month_in : (m : ℤ) → (1 ≤ suc (floor_mod m 12)) × (suc (floor_mod m 12) ≤ 12)
month_in (pos m) = ground arith
month_in (negsuc m) = ground arith

-- A valid date of its month on another day of it.
on_day :
    (t : Date)
    → (1 ≤ t.month) × (t.month ≤ 12)
    → (day : ℕ) → 1 ≤ day
    → day ≤ length_of t
    → IsValid (record t { day = day })
on_day t m day h k = record { month_in = m; day_in = (h, k) }

date-clock : (z : Zone) (t : Time) → IsValid (date z t) × (clock z t < day_ns)
unfolding date clock
date-clock z t = ((day_number-date_of (floor_div (local z t) day_ns)).0, (split_day (local z t)).1)

-- A month of `normal` form is left alone.
normal_month :
    (t : Date) (day : ℕ)
    → (1 ≤ t.month) × (t.month ≤ 12)
    → normal t.year (pos t.month) day ≡ record t { day = day }
normal_month t day m =
    let (year, month) = month_in_range t.year t.month m.0 m.1 in rw (year, month) refl

reading_of_normal :
    (t : Date) (day c : ℕ)
    → (1 ≤ t.month) × (t.month ≤ 12)
    → reading_of t.year (pos t.month) (pos day) c ≡ reading_at t day c
unfolding reading_of
reading_of_normal t day c m =
    let (year, month) = month_in_range t.year t.month m.0 m.1 in rw (year, month) refl

-- The last day of a month, as `addCalendarMonths` finds it.
date-last_day :
    (z : Zone) (t : Date) (c : ℕ)
    → IsConsistent z
    → (1 ≤ t.month) × (t.month ≤ 12)
    → c < day_ns
    → IsClear z (reading_at t (length_of t) c)
    → date z (make_date z t.year (pos t.month +ℤ pos 1) (pos 0) c) ≡ record t { day = length_of t }
unfolding date make_date reading_of
date-last_day z t c laws m h clear =
    let last = reading_at t (length_of t) c in
    let (at, _) = day_parts (day_number t.year t.month (pos (length_of t))) c h in
    let v =
      on_day t m (length_of t)
        (omega (arith, days_fit (is_leap (year_of_era t.year)) t.month m.0 m.1)) (omega arith) in
    rw (last_day t.year t.month m.0 m.1, local-instant z last laws clear, at)
      (date_of-day_number (record t { day = length_of t }) v)

-- The date that is so many months on, on the same day or on the last of its month where this comes
-- first.
abbrev pub months_on : Date → ℤ → Date
months_on d months =
    let first = normal d.year (pos d.month +ℤ months) 1 in
    record first { day = cut_day d.day (length_of first) }

add_calendar_months-parts :
    (z : Zone) (t : Time) (months : ℤ)
    → IsConsistent z
    → IsClear z (reading_at (months_on (date z t) months) 1 (clock z t))
    → IsClear z (
        reading_at
          (months_on (date z t) months)
          (length_of (months_on (date z t) months))
          (clock z t))
    → IsClear z
        (reading_at (months_on (date z t) months) (months_on (date z t) months).day (clock z t))
    → (date z (add_calendar_months z t months) ≡ months_on (date z t) months)
      × (clock z (add_calendar_months z t months) ≡ clock z t)
unfolding add_calendar_months
add_calendar_months-parts z t months laws clear_first clear_last clear_day =
    let d = date z t in
    let c = clock z t in
    let (v, h) = date-clock z t in
    let first = normal d.year (pos d.month +ℤ months) 1 in
    let m = month_in (pos d.month +ℤ months -ℤ pos 1) in
    let long = days_fit (is_leap (year_of_era first.year)) first.month m.0 m.1 in
    let day = cut_day d.day (length_of first) in
    let (low, high) = cut_day_bounds d.day (length_of first) v.day_in.0 (omega arith) in
    let at_first =
      make_date-parts z d.year (pos d.month +ℤ months) 1 c laws
        (on_day first m 1 (omega arith) (omega arith)) h (unfold reading_of in clear_first) in
    let at_last = date-last_day z first c laws m h clear_last in
    let at_day =
      make_date-parts z first.year (pos first.month) day c laws
        (rw (normal_month first day m) (on_day first m day low high)) h
        (rw (reading_of_normal first day c m) clear_day) in
    rw (at_first.0, at_last) (at_day.0 ∙ normal_month first day m, at_day.1)

-- A series by months moves on by as many months, on the same day, or on the last of the month where
-- this comes first, with the same clock, where the zone is not about to change at the readings that
-- are made on the way: those of the first, of the last and of the new day of the month.
pub next_deadline-months :
    (zones : Zones) (s : TaskSeries) (current : Time) (z : Zone)
    → load_location zones s.timezone ≡ ok z
    → IsConsistent z
    → s.frequency ≡ monthly
    → pos 0 <ℤ s.interval
    → is_zero current ≡ false
    → IsClear z (reading_at (months_on (date z current) s.interval) 1 (clock z current))
    → IsClear z (
        reading_at
          (months_on (date z current) s.interval)
          (length_of (months_on (date z current) s.interval))
          (clock z current))
    → IsClear z (
        reading_at
          (months_on (date z current) s.interval)
          (months_on (date z current) s.interval).day
          (clock z current))
    → (next : Time) × (next_deadline zones s current ≡ ok next)
      × (date z next ≡ months_on (date z current) s.interval)
      × (clock z next ≡ clock z current)
next_deadline-months zones s current z found laws by_month positive there first last day =
    let (at, rest) = add_calendar_months-parts z current s.interval laws first last day in
    (
      add_calendar_months z current s.interval,
      next_deadline-advanced zones s current z found positive there
          ∙ ap (λ f. advanced f z current s.interval) by_month,
      at,
      rest,
    )
