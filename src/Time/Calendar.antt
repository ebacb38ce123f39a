-- ===== src/Time/Calendar.antt =====
-- The Gregorian calendar of Go's package time, extended to all years. A day is numbered from
-- 0001-01-01, which is day 0; a year is split into its era of 400 years and its place in the era.
pub mod Ordinal
pub mod Months
use go_pet_project.Base.{
  ℕ, suc, ◌+◌, ◌-◌, ◌*◌, ◌/◌, ◌%◌, Bool, not, ◌&&◌, ◌||◌, ◌==◌, ltb, leb, if◌then◌else◌, ◌≡◌, refl,
}
use go_pet_project.Base.Int.{ℤ, pos, negsuc, ◌+ℤ◌, ◌-ℤ◌, ◌*ℤ◌}

-- Division by a positive number, rounded down, and its remainder.
abbrev pub floor_div : ℤ → ℕ → ℤ
floor_div (pos n) k = pos (n / k)
floor_div (negsuc n) k = negsuc (n / k)

abbrev pub floor_mod : ℤ → ℕ → ℕ
floor_mod (pos n) k = n % k
floor_mod (negsuc n) k = k - 1 - n % k

-- The days of 400 years.
abbrev pub era_days : ℕ
era_days = 146097

pub record Date : Type 0 where
  pub year : ℤ
  pub month : ℕ
  pub day : ℕ

abbrev pub era : ℤ → ℤ
era year = floor_div (year -ℤ pos 1) 400

abbrev pub year_of_era : ℤ → ℕ
year_of_era year = floor_mod (year -ℤ pos 1) 400

-- `isLeap`, of the year at place `r` of its era.
abbrev pub is_leap : ℕ → Bool
is_leap r = suc r % 4 == 0 && (not (suc r % 100 == 0) || suc r % 400 == 0)

-- The days of the era before its year at place `r`.
abbrev pub days_before_year : ℕ → ℕ
days_before_year r = r * 365 + r / 4 - r / 100

abbrev pub leap_day : Bool → ℕ
leap_day leap = if leap then 1 else 0

abbrev pub days_before_month : Bool → ℕ → ℕ
days_before_month leap m = (367 * m - 362) / 12 - (if leb m 2 then 0 else 2 - leap_day leap)

abbrev pub days_in_month : Bool → ℕ → ℕ
days_in_month leap m =
    if m == 2 then 28 + leap_day leap else if m == 4 || m == 6 || m == 9 || m == 11 then 30 else 31

-- The number of a day of the month, which may lie outside of it.
unfoldable pub day_number : ℤ → ℕ → ℤ → ℤ
day_number year month day =
    pos era_days *ℤ era year
    +ℤ pos
        (days_before_year (year_of_era year) + days_before_month (is_leap (year_of_era year)) month)
    +ℤ (day -ℤ pos 1)

-- The place in its era of the year of a day, and the day of that year from 0.
unfoldable pub century : ℕ → ℕ
century n = n / 36524 - n / 36524 / 4

unfoldable pub year_of_day : ℕ → ℕ
unfolding century
year_of_day n =
    let c = century n in
    let n1 = n - 36524 * c in
    let n2 = n1 - 1461 * (n1 / 1461) in 100 * c + 4 * (n1 / 1461) + (n2 / 365 - n2 / 365 / 4)

unfoldable pub month_of_day : Bool → ℕ → ℕ
month_of_day leap n =
    let shift = if ltb n (59 + leap_day leap) then 0 else 2 - leap_day leap in
    (12 * (n + shift) + 373) / 367

-- The date of a day.
unfoldable pub date_of : ℤ → Date
unfolding year_of_day month_of_day
date_of d =
    let n = floor_mod d era_days in
    let r = year_of_day n in
    let leap = is_leap r in
    let yday = n - days_before_year r in
    let month = month_of_day leap yday in
    record {
      year = floor_div d era_days *ℤ pos 400 +ℤ pos (suc r);
      month = month;
      day = suc (yday - days_before_month leap month);
    }

epoch : day_number (pos 1970) 1 (pos 1) ≡ pos 719162
unfolding day_number ◌+ℤ◌ ◌-ℤ◌ ◌*ℤ◌
epoch = refl

leap_day_2024 :
    date_of (day_number (pos 2024) 2 (pos 29)) ≡ record { year = pos 2024; month = 2; day = 29 }
unfolding date_of day_number ◌+ℤ◌ ◌-ℤ◌ ◌*ℤ◌
leap_day_2024 = refl

before_year_1 : date_of (negsuc 0) ≡ record { year = pos 0; month = 12; day = 31 }
unfolding date_of ◌+ℤ◌ ◌*ℤ◌
before_year_1 = refl
