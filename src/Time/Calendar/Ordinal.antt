-- ===== src/Time/Calendar/Ordinal.antt =====
-- Dates and day numbers are two readings of one day.
use go_pet_project.Base.{ℕ, suc, ◌+◌, ◌-◌, ◌≤◌, ◌<◌, ◌≡◌, refl, ap, ◌∙◌, Bool, true, false, arith}
use go_pet_project.Base.Int.{ℤ, pos, negsuc, ◌+ℤ◌, ◌-ℤ◌, ◌*ℤ◌, int_laws}
use go_pet_project.Time.Calendar.{
  Date, floor_div, floor_mod, era_days, era, year_of_era, is_leap, days_before_year, leap_day,
  days_before_month, days_in_month, day_number, century, year_of_day, month_of_day, date_of,
}

-- The year of a day of the era contains the day.
year_of_day_bounds :
    (n : ℕ)
    → n < era_days
    → (year_of_day n < 400)
      × (days_before_year (year_of_day n) ≤ n)
      × (n < days_before_year (year_of_day n) + 365 + leap_day (is_leap (year_of_day n)))
unfolding year_of_day century
year_of_day_bounds n h = ground arith

-- There is one such year.
year_unique :
    (r s n : ℕ)
    → days_before_year r ≤ n
    → n < days_before_year r + 365 + leap_day (is_leap r)
    → r < 400
    → days_before_year s ≤ n
    → n < days_before_year s + 365 + leap_day (is_leap s)
    → s < 400
    → r ≡ s
year_unique r s n a b c d e f = ground arith

month_of_day_bounds :
    (leap : Bool) (n : ℕ)
    → n < 365 + leap_day leap
    → (1 ≤ month_of_day leap n)
      × (month_of_day leap n ≤ 12)
      × (days_before_month leap (month_of_day leap n) ≤ n)
      × (n
          < days_before_month leap (month_of_day leap n) + days_in_month leap (month_of_day leap n))
unfolding month_of_day
month_of_day_bounds true n h = ground arith
month_of_day_bounds false n h = ground arith

month_unique :
    (leap : Bool) (m day : ℕ)
    → 1 ≤ m
    → m ≤ 12
    → day < days_in_month leap m
    → month_of_day leap (days_before_month leap m + day) ≡ m
unfolding month_of_day
month_unique true m day h k l = ground arith
month_unique false m day h k l = ground arith

floor_div-era_days :
    (e : ℤ) (n : ℕ)
    → n < era_days
    → (floor_div (pos era_days *ℤ e +ℤ pos n) era_days ≡ e)
      × (floor_mod (pos era_days *ℤ e +ℤ pos n) era_days ≡ n)
unfolding ◌*ℤ◌ ◌+ℤ◌
floor_div-era_days (pos e) n h = ground arith
floor_div-era_days (negsuc e) n h = ground arith

floor_era_days_parts :
    (d : ℤ) → pos era_days *ℤ floor_div d era_days +ℤ pos (floor_mod d era_days) ≡ d
unfolding ◌*ℤ◌ ◌+ℤ◌
floor_era_days_parts (pos d) = ground arith
floor_era_days_parts (negsuc d) = ground arith

era-year :
    (e : ℤ) (r : ℕ)
    → r < 400
    → (era (e *ℤ pos 400 +ℤ pos (suc r)) ≡ e) × (year_of_era (e *ℤ pos 400 +ℤ pos (suc r)) ≡ r)
unfolding ◌*ℤ◌ ◌+ℤ◌ ◌-ℤ◌
era-year (pos e) r h = ground arith
era-year (negsuc e) r h = ground arith

year-era : (y : ℤ) → (era y *ℤ pos 400 +ℤ pos (suc (year_of_era y)) ≡ y) × (year_of_era y < 400)
unfolding ◌*ℤ◌ ◌+ℤ◌ ◌-ℤ◌
year-era (pos y) = ground arith
year-era (negsuc y) = ground arith

-- A date that the calendar has.
pub record IsValid (t : Date) : Type 0 where
  pub month_in : (1 ≤ t.month) × (t.month ≤ 12)
  pub day_in : (1 ≤ t.day) × (t.day ≤ days_in_month (is_leap (year_of_era t.year)) t.month)

-- The day numbers of valid dates, by the parts of the sum.
day_number_parts :
    (t : Date)
    → IsValid t
    → day_number t.year t.month (pos t.day)
      ≡ pos era_days *ℤ era t.year
        +ℤ pos (
            days_before_year (year_of_era t.year)
            + days_before_month (is_leap (year_of_era t.year)) t.month
            + (t.day - 1))
unfolding day_number
day_number_parts t v = omega int_laws

floor_mod_lt : (d : ℤ) → floor_mod d era_days < era_days
floor_mod_lt (pos d) = ground arith
floor_mod_lt (negsuc d) = ground arith

-- What `date_of` answers, by the parts of the day number.
date_of_parts :
    (e : ℤ) (n : ℕ)
    → n < era_days
    → (d : ℤ) → floor_div d era_days ≡ e
    → floor_mod d era_days ≡ n
    → (era (date_of d).year ≡ e)
      × (year_of_era (date_of d).year ≡ year_of_day n)
      × ((date_of d).month
          ≡ month_of_day (is_leap (year_of_day n)) (n - days_before_year (year_of_day n)))
      × ((date_of d).day
          ≡ suc (
              n
              - days_before_year (year_of_day n)
              - days_before_month
                  (is_leap (year_of_day n))
                  (month_of_day (is_leap (year_of_day n)) (n - days_before_year (year_of_day n)))))
unfolding date_of
date_of_parts e n h d div rest =
    let (low, first, last) = year_of_day_bounds n h in
    rw (div, rest)
      ((era-year e (year_of_day n) low).0, (era-year e (year_of_day n) low).1, refl, refl)

-- Every day has a valid date, from which `day_number` finds the day again.
pub day_number-date_of :
    (d : ℤ)
    → IsValid (date_of d)
      × (day_number (date_of d).year (date_of d).month (pos (date_of d).day) ≡ d)
day_number-date_of d =
    let n = floor_mod d era_days in
    let (low, first, last) = year_of_day_bounds n (floor_mod_lt d) in
    let leap = is_leap (year_of_day n) in
    let (y, r, m, day) = date_of_parts (floor_div d era_days) n (floor_mod_lt d) d refl refl in
    let (m1, m12, starts, ends) =
      month_of_day_bounds leap (n - days_before_year (year_of_day n)) (omega arith) in
    let v : IsValid (date_of d) = record {
      month_in = rw m (m1, m12);
      day_in = rw (r, m, day) (omega arith);
    } in
    let total : days_before_year (year_of_day n)
          + days_before_month leap (month_of_day leap (n - days_before_year (year_of_day n)))
          + (suc (
                n
                - days_before_year (year_of_day n)
                - days_before_month leap (month_of_day leap (n - days_before_year (year_of_day n))))
              - 1)
        ≡ n =
      omega arith in
    (v, day_number_parts (date_of d) v ∙ rw (y, r, m, day, total) (floor_era_days_parts d))

month_fits :
    (leap : Bool) (m day : ℕ)
    → 1 ≤ m
    → m ≤ 12
    → day < days_in_month leap m
    → days_before_month leap m + day < 365 + leap_day leap
month_fits true m day h k l = ground arith
month_fits false m day h k l = ground arith

year_fits : (r : ℕ) → r < 400 → days_before_year r + 365 + leap_day (is_leap r) ≤ era_days
year_fits r h = ground arith

-- The date of the day `day` of the month `m` of the year at place `r` of the era `e`.
date_at :
    (e : ℤ) (r m day : ℕ)
    → r < 400
    → 1 ≤ m
    → m ≤ 12
    → day < days_in_month (is_leap r) m
    → date_of
        (pos era_days *ℤ e +ℤ pos (days_before_year r + days_before_month (is_leap r) m + day))
      ≡ record { year = e *ℤ pos 400 +ℤ pos (suc r); month = m; day = suc day }
unfolding date_of
date_at e r m day low m1 m12 fits =
    let n = days_before_year r + days_before_month (is_leap r) m + day in
    let in_year = month_fits (is_leap r) m day m1 m12 fits in
    let in_era : n < era_days = omega (arith, year_fits r low) in
    let (div, rest) = floor_div-era_days e n in_era in
    let (low', first, last) = year_of_day_bounds n in_era in
    let year : year_of_day n ≡ r =
      year_unique (year_of_day n) r n first last low' (omega arith) (omega arith) low in
    let yday : n - days_before_year r ≡ days_before_month (is_leap r) m + day = omega arith in
    let month = month_unique (is_leap r) m day m1 m12 fits in
    let left : days_before_month (is_leap r) m + day - days_before_month (is_leap r) m ≡ day =
      omega arith in
    rw (div, rest, year, yday, month, left) refl

-- A valid date is the date of its day number.
pub date_of-day_number :
    (t : Date) → IsValid t → date_of (day_number t.year t.month (pos t.day)) ≡ t
date_of-day_number t v =
    let r = year_of_era t.year in
    let (sum, low) = year-era t.year in
    let last : suc (t.day - 1) ≡ t.day = omega arith in
    ap date_of (day_number_parts t v)
    ∙ date_at (era t.year) r t.month (t.day - 1) low (omega arith) (omega arith) (omega arith)
    ∙ rw (sum, last) refl
