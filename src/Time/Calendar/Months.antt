-- ===== src/Time/Calendar/Months.antt =====
-- The month after a month.
use go_pet_project.Base.{ℕ, suc, ◌+◌, ◌≤◌, ◌<◌, ◌≡◌, Bool, true, false, inl, inr, ◌⊎◌, arith}
use go_pet_project.Base.Int.{ℤ, pos, negsuc, ◌+ℤ◌, ◌-ℤ◌, ◌*ℤ◌, int_laws}
use go_pet_project.Time.Calendar.{
  floor_div, floor_mod, era_days, era, year_of_era, is_leap, days_before_year, days_before_month,
  days_in_month, day_number,
}

pub days_fit : (leap : Bool) (m : ℕ) → 1 ≤ m → m ≤ 12 → 28 ≤ days_in_month leap m
days_fit true m h k = ground arith
days_fit false m h k = ground arith

month_step :
    (leap : Bool) (m : ℕ)
    → 1 ≤ m
    → m < 12
    → days_before_month leap (suc m) ≡ days_before_month leap m + days_in_month leap m
month_step true m h k = ground arith
month_step false m h k = ground arith

year_step :
    (r : ℕ)
    → r < 399
    → days_before_year (suc r) ≡ days_before_year r + days_before_month (is_leap r) 12 + 31
year_step r h = ground arith

-- The year after a year, by its era and its place in the era.
next_year :
    (y : ℤ)
    → ((year_of_era y < 399)
        × (era (y +ℤ pos 1) ≡ era y)
        × (year_of_era (y +ℤ pos 1) ≡ suc (year_of_era y)))
      ⊎ ((year_of_era y ≡ 399)
          × (era (y +ℤ pos 1) ≡ era y +ℤ pos 1)
          × (year_of_era (y +ℤ pos 1) ≡ 0))
unfolding ◌+ℤ◌ ◌-ℤ◌
next_year (pos y) = ground arith
next_year (negsuc y) = ground arith

era_step : (e : ℤ) → pos era_days *ℤ (e +ℤ pos 1) ≡ pos era_days *ℤ e +ℤ pos era_days
unfolding ◌*ℤ◌ ◌+ℤ◌
era_step (pos e) = ground arith
era_step (negsuc e) = ground arith

-- Day 0 of the next month is the last day of the month.
last_in_year :
    (year : ℤ) (m : ℕ)
    → 1 ≤ m
    → m < 12
    → day_number year (suc m) (pos 0)
      ≡ day_number year m (pos (days_in_month (is_leap (year_of_era year)) m))
unfolding day_number
last_in_year year m h k = omega (int_laws, month_step (is_leap (year_of_era year)) m h k)

last_of_year : (year : ℤ) → day_number (year +ℤ pos 1) 1 (pos 0) ≡ day_number year 12 (pos 31)
unfolding day_number
last_of_year year = elim (next_year year) [
  | inl (low, e, r) ↦ rw (e, r) (omega (int_laws, year_step (year_of_era year) low))
  | inr (high, e, r) ↦ rw (e, r, high, era_step (era year)) (omega int_laws)
]

month_after :
    (m : ℕ)
    → 1 ≤ m
    → m ≤ 12
    → ((m < 12)
        × (floor_div (pos m +ℤ pos 1 -ℤ pos 1) 12 ≡ pos 0)
        × (suc (floor_mod (pos m +ℤ pos 1 -ℤ pos 1) 12) ≡ suc m))
      ⊎ ((m ≡ 12)
          × (floor_div (pos m +ℤ pos 1 -ℤ pos 1) 12 ≡ pos 1)
          × (suc (floor_mod (pos m +ℤ pos 1 -ℤ pos 1) 12) ≡ 1))
unfolding ◌+ℤ◌ ◌-ℤ◌
month_after m h k = ground arith

add_zero : (year : ℤ) → year +ℤ pos 0 ≡ year
add_zero year = omega int_laws

pub last_day :
    (year : ℤ) (m : ℕ)
    → 1 ≤ m
    → m ≤ 12
    → day_number
        (year +ℤ floor_div (pos m +ℤ pos 1 -ℤ pos 1) 12)
        (suc (floor_mod (pos m +ℤ pos 1 -ℤ pos 1) 12))
        (pos 0)
      ≡ day_number year m (pos (days_in_month (is_leap (year_of_era year)) m))
last_day year m h k = elim (month_after m h k) [
  | inl (low, year_stays, next) ↦ rw (year_stays, next, add_zero year) (last_in_year year m h low)
  | inr (twelve, year_moves, first) ↦ rw (year_moves, first, twelve) (last_of_year year)
]
