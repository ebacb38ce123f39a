-- ===== src/Recurrence/Domain/Deadlines.antt =====
-- `NextDeadline` of internal/recurrence/domain/series.go keeps the time of the day in the zone of a
-- series that moves by days or weeks.
use go_pet_project.Base.{ℕ, ◌<◌, ◌≡◌, refl, ◌∙◌, false, subst, Option, none, some, arith}
use go_pet_project.Base.Int.{ℤ, pos, negsuc, pos_part, ◌+ℤ◌, ◌*ℤ◌, ◌<ℤ◌, leb_ℤ, wrap64}
use go_pet_project.Time.{Time, is_zero}
use go_pet_project.Time.Zone.{Zone, IsConsistent, day_ns, local, add_days}
use go_pet_project.Time.Zone.Readings.{IsClear, local-add_days}
use go_pet_project.Errors.{ok}
use go_pet_project.Recurrence.Domain.{
  Frequency, daily, weekly, monthly, TaskSeries, Zones, load_location, advanced, next_deadline,
}

-- How many days a series moves on, where it moves by days.
abbrev pub days_of : Frequency → ℤ → Option ℤ
days_of daily interval = some interval
days_of weekly interval = some (interval *ℤ pos 7)
days_of _ interval = none

-- The column of the interval is an INTEGER.
abbrev pub int32_limit : ℕ
int32_limit = 2147483648

weeks-wrap64 : (n : ℕ) → n < int32_limit → wrap64 (pos n *ℤ pos 7) ≡ pos n *ℤ pos 7
unfolding wrap64 ◌*ℤ◌
weeks-wrap64 n h = ground arith

advanced-add_days :
    (f : Frequency) (z : Zone) (t : Time) (n : ℕ) {days : ℤ}
    → n < int32_limit
    → days_of f (pos n) ≡ some days
    → advanced f z t (pos n) ≡ ok (add_days z t days)
advanced-add_days daily z t n h e = cc
advanced-add_days weekly z t n h e = rw (weeks-wrap64 n h) (cc)
advanced-add_days monthly z t n h e = cc
advanced-add_days (Frequency.unknown value) z t n h e = cc

-- A call that passes the tests.
pub next_deadline-advanced :
    (zones : Zones) (s : TaskSeries) (current : Time) (z : Zone)
    → load_location zones s.timezone ≡ ok z
    → pos 0 <ℤ s.interval
    → is_zero current ≡ false
    → next_deadline zones s current ≡ advanced s.frequency z current s.interval
unfolding next_deadline
next_deadline-advanced zones s current z found positive there =
    let large : leb_ℤ s.interval (pos 0) ≡ false = ground arith in rw (there, large, found) refl

positive_interval :
    (i : ℤ)
    → pos 0 <ℤ i
    → i <ℤ pos int32_limit
    → (pos (pos_part i) ≡ i) × (pos_part i < int32_limit)
positive_interval (pos n) h k = ground arith
positive_interval (negsuc n) h k = absurd (omega arith)

-- A series by days or weeks moves on the reading of the clocks in its zone by as many days, where
-- the zone is not about to change: the time of the day stays. The interval fits its column.
pub next_deadline-days :
    (zones : Zones) (s : TaskSeries) (current : Time) (z : Zone) (days : ℤ)
    → load_location zones s.timezone ≡ ok z
    → IsConsistent z
    → pos 0 <ℤ s.interval
    → s.interval <ℤ pos int32_limit
    → days_of s.frequency s.interval ≡ some days
    → is_zero current ≡ false
    → IsClear z (local z current +ℤ days *ℤ pos day_ns)
    → (next : Time) × (next_deadline zones s current ≡ ok next)
      × (local z next ≡ local z current +ℤ days *ℤ pos day_ns)
next_deadline-days zones s current z days found laws positive small moves there clear =
    let (same, low) = positive_interval s.interval positive small in
    (
      add_days z current days,
      next_deadline-advanced zones s current z found positive there
          ∙ subst
              (λ i.
                days_of s.frequency i ≡ some days
                → advanced s.frequency z current i ≡ ok (add_days z current days))
              same (advanced-add_days s.frequency z current (pos_part s.interval) low) moves,
      local-add_days z current days laws clear,
    )
