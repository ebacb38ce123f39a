-- ===== src/Time.antt =====
-- Go's `time.Time` and `time.Duration`, as far as the program uses them. A time is its instant,
-- in nanoseconds after 0001-01-01 00:00:00 UTC, which is the zero time: `UTC()`, the location and
-- the monotonic reading change no comparison that the program makes. A duration is an `int64`.
pub mod Calendar
pub mod Zone
use go_pet_project.Base.{◌≡◌, refl, Bool}
use go_pet_project.Base.Int.{ℤ, pos, ◌+ℤ◌, ◌-ℤ◌, ◌*ℤ◌, ltb_ℤ, eqb_ℤ, wrap64}

abbrev pub Time : Type 0
Time = ℤ

abbrev pub zero_time : Time
zero_time = pos 0

-- `t.IsZero()`, `t.Before(u)`, `t.After(u)` and `t.Equal(u)`
abbrev pub is_zero : Time → Bool
is_zero t = eqb_ℤ t zero_time

abbrev pub before : Time → Time → Bool
before t u = ltb_ℤ t u

abbrev pub after : Time → Time → Bool
after t u = ltb_ℤ u t

abbrev pub equal : Time → Time → Bool
equal t u = eqb_ℤ t u

-- `time.Second`
abbrev pub second : ℤ
second = pos 1000000000

-- `-time.Duration(seconds) * time.Second`: the negation and the product are of type `int64`, and
-- each wraps around.
unfoldable pub minus_seconds : ℤ → ℤ
unfolding ◌-ℤ◌ ◌*ℤ◌ wrap64
minus_seconds seconds = wrap64 (wrap64 (pos 0 -ℤ seconds) *ℤ second)

-- `t.Add(d)`
unfoldable pub add : Time → ℤ → Time
unfolding ◌+ℤ◌
add t d = t +ℤ d

an_hour_before : add (pos 7200000000000) (minus_seconds (pos 3600)) ≡ pos 3600000000000
unfolding add minus_seconds
an_hour_before = refl

wraps_past : minus_seconds (pos 10000000000) ≡ pos 8446744073709551616
unfolding minus_seconds
wraps_past = refl
