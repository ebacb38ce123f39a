-- ===== src/Time/Zone/Readings.antt =====
-- A time that is made for a reading has this reading, away from the changes of the zone.
use go_pet_project.Base.{
  ℕ, suc, ◌≤◌, ◌<◌, ◌≡◌, refl, ap, ◌∙◌, Bool-cases, inl, inr, arith, false, true, ◌||◌,
}
use go_pet_project.Base.Int.{
  ℤ, pos, negsuc, ◌+ℤ◌, ◌-ℤ◌, ◌*ℤ◌, ◌≤ℤ◌, ◌<ℤ◌, int_laws, eqb_ℤ, ltb_ℤ, leb_ℤ,
}
use go_pet_project.Time.{Time, second}
use go_pet_project.Time.Calendar.{floor_div, floor_mod, day_number, date_of}
use go_pet_project.Time.Calendar.Ordinal.{IsValid, day_number-date_of, date_of-day_number}
use go_pet_project.Time.Zone.{
  Zone, IsConsistent, second_ns, day_ns, local, date, clock, instant, normal, reading_of, make_date,
  add_days,
}

-- The zone does not change between this reading, as if it were UTC, and the time that it stands
-- for.
pub record IsClear (z : Zone) (reading : ℤ) : Type 0 where
  pub after_start :
      (z.lookup (floor_div reading second_ns)).start
      ≤ℤ floor_div reading second_ns -ℤ (z.lookup (floor_div reading second_ns)).offset
  pub before_finish :
      floor_div reading second_ns -ℤ (z.lookup (floor_div reading second_ns)).offset
      <ℤ (z.lookup (floor_div reading second_ns)).finish

second_of :
    (reading offset : ℤ)
    → floor_div (reading -ℤ offset *ℤ second) second_ns ≡ floor_div reading second_ns -ℤ offset
unfolding ◌-ℤ◌ ◌*ℤ◌
second_of (pos r) (pos o) = ground arith
second_of (pos r) (negsuc o) = ground arith
second_of (negsuc r) (pos o) = ground arith
second_of (negsuc r) (negsuc o) = ground arith

sub-add-offset : (reading offset : ℤ) → reading -ℤ offset +ℤ offset ≡ reading
sub-add-offset reading offset = omega int_laws

sub_no_offset :
    (reading offset : ℤ) → eqb_ℤ offset (pos 0) ≡ true → reading ≡ reading -ℤ offset *ℤ second
unfolding ◌-ℤ◌ ◌*ℤ◌
sub_no_offset (pos r) (pos o) h = ground arith
sub_no_offset (pos r) (negsuc o) h = ground arith
sub_no_offset (negsuc r) (pos o) h = ground arith
sub_no_offset (negsuc r) (negsuc o) h = ground arith

in_span :
    (t start finish : ℤ) → start ≤ℤ t → t <ℤ finish → (ltb_ℤ t start || leb_ℤ finish t) ≡ false
in_span t start finish h k = ground arith

-- For a clear reading, the offset that is found first is the one that is taken off.
instant_clear :
    (z : Zone) (reading : ℤ)
    → IsClear z reading
    → instant z reading ≡ reading -ℤ (z.lookup (floor_div reading second_ns)).offset *ℤ second
unfolding instant
instant_clear z reading clear =
    let s = floor_div reading second_ns in
    let span = z.lookup s in
    let inside =
      in_span (s -ℤ span.offset) span.start span.finish clear.after_start clear.before_finish in
    elim (Bool-cases (eqb_ℤ span.offset (pos 0))) [
      | inl none ↦ rw none (sub_no_offset reading span.offset none)
      | inr moved ↦ rw (moved, inside) refl
    ]

-- The time of a clear reading has the reading.
pub local-instant :
    (z : Zone) (reading : ℤ)
    → IsConsistent z
    → IsClear z reading
    → local z (instant z reading) ≡ reading
unfolding local
local-instant z reading laws clear =
    let s = floor_div reading second_ns in
    let span = z.lookup s in
    let at = laws.in_force s (s -ℤ span.offset) clear.after_start clear.before_finish in
    rw (instant_clear z reading clear, second_of reading span.offset, at)
      (sub-add-offset reading (span.offset *ℤ second))

pub day_parts :
    (day : ℤ) (time_of_day : ℕ)
    → time_of_day < day_ns
    → (floor_div (day *ℤ pos day_ns +ℤ pos time_of_day) day_ns ≡ day)
      × (floor_mod (day *ℤ pos day_ns +ℤ pos time_of_day) day_ns ≡ time_of_day)
unfolding ◌*ℤ◌ ◌+ℤ◌
day_parts (pos day) n h = ground arith
day_parts (negsuc day) n h = ground arith

pub split_day :
    (reading : ℤ)
    → (floor_div reading day_ns *ℤ pos day_ns +ℤ pos (floor_mod reading day_ns) ≡ reading)
      × (floor_mod reading day_ns < day_ns)
unfolding ◌*ℤ◌ ◌+ℤ◌
split_day (pos n) = ground arith
split_day (negsuc n) = ground arith

pub month_in_range :
    (year : ℤ) (m : ℕ)
    → 1 ≤ m
    → m ≤ 12
    → (year +ℤ floor_div (pos m -ℤ pos 1) 12 ≡ year) × (suc (floor_mod (pos m -ℤ pos 1) 12) ≡ m)
unfolding ◌-ℤ◌ ◌+ℤ◌
month_in_range (pos y) m h k = ground arith
month_in_range (negsuc y) m h k = ground arith

day_number-add :
    (year : ℤ) (month : ℕ) (day n : ℤ)
    → day_number year month (day +ℤ n) ≡ day_number year month day +ℤ n
unfolding day_number
day_number-add year month day n = omega int_laws

add-scaled :
    (a n : ℤ) (c : ℕ)
    → (a +ℤ n) *ℤ pos day_ns +ℤ pos c ≡ a *ℤ pos day_ns +ℤ pos c +ℤ n *ℤ pos day_ns
unfolding ◌*ℤ◌ ◌+ℤ◌
add-scaled (pos a) (pos n) c = ground arith
add-scaled (pos a) (negsuc n) c = ground arith
add-scaled (negsuc a) (pos n) c = ground arith
add-scaled (negsuc a) (negsuc n) c = ground arith

-- `AddDate` moves the reading by whole days, where the new one is clear.
pub local-add_days :
    (z : Zone) (t : Time) (n : ℤ)
    → IsConsistent z
    → IsClear z (local z t +ℤ n *ℤ pos day_ns)
    → local z (add_days z t n) ≡ local z t +ℤ n *ℤ pos day_ns
unfolding add_days date clock make_date reading_of
local-add_days z t n laws clear =
    let reading = local z t in
    let (v, number) = day_number-date_of (floor_div reading day_ns) in
    let d = date_of (floor_div reading day_ns) in
    let (year, month) = month_in_range d.year d.month v.month_in.0 v.month_in.1 in
    let moved : reading_of d.year (pos d.month) (pos d.day +ℤ n) (floor_mod reading day_ns)
        ≡ reading +ℤ n *ℤ pos day_ns =
      rw (year, month, day_number-add d.year d.month (pos d.day) n, number)
        (add-scaled (floor_div reading day_ns) n (floor_mod reading day_ns)
          ∙ ap (λ r. r +ℤ n *ℤ pos day_ns) (split_day reading).0) in
    rw moved (local-instant z (reading +ℤ n *ℤ pos day_ns) laws clear)

pub reading_of_parts :
    (year month : ℤ) (day c : ℕ)
    → IsValid (normal year month day)
    → c < day_ns
    → (date_of (floor_div (reading_of year month (pos day) c) day_ns) ≡ normal year month day)
      × (floor_mod (reading_of year month (pos day) c) day_ns ≡ c)
unfolding reading_of
reading_of_parts year month day c v h =
    let t = normal year month day in
    let (at, rest) = day_parts (day_number t.year t.month (pos day)) c h in
    rw (at, rest) (date_of-day_number t v, refl)

-- The date and the clock of a time that is made of a valid date.
pub make_date-parts :
    (z : Zone) (year month : ℤ) (day c : ℕ)
    → IsConsistent z
    → IsValid (normal year month day)
    → c < day_ns
    → IsClear z (reading_of year month (pos day) c)
    → (date z (make_date z year month (pos day) c) ≡ normal year month day)
      × (clock z (make_date z year month (pos day) c) ≡ c)
unfolding date clock make_date
make_date-parts z year month day c laws v h clear =
    rw (local-instant z (reading_of year month (pos day) c) laws clear)
      (reading_of_parts year month day c v h)
