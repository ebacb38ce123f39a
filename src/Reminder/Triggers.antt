-- ===== src/Reminder/Triggers.antt =====
-- The trigger time of a before-deadline reminder (internal/reminder/domain/reminder.go): an
-- `int64` product of seconds and nanoseconds, which wraps around for an offset past 292 years.
use go_pet_project.Base.{ℕ, ◌*◌, ◌-◌, ◌≤◌, ◌≡◌, arith}
use go_pet_project.Base.Int.{pos, ◌-ℤ◌, ◌+ℤ◌, ◌*ℤ◌, ◌<ℤ◌, wrap64}
use go_pet_project.Time.{Time}
use go_pet_project.Reminder.Domain.{trigger_before}

-- Up to 9223372036 seconds the trigger is exactly the offset before the deadline.
pub trigger_before_exact :
    (deadline : Time) (n : ℕ)
    → n ≤ 9223372036
    → trigger_before deadline (pos n) ≡ deadline -ℤ pos (n * 1000000000)
unfolding trigger_before ◌-ℤ◌ ◌*ℤ◌ ◌+ℤ◌ wrap64
trigger_before_exact deadline n h = ground arith

-- From 9223372037 to 18446744073 seconds the product wraps around: the trigger of the reminder
-- "before the deadline" lies after the deadline, by 2^64 nanoseconds less the offset.
pub trigger_before_wraps :
    (deadline : Time) (n : ℕ)
    → 9223372037 ≤ n
    → n ≤ 18446744073
    → (trigger_before deadline (pos n) ≡ deadline +ℤ pos (18446744073709551616 - n * 1000000000))
      × (deadline <ℤ trigger_before deadline (pos n))
unfolding trigger_before ◌-ℤ◌ ◌*ℤ◌ ◌+ℤ◌ wrap64
trigger_before_wraps deadline n h k = ground arith
