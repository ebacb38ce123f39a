-- ===== src/Reminder/Invariant.antt =====
-- The well-formed reminders of internal/reminder/domain/reminder.go, and the life of one.
use go_pet_project.Base.{true, false, Option, ◌≡◌, ◌≢◌, ◌↔◌, arith, is_some}
use go_pet_project.Base.Int.{ℤ}
use go_pet_project.Time.{is_zero}
use go_pet_project.Errors.{ok}
use go_pet_project.Reminder.Domain.{
  Reminder, Kind, absolute, before_deadline, is_valid_state, is_sent, sent_before, lacks_offset,
  restore_reminder,
}

-- The offset is positive for the one kind, and absent for the other.
abbrev pub FieldsFit : Kind → Option ℤ → Type 0
FieldsFit absolute offset = is_some offset ≡ false
FieldsFit before_deadline offset = lacks_offset offset ≡ false
FieldsFit (Kind.unknown value) offset = ⊥

pub record IsWellFormed (r : Reminder) : Type 0 where
  pub has_id : r.id ≢ 0
  pub has_task : r.task_id ≢ 0
  pub fields_fit : FieldsFit r.kind r.offset_seconds
  pub has_trigger : is_zero r.trigger_at ≡ false
  pub has_created : is_zero r.created_at ≡ false
  pub has_state : is_valid_state r.state ≡ true
  pub sent_exactly : is_some r.sent_at ≡ is_sent r.state
  pub sent_later : sent_before r.sent_at r.created_at ≡ false

restore_reminder-ok : (r u : Reminder) → restore_reminder r ≡ ok u → (u ≡ r) × IsWellFormed r
unfolding restore_reminder
restore_reminder-ok r u h = ground arith

restore_reminder_self : (r : Reminder) → IsWellFormed r → restore_reminder r ≡ ok r
unfolding restore_reminder
restore_reminder_self r w = ground arith

-- `RestoreReminder` succeeds exactly on the well-formed reminders, and returns its arguments.
pub restore_reminder-ok_iff :
    (r u : Reminder) → (restore_reminder r ≡ ok u) ↔ ((u ≡ r) × IsWellFormed r)
restore_reminder-ok_iff r u = (restore_reminder-ok r u, λ (e, w). rw e (restore_reminder_self r w))
