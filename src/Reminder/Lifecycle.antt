-- ===== src/Reminder/Lifecycle.antt =====
-- The life of a reminder under the methods of internal/reminder/domain/reminder.go.
use go_pet_project.Base.{false, ◌≡◌, ◌≢◌, arith}
use go_pet_project.Base.Int.{ℤ}
use go_pet_project.Time.{Time, is_zero}
use go_pet_project.Errors.{Result, ok}
use go_pet_project.Reminder.Domain
use go_pet_project.Reminder.Domain.{Reminder, pending}
use go_pet_project.Reminder.Invariant.{IsWellFormed}

-- A call of a method that changes a reminder.
pub data Call : Type 0 where
  reschedule_absolute : Time → Call
  reschedule_before_deadline : Time → ℤ → Call
  recalculate_for_deadline : Time → Call
  mark_sent : Time → Call
  cancel : Call

unfoldable pub perform : Call → Reminder → Result Reminder
unfolding Domain.reschedule_absolute Domain.reschedule_before_deadline
    Domain.recalculate_for_deadline Domain.mark_sent Domain.cancel
perform (reschedule_absolute trigger) r = Domain.reschedule_absolute trigger r
perform (reschedule_before_deadline deadline offset) r =
    Domain.reschedule_before_deadline deadline offset r
perform (recalculate_for_deadline deadline) r = Domain.recalculate_for_deadline deadline r
perform (mark_sent now) r = Domain.mark_sent now r
perform cancel r = Domain.cancel r

-- A reminder that is sent or cancelled is final: a call on it fails or returns it unchanged.
pub perform_final :
    (c : Call) (r u : Reminder) → IsWellFormed r → r.state ≢ pending → perform c r ≡ ok u → u ≡ r
unfolding perform
perform_final (reschedule_absolute trigger) r u w h e = ground arith
perform_final _ r u w h e = ground arith

-- A successful call keeps a well-formed reminder well formed, unless the trigger that it computes
-- is the zero time, and leaves the id, the task, the kind and the creation time alone.
pub record Follows (r u : Reminder) : Type 0 where
  pub well_formed : is_zero u.trigger_at ≡ false → IsWellFormed u
  pub same_id : u.id ≡ r.id
  pub same_task : u.task_id ≡ r.task_id
  pub same_kind : u.kind ≡ r.kind
  pub same_created : u.created_at ≡ r.created_at

pub perform-Follows :
    (c : Call) (r u : Reminder) → IsWellFormed r → perform c r ≡ ok u → Follows r u
unfolding perform
perform-Follows (reschedule_absolute trigger) r u w h = ground arith
perform-Follows _ r u w h = ground arith
