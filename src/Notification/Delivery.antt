-- ===== src/Notification/Delivery.antt =====
-- internal/notification/domain/delivery.go
use go_pet_project.Base.{ℕ, String, Bool, true, false, not, Option, none, some, if◌then◌else◌, ◌==◌}
use go_pet_project.Base.Int.{ℤ, pos, ltb_ℤ}
use go_pet_project.Base.Text.{Text, trim_space, is_empty}
use go_pet_project.Time.{Time, is_zero}
use go_pet_project.Errors.{
  Result, ok, refuse_if, ◌>>◌, invalid_delivery_id, invalid_notification_id,
  invalid_delivery_channel, invalid_delivery_status, invalid_delivery_attempts,
  invalid_delivery_next_attempt, invalid_delivery_sent_at,
}

-- `type DeliveryChannel string`
pub data Channel : Type 0 where
  telegram : Channel
  unknown : String → Channel

-- `type DeliveryStatus string`
pub data Status : Type 0 where
  pending sent failed : Status
  unknown : String → Status

abbrev pub is_valid_channel : Channel → Bool
is_valid_channel telegram = true
is_valid_channel (Channel.unknown value) = false

abbrev pub is_valid_status : Status → Bool
is_valid_status (Status.unknown value) = false
is_valid_status _ = true

abbrev pub is_pending : Status → Bool
is_pending pending = true
is_pending _ = false

pub record NotificationDelivery : Type 0 where
  pub id : ℕ
  pub notification_id : ℕ
  pub channel : Channel
  pub status : Status
  pub attempts : ℤ
  pub next_attempt_at : Option Time
  pub sent_at : Option Time
  pub last_error : Option Text

-- `p != nil && p.IsZero()`
abbrev pub points_to_zero : Option Time → Bool
points_to_zero none = false
points_to_zero (some t) = is_zero t

-- A text that is blank becomes nil, and another is trimmed.
unfoldable pub trimmed : Option Text → Option Text
trimmed none = none
trimmed (some s) = if is_empty (trim_space s) then none else some (trim_space s)

-- The arguments are the fields of the delivery to be.
unfoldable pub restore_delivery : NotificationDelivery → Result NotificationDelivery
unfolding trimmed
restore_delivery d = do
  refuse_if (d.id == 0) invalid_delivery_id
  refuse_if (d.notification_id == 0) invalid_notification_id
  refuse_if (not (is_valid_channel d.channel)) invalid_delivery_channel
  refuse_if (not (is_valid_status d.status)) invalid_delivery_status
  refuse_if (ltb_ℤ d.attempts (pos 0)) invalid_delivery_attempts
  refuse_if (points_to_zero d.next_attempt_at) invalid_delivery_next_attempt
  refuse_if (points_to_zero d.sent_at) invalid_delivery_sent_at
  ok (record d { last_error = trimmed d.last_error })

unfoldable pub new_delivery : ℕ → ℕ → Channel → Time → Result NotificationDelivery
unfolding restore_delivery
new_delivery id notification channel now = restore_delivery (record {
  id = id;
  notification_id = notification;
  channel = channel;
  status = pending;
  attempts = pos 0;
  next_attempt_at = some now;
  sent_at = none;
  last_error = none;
})
