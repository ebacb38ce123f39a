-- ===== src/Outbox/Event.antt =====
-- internal/outbox/domain/event.go, and the payload that the reminder scheduler writes
-- (internal/reminder/adapter/in/scheduler/notification_processor.go).
use go_pet_project.Base.{ℕ, Bool, true, false, not, Option, none, some, ◌==◌}
use go_pet_project.Base.Int.{ℤ, pos, ltb_ℤ}
use go_pet_project.Base.Text.{Text, runes, is_empty}
use go_pet_project.Time.{Time, is_zero, before}
use go_pet_project.Errors.{
  Result, ok, refuse_if, ◌>>◌, invalid_event_id, invalid_aggregate_type, invalid_aggregate_id,
  invalid_event_type, invalid_payload, outbox_invalid_created_at, invalid_published_at,
  invalid_attempts,
}

-- `NotificationRequestedPayload`, with the ids before `String()`.
pub record NotificationRequestedPayload : Type 0 where
  pub reminder_id : ℕ
  pub task_id : ℕ
  pub recipient_user_id : ℕ
  pub trigger_at : Time

-- A `json.RawMessage`, by what a JSON parser makes of its bytes: the encoding of a payload of the
-- scheduler, another JSON text, or bytes that `json.Valid` refuses.
pub data Payload : Type 0 where
  notification_requested : NotificationRequestedPayload → Payload
  other_json : Text → Payload
  malformed : Text → Payload

abbrev pub is_valid_json : Payload → Bool
is_valid_json (malformed bytes) = false
is_valid_json _ = true

abbrev pub reminder_aggregate_type : Text
reminder_aggregate_type = runes "reminder"

abbrev pub notification_requested_v1_type : Text
notification_requested_v1_type = runes "notification.requested.v1"

pub record Event : Type 0 where
  pub id : ℕ
  pub aggregate_type : Text
  pub aggregate_id : ℕ
  pub event_type : Text
  pub payload : Payload
  pub created_at : Time
  pub published_at : Option Time
  pub attempts : ℤ

-- `publishedAt != nil && publishedAt.Before(createdAt)`
abbrev pub published_before : Option Time → Time → Bool
published_before none created = false
published_before (some t) created = before t created

-- The arguments are the fields of the event to be.
unfoldable pub restore_event : Event → Result Event
restore_event e = do
  refuse_if (e.id == 0) invalid_event_id
  refuse_if (is_empty e.aggregate_type) invalid_aggregate_type
  refuse_if (e.aggregate_id == 0) invalid_aggregate_id
  refuse_if (is_empty e.event_type) invalid_event_type
  refuse_if (not (is_valid_json e.payload)) invalid_payload
  refuse_if (is_zero e.created_at) outbox_invalid_created_at
  refuse_if (published_before e.published_at e.created_at) invalid_published_at
  refuse_if (ltb_ℤ e.attempts (pos 0)) invalid_attempts
  ok e

unfoldable pub new_event : ℕ → Text → ℕ → Text → Payload → Time → Result Event
unfolding restore_event
new_event id aggregate_type aggregate_id event_type payload created = restore_event (record {
  id = id;
  aggregate_type = aggregate_type;
  aggregate_id = aggregate_id;
  event_type = event_type;
  payload = payload;
  created_at = created;
  published_at = none;
  attempts = pos 0;
})
