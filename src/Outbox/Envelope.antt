-- ===== src/Outbox/Envelope.antt =====
-- What internal/outbox/adapter/out/kafka/publisher.go puts on the topic: a record whose key is the
-- aggregate and whose value is the envelope of the event, before both are written as text.
use go_pet_project.Base.{ℕ, Bool, ◌&&◌}
use go_pet_project.Base.Int.{pos, negsuc, leb_ℤ, ltb_ℤ}
use go_pet_project.Base.Text.{Text}
use go_pet_project.Time.{Time}
use go_pet_project.Outbox.Event.{Event, Payload}

pub record Envelope : Type 0 where
  pub event_id : ℕ
  pub event_type : Text
  pub version : ℕ
  pub occurred_at : Time
  pub payload : Payload

-- `EventVersion` of internal/outbox/domain/event.go
abbrev pub event_version : ℕ
event_version = 1

unfoldable pub new_envelope : Event → Envelope
new_envelope e = record {
  event_id = e.id;
  event_type = e.event_type;
  version = event_version;
  occurred_at = e.created_at;
  payload = e.payload;
}

-- A `kgo.Record` of the topic of the publisher.
pub record Record : Type 0 where
  pub key : ℕ
  pub value : Envelope

unfoldable pub record_of : Event → Record
unfolding new_envelope
record_of e = record { key = e.aggregate_id; value = new_envelope e }

-- `time.Time.MarshalJSON` refuses a year outside 0…9999: year 0 is the 366 days before the zero
-- time, and year 10000 begins 3652059 days after it.
unfoldable pub has_json_form : Time → Bool
has_json_form t = leb_ℤ (negsuc 31622399999999999) t && ltb_ℤ t (pos 315537897600000000000)
