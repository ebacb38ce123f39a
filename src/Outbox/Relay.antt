-- ===== src/Outbox/Relay.antt =====
-- internal/outbox/application/service/relay.go: one poll of the relay, which sends the unpublished
-- events to the broker, and `Publish` of internal/outbox/adapter/out/kafka/publisher.go.
pub mod Topic
pub mod Announced
pub mod Settled
pub mod Delivers
pub mod Claims
pub mod Liveness
use go_pet_project.Base.{ℕ, not, ◌&&◌}
use go_pet_project.Base.Int.{ℤ}
use go_pet_project.Errors.{Result, ok, err, marshal}
use go_pet_project.World.{Action, ◌>>=◌, ◌>>◌, refuse_when, now, produce, attempt}
use go_pet_project.Outbox.Event.{Event, is_valid_json}
use go_pet_project.Outbox.Envelope.{record_of, has_json_form}
use go_pet_project.Outbox.Repository.{claim_unpublished, mark_published, increment_attempts}

-- `json.Marshal` fails on a time that has no JSON form, and on a payload that is not valid.
unfoldable pub publish : Event → Action (Unit {0})
publish e = do
  refuse_when (not (has_json_form e.created_at && is_valid_json e.payload)) marshal
  produce (record_of e)

-- What the handler does with the answer of the publisher.
abbrev settle : ℕ → Result (Unit {0}) → Action (Unit {0})
settle id (ok _) = do at ← now; mark_published id at
settle id (err _) = increment_attempts id

unfoldable pub relay_event : Event → Action (Unit {0})
relay_event e = do answer ← attempt (publish e); settle e.id answer

unfoldable pub process_once : ℤ → Action ℕ
process_once batch_size = claim_unpublished batch_size relay_event
