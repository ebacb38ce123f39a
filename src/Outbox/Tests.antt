-- ===== src/Outbox/Tests.antt =====
-- Runs of the relay on example data.
use go_pet_project.Base.{◌≡◌, refl, arith, length}
use go_pet_project.Base.Int.{pos, ◌+ℤ◌}
use go_pet_project.Base.Sort.{insert_row, order_by}
use go_pet_project.Errors.{ok}
use go_pet_project.World.{transaction, for_each}
use go_pet_project.Base.{ℕ, All}
use go_pet_project.Outbox.Relay.Delivers.{IsHealthy, IsSendable, IsPublished}
use go_pet_project.Outbox.Relay.Liveness.{process_once-publishes}
use go_pet_project.Samples.{env}
use go_pet_project.Samples.{old_event, office, lossy_env, env-IsTransactional}
use go_pet_project.Outbox.Event.{restore_event}
use go_pet_project.Outbox.Envelope.{has_json_form, record_of}
use go_pet_project.Outbox.Repository.{
  to_domain, unpublished_rows, claim_unpublished, mark_published, increment_attempts,
}
use go_pet_project.Outbox.Relay.{publish, relay_event, process_once}
use go_pet_project.Outbox.Relay.Announced.{process_once-Announces}
use go_pet_project.Outbox.Relay.Topic.{AllAnnounced}

poll-ok : (process_once (pos 10) office).0 ≡ ok 1
unfolding process_once claim_unpublished transaction unpublished_rows insert_row order_by for_each
    to_domain restore_event relay_event publish has_json_form record_of mark_published
poll-ok = refl

process_once-Announces_example : AllAnnounced (process_once (pos 10) office).1
process_once-Announces_example =
    process_once-Announces (pos 10) office env-IsTransactional (ground arith)

-- An event whose acknowledgement is lost is sent again by the next poll.
sent_again :
    length
      (process_once (pos 10) (process_once (pos 10) (record office { env = lossy_env })).1).1.topic
    ≡ 2
unfolding process_once claim_unpublished transaction unpublished_rows insert_row order_by for_each
    to_domain restore_event relay_event publish has_json_form record_of increment_attempts ◌+ℤ◌
sent_again = refl

old_event-handled : (relay_event old_event office).0 ≡ ok tt
unfolding relay_event publish has_json_form record_of mark_published
old_event-handled = refl

env-IsHealthy : IsHealthy env
env-IsHealthy = record { answers = λ n. refl; acknowledges = λ n. refl; leaves_free = λ n id. refl }

old_event-IsSendable : IsSendable old_event
unfolding restore_event has_json_form
old_event-IsSendable = (refl, refl)

process_once-publishes_example :
    ((n : ℕ) × ((process_once (pos 10) office).0 ≡ ok n))
    × All IsPublished (process_once (pos 10) office).1.tables.outbox_events
process_once-publishes_example =
    process_once-publishes (pos 10) office env-IsHealthy (ground arith) (old_event-IsSendable, tt)
      (ground arith) (ground arith)
