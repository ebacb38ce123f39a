-- ===== src/Outbox/Relay/Liveness.antt =====
-- A poll of the relay (internal/outbox/application/service/relay.go) publishes every event, where
-- nothing fails.
use go_pet_project.Base.{ℕ, refl, suc, ◌≡◌, ◌≤◌, arith, All, length, false}
use go_pet_project.Base.Int.{ℤ, pos, pos_part, leb_ℤ, ◌<ℤ◌}
use go_pet_project.Base.Distinct.{IsDistinct}
use go_pet_project.Errors.{ok}
use go_pet_project.World.{World, transaction, tick}
use go_pet_project.Outbox.Repository.{unpublished_rows, claim_unpublished}
use go_pet_project.Outbox.Relay.{process_once}
use go_pet_project.Outbox.Relay.Delivers.{
  IsHealthy, IsSendable, IsPublished, id_of, for_each-publishes,
}
use go_pet_project.Outbox.Relay.Claims.{unpublished_rows-IsClaim}

-- Where every statement succeeds, the broker acknowledges and no other transaction holds a row, a
-- poll returns without an error and leaves every event published, if the ids are distinct, each
-- event is valid and has a time with a JSON form, and the batch size, which is positive, is at
-- least the number of events.
pub process_once-publishes :
    (batch_size : ℤ) (w : World)
    → IsHealthy w.env
    → IsDistinct id_of w.tables.outbox_events
    → All IsSendable w.tables.outbox_events
    → pos 0 <ℤ batch_size
    → length w.tables.outbox_events ≤ pos_part batch_size
    → ((n : ℕ) × ((process_once batch_size w).0 ≡ ok n))
      × All IsPublished (process_once batch_size w).1.tables.outbox_events
unfolding process_once claim_unpublished transaction
process_once-publishes batch_size w healthy d s asked fits =
    let w2 = tick (tick w) in
    let rows = unpublished_rows batch_size (w.env.locked w2.step) w.tables in
    let claim =
      unpublished_rows-IsClaim batch_size (w.env.locked w2.step) w.tables
        (healthy.leaves_free w2.step) d s fits in
    let (done, env, published) =
      for_each-publishes rows w2 healthy claim.distinct claim.sendable claim.counted claim.left in
    let some_asked : leb_ℤ batch_size (pos 0) ≡ false = ground arith in
    rw
      (
        some_asked,
        healthy.answers w.step,
        healthy.answers (suc w.step),
        done,
        env,
        healthy.answers _,
      )
      ((length rows, refl), published)
