-- ===== src/Outbox/Relay/Settled.antt =====
-- What the handler of the relay does with an event.
use go_pet_project.Base.{◌≡◌, ◌≢◌, ◌⊎◌, inl, inr, arith, update_rows, count_rows}
use go_pet_project.Errors.{ok, Result-cases}
use go_pet_project.World.{World}
use go_pet_project.Outbox.Event.{Event}
use go_pet_project.Outbox.Repository.{
  is_unpublished, published_row, attempted_row, mark_published, increment_attempts,
}
use go_pet_project.Outbox.Relay.{publish, relay_event}

tables-publish :
    (e : Event) (w : World) → ((publish e w).1.tables ≡ w.tables) × ((publish e w).1.env ≡ w.env)
unfolding publish
tables-publish e w = ground arith

-- An event that is handled had one unpublished row. If the broker acknowledged its record, the row
-- is marked as published at the time of the clock; if not, its attempts are one more. Nothing else
-- is changed.
pub relay_event-settles :
    (e : Event) (w : World)
    → (relay_event e w).0 ≡ ok tt
    → (count_rows (is_unpublished e.id) w.tables.outbox_events ≡ 1)
      × ((((publish e w).0 ≡ ok tt)
            × ((relay_event e w).1.tables ≡ record (w.tables) {
              outbox_events =
                  update_rows
                    (is_unpublished e.id)
                    (published_row (w.env.clock (publish e w).1.step))
                    w.tables.outbox_events;
            }))
          ⊎ (((publish e w).0 ≢ ok tt)
              × ((relay_event e w).1.tables ≡ record (w.tables) {
                outbox_events =
                    update_rows (is_unpublished e.id) attempted_row w.tables.outbox_events;
              })))
unfolding relay_event mark_published increment_attempts
relay_event-settles e w h =
    let (same, env) = tables-publish e w in
    elim (Result-cases (publish e w).0) [
      | inl (_, sent) ↦ (ground arith, inl (ground arith, ground arith))
      | inr (_, lost) ↦ (ground arith, inr (ground arith, ground arith))
    ]
