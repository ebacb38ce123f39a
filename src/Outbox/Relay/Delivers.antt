-- ===== src/Outbox/Relay/Delivers.antt =====
-- A poll of the relay publishes all that there is, where nothing fails.
use go_pet_project.Base.{
  ℕ, suc, Bool, true, false, List, [], ◌∷◌, ◌≡◌, ◌≢◌, refl, ◌∙◌, arith, All, find, update_rows,
  count_rows, is_some,
}
use go_pet_project.Base.Distinct.{IsDistinct}
use go_pet_project.Time.{Time}
use go_pet_project.Errors.{ok}
use go_pet_project.World.{World, Environment, acknowledged, for_each}
use go_pet_project.Outbox.Event.{Event, is_valid_json, restore_event}
use go_pet_project.Outbox.Envelope.{has_json_form}
use go_pet_project.Outbox.Repository.{
  has_id, to_domain, handle_row, is_unpublished, published_row, mark_published,
}
use go_pet_project.Outbox.Relay.{publish, relay_event}

-- Every statement succeeds, the broker acknowledges, and no other transaction holds a row.
pub record IsHealthy (env : Environment) : Type 0 where
  pub answers : (n : ℕ) → env.statement_fails n ≡ false
  pub acknowledges : (n : ℕ) → env.broker n ≡ acknowledged
  pub leaves_free : (n id : ℕ) → env.locked n id ≡ false

-- The event is valid, and its time has a JSON form.
abbrev pub IsSendable : Event → Type 0
IsSendable e = (restore_event e ≡ ok e) × (has_json_form e.created_at ≡ true)

abbrev pub IsPublished : Event → Type 0
IsPublished e = is_some e.published_at ≡ true

abbrev pub id_of : Event → ℕ
id_of e = e.id

abbrev pub is_in : ℕ → List Event → Bool
is_in id rs = is_some (find (has_id id) rs)

-- What is not published is still to be handled.
abbrev pub AreLeft : List Event → List Event → Type 0
AreLeft rs es = All (λ (e : Event). is_some e.published_at ≡ false → is_in e.id rs ≡ true) es

sendable-json : (e : Event) → restore_event e ≡ ok e → is_valid_json e.payload ≡ true
unfolding restore_event
sendable-json e h = ground arith

relay_event-publishes :
    (e : Event) (w : World)
    → IsHealthy w.env
    → IsSendable e
    → count_rows (is_unpublished e.id) w.tables.outbox_events ≡ 1
    → (at : Time) × ((relay_event e w).0 ≡ ok tt)
      × ((relay_event e w).1.env ≡ w.env)
      × ((relay_event e w).1.tables.outbox_events
          ≡ update_rows (is_unpublished e.id) (published_row at) w.tables.outbox_events)
unfolding relay_event publish mark_published
relay_event-publishes e w healthy (valid, timely) one = (
  w.env.clock (suc w.step),
  ground (
    arith,
    sendable-json e valid,
    healthy.acknowledges w.step,
    healthy.answers (suc (suc w.step)),
  ),
  ground (
    arith,
    sendable-json e valid,
    healthy.acknowledges w.step,
    healthy.answers (suc (suc w.step)),
  ),
  ground (
    arith,
    sendable-json e valid,
    healthy.acknowledges w.step,
    healthy.answers (suc (suc w.step)),
  ),
)

count-update_rows :
    (id other : ℕ) (at : Time) (es : List Event)
    → other ≢ id
    → count_rows (is_unpublished other) (update_rows (is_unpublished id) (published_row at) es)
      ≡ count_rows (is_unpublished other) es
count-update_rows id other at [] n = refl
count-update_rows id other at (e ∷ es) n = ground (arith, count-update_rows id other at es n)

All-counted :
    (id : ℕ) (at : Time) (es rs : List Event)
    → All (λ (r : Event). r.id ≢ id) rs
    → All (λ (r : Event). count_rows (is_unpublished r.id) es ≡ 1) rs
    → All
        (λ (r : Event).
          count_rows (is_unpublished r.id) (update_rows (is_unpublished id) (published_row at) es)
          ≡ 1)
        rs
All-counted id at es [] n h = tt
All-counted id at es (r ∷ rs) (n, ns) (h, hs) =
    (count-update_rows id r.id at es n ∙ h, All-counted id at es rs ns hs)

AreLeft-update_rows :
    (r : Event) (at : Time) (rs es : List Event)
    → AreLeft (r ∷ rs) es
    → AreLeft rs (update_rows (is_unpublished r.id) (published_row at) es)
AreLeft-update_rows r at rs [] h = tt
AreLeft-update_rows r at rs (e ∷ es) (h, hs) = (ground arith, AreLeft-update_rows r at rs es hs)

AreLeft-none : (es : List Event) → AreLeft [] es → All IsPublished es
AreLeft-none [] h = tt
AreLeft-none (e ∷ es) (h, hs) = (ground arith, AreLeft-none es hs)

-- The loop over rows that are distinct, sendable and unpublished publishes all that is left.
pub for_each-publishes :
    (rs : List Event) (w : World)
    → IsHealthy w.env
    → IsDistinct id_of rs
    → All IsSendable rs
    → All (λ (r : Event). count_rows (is_unpublished r.id) w.tables.outbox_events ≡ 1) rs
    → AreLeft rs w.tables.outbox_events
    → ((for_each (handle_row relay_event) rs w).0 ≡ ok tt)
      × ((for_each (handle_row relay_event) rs w).1.env ≡ w.env)
      × All IsPublished (for_each (handle_row relay_event) rs w).1.tables.outbox_events
unfolding for_each to_domain
for_each-publishes [] w healthy d s c left = (refl, refl, AreLeft-none w.tables.outbox_events left)
for_each-publishes (r ∷ rs) w healthy (d, ds) ((valid, timely), ss) (c, cs) left =
    let (at, good, env, rows) = relay_event-publishes r w healthy (valid, timely) c in
    let w' = (relay_event r w).1 in
    let (done, same, published) =
      for_each-publishes rs w' (rw env healthy) ds ss
        (rw rows (All-counted r.id at w.tables.outbox_events rs d cs))
        (rw rows (AreLeft-update_rows r at rs w.tables.outbox_events left)) in
    rw (valid, good) (done, same ∙ env, published)
