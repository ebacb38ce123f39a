-- ===== src/Outbox/Relay/Announced.antt =====
-- The relay marks an event as published only after the broker has it.
use go_pet_project.Base.{
  ℕ, true, ◌≡◌, ◌&&◌, arith, find, is_some, update_rows, inl, inr, suc, Bool-cases,
}
use go_pet_project.Base.Int.{ℤ, pos, leb_ℤ}
use go_pet_project.Time.{Time}
use go_pet_project.Errors.{ok, Result-cases}
use go_pet_project.World.{World, IsTransactional, Action, transaction, rolled_back, for_each, tick}
use go_pet_project.World.Loops.{for_each-keeps}
use go_pet_project.Outbox.Event.{Event, is_valid_json}
use go_pet_project.Outbox.Envelope.{has_json_form, record_of, new_envelope}
use go_pet_project.Outbox.Repository.{
  to_domain, claim_unpublished, unpublished_rows, handle_row, claim_in, overflows, mark_published,
  increment_attempts, is_unpublished, published_row, attempted_row,
}
use go_pet_project.Outbox.Relay.{publish, relay_event, process_once}
use go_pet_project.Outbox.Relay.Topic.{
  AllAnnounced, is_announced, Announces, All-IsAnnounced-Grows, published_rows-IsAnnounced,
  attempted_rows-IsAnnounced, Announces-order, rows-Announces, answered-Announces, quiet,
}

publish-Announces :
    (e : Event) (w : World)
    → Announces w (publish e w).1
      × ((publish e w).0 ≡ ok tt → is_announced (publish e w).1.topic e.id ≡ true)
unfolding publish record_of new_envelope
publish-Announces e w = elim (Bool-cases (has_json_form e.created_at && is_valid_json e.payload)) [
  | inl good ↦ rw good (answered-Announces (w.env.broker w.step) (record_of e) w)
  | inr bad ↦ rw bad (Announces-order.stays w, λ h. absurd (ground arith))
]

mark_published-Announces :
    (id : ℕ) (at : Time) (w : World)
    → is_announced w.topic id ≡ true
    → Announces w (mark_published id at w).1
unfolding mark_published
mark_published-Announces id at w a = elim (Bool-cases (w.env.statement_fails w.step)) [
  | inl fails ↦
      rows-Announces w.tables.outbox_events w _ (ground arith) (ground arith) (ground arith)
        (λ h. h)
  | inr works ↦
      rows-Announces (update_rows (is_unpublished id) (published_row at) w.tables.outbox_events) w _
        (ground arith) (ground arith) (ground arith)
        (published_rows-IsAnnounced w.topic id at w.tables.outbox_events a)
]

increment_attempts-Announces : (id : ℕ) (w : World) → Announces w (increment_attempts id w).1
unfolding increment_attempts
increment_attempts-Announces id w = elim (Bool-cases (w.env.statement_fails w.step)) [
  | inl fails ↦
      rows-Announces w.tables.outbox_events w _ (ground arith) (ground arith) (ground arith)
        (λ h. h)
  | inr works ↦ elim (Bool-cases (is_some (find (overflows id) w.tables.outbox_events))) [
    | inl fails ↦
        rows-Announces w.tables.outbox_events w _ (ground arith) (ground arith) (ground arith)
          (λ h. h)
    | inr fits ↦
        rows-Announces (update_rows (is_unpublished id) attempted_row w.tables.outbox_events) w _
          (ground arith) (ground arith) (ground arith)
          (attempted_rows-IsAnnounced w.topic id w.tables.outbox_events)
  ]
]

relay_event-Announces : (e : Event) (w : World) → Announces w (relay_event e w).1
unfolding relay_event
relay_event-Announces e w =
    let (sent, at_broker) = publish-Announces e w in
    elim (Result-cases (publish e w).0) [
      | inl (tt, good) ↦ rw good (
          Announces-order.composes sent (
            Announces-order.composes (quiet (publish e w).1)
              (mark_published-Announces e.id _ (tick (publish e w).1) (at_broker good))))
      | inr (_, bad) ↦
          rw bad (Announces-order.composes sent (increment_attempts-Announces e.id (publish e w).1))
    ]

handle_row-Announces : (row : Event) (w : World) → Announces w (handle_row relay_event row w).1
handle_row-Announces row w = elim (Result-cases (to_domain row)) [
  | inl (e, good) ↦ rw good (relay_event-Announces e w)
  | inr (_, bad) ↦ rw bad (Announces-order.stays w)
]

-- A rollback takes the tables back, and leaves the topic.
rolled_back-Announces :
    (w w' : World) → IsTransactional w.env → Announces w w' → Announces w (rolled_back w w')
rolled_back-Announces w w' t h = record {
  same_env = h.same_env;
  grows = h.grows;
  announces = λ all.
      rw (t.discards w.tables w'.tables)
        (All-IsAnnounced-Grows w.topic w'.topic w.tables.outbox_events h.grows all);
}

transaction-Announces :
    {A : Type 0} (m : Action A) (w : World)
    → IsTransactional w.env
    → Announces (tick w) (m (tick w)).1
    → Announces w (transaction m w).1
unfolding transaction
transaction-Announces m w t h =
    let w' = (m (tick w)).1 in
    let ran = Announces-order.composes (quiet w) h in
    let ended = Announces-order.composes ran (quiet w') in
    elim (Bool-cases (w.env.statement_fails w.step)) [
      | inl fails ↦ rw fails (quiet w)
      | inr works ↦ elim (Result-cases (m (tick w)).0) [
        | inr (_, bad) ↦ rw (works, bad) (rolled_back-Announces w w' t ran)
        | inl (_, good) ↦ elim (Bool-cases (w'.env.statement_fails w'.step)) [
          | inl lost ↦ rw (works, good, lost) (rolled_back-Announces w (tick w') t ended)
          | inr kept ↦ rw (works, good, kept) ended
        ]
      ]
    ]

claimed-Announces : (limit : ℤ) (w : World) → Announces w (claim_in limit relay_event w).1
claimed-Announces limit w =
    let rows = unpublished_rows limit (w.env.locked (suc w.step)) w.tables in
    let looped =
      for_each-keeps Announces (handle_row relay_event) Announces-order handle_row-Announces rows
        (tick w) in
    elim (Bool-cases (w.env.statement_fails w.step)) [
      | inl fails ↦ rw fails (quiet w)
      | inr works ↦ elim (Result-cases (for_each (handle_row relay_event) rows (tick w)).0) [
        | inl (_, good) ↦ rw (works, good) (Announces-order.composes (quiet w) looped)
        | inr (_, bad) ↦ rw (works, bad) (Announces-order.composes (quiet w) looped)
      ]
    ]

-- However a poll of the relay ends, each event that the database has as published has a record on
-- the topic, if that was so before.
pub process_once-Announces :
    (batch_size : ℤ) (w : World)
    → IsTransactional w.env
    → AllAnnounced w
    → AllAnnounced (process_once batch_size w).1
unfolding process_once claim_unpublished
process_once-Announces batch_size w t h = elim (Bool-cases (leb_ℤ batch_size (pos 0))) [
  | inl none_asked ↦ rw none_asked h
  | inr asked ↦
      rw asked ((transaction-Announces _ w t (claimed-Announces batch_size (tick w))).announces h)
]
