-- ===== src/Outbox/Relay/Topic.antt =====
-- What the topic has of the events that the database has as published.
use go_pet_project.Base.{
  ℕ, Bool, true, List, [], ◌∷◌, ◌++◌, ◌≡◌, refl, ◌∙◌, arith, All, find, is_some, update_rows, ◌==◌,
}
use go_pet_project.Time.{Time}
use go_pet_project.Errors.{ok}
use go_pet_project.World.{World, tick, Answer, acknowledged, unacknowledged, refused, answered}
use go_pet_project.World.Loops.{IsPreorder}
use go_pet_project.Outbox.Event.{Event}
use go_pet_project.Outbox.Envelope.{Record}
use go_pet_project.Outbox.Repository.{is_unpublished, published_row, attempted_row}

abbrev pub is_record_of : ℕ → Record → Bool
is_record_of id r = r.value.event_id == id

-- The topic has a record of the event with this id.
abbrev pub is_announced : List Record → ℕ → Bool
is_announced topic id = is_some (find (is_record_of id) topic)

-- An event that is marked as published has a record on the topic.
abbrev pub IsAnnounced : List Record → Event → Type 0
IsAnnounced topic e = is_some e.published_at ≡ true → is_announced topic e.id ≡ true

abbrev pub AllAnnounced : World → Type 0
AllAnnounced w = All (IsAnnounced w.topic) w.tables.outbox_events

abbrev pub Grows : List Record → List Record → Type 0
Grows topic topic' = (id : ℕ) → is_announced topic id ≡ true → is_announced topic' id ≡ true

pub is_announced-append :
    (topic : List Record) (r : Record) (id : ℕ)
    → is_announced topic id ≡ true
    → is_announced (topic ++ r ∷ []) id ≡ true
is_announced-append [] r id h = ground arith
is_announced-append (x ∷ topic) r id h = ground (arith, is_announced-append topic r id)

pub is_announced-appended :
    (topic : List Record) (r : Record) → is_announced (topic ++ r ∷ []) r.value.event_id ≡ true
is_announced-appended [] r = ground arith
is_announced-appended (x ∷ topic) r = ground (arith, is_announced-appended topic r)

pub All-IsAnnounced-Grows :
    (topic topic' : List Record) (es : List Event)
    → Grows topic topic'
    → All (IsAnnounced topic) es
    → All (IsAnnounced topic') es
All-IsAnnounced-Grows topic topic' [] g h = tt
All-IsAnnounced-Grows topic topic' (e ∷ es) g (h, hs) =
    (λ p. g e.id (h p), All-IsAnnounced-Grows topic topic' es g hs)

pub published_rows-IsAnnounced :
    (topic : List Record) (id : ℕ) (at : Time) (es : List Event)
    → is_announced topic id ≡ true
    → All (IsAnnounced topic) es
    → All (IsAnnounced topic) (update_rows (is_unpublished id) (published_row at) es)
published_rows-IsAnnounced topic id at [] a h = tt
published_rows-IsAnnounced topic id at (e ∷ es) a (h, hs) =
    (ground arith, published_rows-IsAnnounced topic id at es a hs)

pub attempted_rows-IsAnnounced :
    (topic : List Record) (id : ℕ) (es : List Event)
    → All (IsAnnounced topic) es
    → All (IsAnnounced topic) (update_rows (is_unpublished id) attempted_row es)
attempted_rows-IsAnnounced topic id [] h = tt
attempted_rows-IsAnnounced topic id (e ∷ es) (h, hs) =
    (ground arith, attempted_rows-IsAnnounced topic id es hs)

-- What an action of the relay keeps, however it ends: the environment, the topic but for new
-- records, and that each published event is announced.
pub record Announces (w w' : World) : Type 0 where
  pub same_env : w'.env ≡ w.env
  pub grows : Grows w.topic w'.topic
  pub announces : AllAnnounced w → AllAnnounced w'

pub Announces-order : IsPreorder Announces
Announces-order = record {
  stays = λ w. record { same_env = refl; grows = λ _ h. h; announces = λ h. h };
  composes = λ f g. record {
    same_env = g.same_env ∙ f.same_env;
    grows = λ id h. g.grows id (f.grows id h);
    announces = λ h. g.announces (f.announces h);
  };
}

-- A record more on the topic.
pub appended-Announces :
    (r : Record) (w : World) → Announces w (record (tick w) { topic = w.topic ++ r ∷ [] })
appended-Announces r w =
    let more : Grows w.topic (w.topic ++ r ∷ []) = λ id h. is_announced-append w.topic r id h in
    record {
      same_env = refl;
      grows = more;
      announces =
          λ h. All-IsAnnounced-Grows w.topic (w.topic ++ r ∷ []) w.tables.outbox_events more h;
    }

-- The rows of the events are all that changes.
pub rows-Announces :
    (es : List Event) (w w' : World)
    → w'.env ≡ w.env
    → w'.topic ≡ w.topic
    → w'.tables.outbox_events ≡ es
    → (AllAnnounced w → All (IsAnnounced w.topic) es)
    → Announces w w'
rows-Announces es w w' env topic rows h = record {
  same_env = env;
  grows = λ id a. rw topic a;
  announces = λ all. rw (topic, rows) (h all);
}

pub answered-Announces :
    (a : Answer) (r : Record) (w : World)
    → Announces w (answered a r w).1
      × ((answered a r w).0 ≡ ok tt → is_announced (answered a r w).1.topic r.value.event_id ≡ true)
answered-Announces acknowledged r w = (appended-Announces r w, λ _. is_announced-appended w.topic r)
answered-Announces unacknowledged r w = (appended-Announces r w, λ h. absurd (ground arith))
answered-Announces refused r w = (
  rows-Announces w.tables.outbox_events w (tick w) refl refl refl (λ h. h),
  λ h. absurd (ground arith),
)

pub quiet : (w : World) → Announces w (tick w)
quiet w = rows-Announces w.tables.outbox_events w (tick w) refl refl refl (λ h. h)
