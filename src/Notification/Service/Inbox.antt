-- ===== src/Notification/Service/Inbox.antt =====
-- The consumer of the topic as an inbox without duplicates: any sequence of deliveries of events, with
-- repetitions and failures, makes one notification of each event.
use go_pet_project.Base.{
  ℕ, Bool, true, false, ◌||◌, ◌==◌, List, [], ◌∷◌, ◌++◌, ◌≡◌, ◌≢◌, sym, ap, ◌∙◌, arith, find,
  is_some, All, All2, inl, inr, Bool-cases, if◌then◌else◌,
}
use go_pet_project.Base.Distinct.{IsDistinct}
use go_pet_project.Time.{Time}
use go_pet_project.Errors.{Result, ok, err, Result-cases}
use go_pet_project.World.{World, Tables, ProcessedEvent, IsTransactional}
use go_pet_project.Notification.Repository.ProcessedEvents.{is_entry}
use go_pet_project.Notification.Service.{
  HandleNotificationRequestedCommand, consumer_name, handle_notification_requested,
}
use go_pet_project.Notification.Service.Once.{is_processed, processed_unchanged}
use go_pet_project.Notification.Service.Notified.{IsFor, handle-IsNotified}
use go_pet_project.Notification.Service.Effects.{env-handle, handle_atomic, handle-row}

-- The specification: an event is taken once.
abbrev is_in : List HandleNotificationRequestedCommand → ℕ → Bool
is_in inbox event = is_some (find (λ c. c.event_id == event) inbox)

abbrev pub accept :
    Result (Unit {0})
    → HandleNotificationRequestedCommand
    → List HandleNotificationRequestedCommand
    → List HandleNotificationRequestedCommand
accept (err e) c inbox = inbox
accept (ok _) c inbox = if is_in inbox c.event_id then inbox else inbox ++ c ∷ []

-- The deliveries of the broker, one after the other, and what the inbox makes of their results.
abbrev pub consume : List HandleNotificationRequestedCommand → World → World
consume [] w = w
consume (c ∷ cs) w = consume cs (handle_notification_requested c w).1

abbrev pub inbox_after :
    List HandleNotificationRequestedCommand
    → World
    → List HandleNotificationRequestedCommand
    → List HandleNotificationRequestedCommand
inbox_after [] w inbox = inbox
inbox_after (c ∷ cs) w inbox =
    let (r, w') = handle_notification_requested c w in inbox_after cs w' (accept r c inbox)

-- The database holds the inbox: one notification of each event, in order, and the events that are
-- processed.
pub record Holds (inbox : List HandleNotificationRequestedCommand) (db : Tables) : Type 0 where
  pub distinct : IsDistinct (λ (c : HandleNotificationRequestedCommand). c.event_id) inbox
  pub notified : All2 IsFor inbox db.notifications
  pub processed : (event : ℕ) → is_processed db event ≡ is_in inbox event

is_some-find-append :
    {A : Type 0} (p : A → Bool) (xs : List A) (x : A)
    → is_some (find p (xs ++ x ∷ [])) ≡ (is_some (find p xs) || p x)
is_some-find-append p [] x = ground arith
is_some-find-append p (y ∷ ys) x = ground (arith, is_some-find-append p ys x)

All2-append :
    {A B : Type 0} (R : A → B → Type 0) (xs : List A) (ys : List B) (x : A) (y : B)
    → All2 R xs ys
    → R x y
    → All2 R (xs ++ x ∷ []) (ys ++ y ∷ [])
All2-append R [] [] x y rs r = (r, tt)
All2-append R (a ∷ zs) (b ∷ bs) x y (h, hs) r = (h, All2-append R zs bs x y hs r)
All2-append R [] (b ∷ bs) x y rs r = absurd rs
All2-append R (a ∷ zs) [] x y rs r = absurd rs

-- The number of an event.
abbrev id_of : HandleNotificationRequestedCommand → ℕ
id_of c = c.event_id

All-append :
    {A : Type 0} (P : A → Type 0) (xs : List A) (x : A) → All P xs → P x → All P (xs ++ x ∷ [])
All-append P [] x h k = (k, tt)
All-append P (y ∷ ys) x (h, hs) k = (h, All-append P ys x hs k)

IsDistinct-append :
    (inbox : List HandleNotificationRequestedCommand) (c : HandleNotificationRequestedCommand)
    → IsDistinct id_of inbox
    → is_in inbox c.event_id ≡ false
    → IsDistinct id_of (inbox ++ c ∷ [])
IsDistinct-append [] c d fresh = (tt, tt)
IsDistinct-append (x ∷ xs) c (d, ds) fresh = (
  All-append (λ (y : HandleNotificationRequestedCommand). y.event_id ≢ x.event_id) xs c d
      (ground arith),
  IsDistinct-append xs c ds (ground arith),
)

-- A row more among the processed events, and an event more in the inbox.
processed-append :
    (c : HandleNotificationRequestedCommand) (at : Time)
    (inbox : List HandleNotificationRequestedCommand) (ps : List ProcessedEvent) (event : ℕ)
    {after : List ProcessedEvent}
    → after
      ≡ ps
        ++ record { consumer_name = consumer_name; event_id = c.event_id; processed_at = at } ∷ []
    → is_some (find (is_entry consumer_name event) ps) ≡ is_in inbox event
    → is_some (find (is_entry consumer_name event) after) ≡ is_in (inbox ++ c ∷ []) event
processed-append c at inbox ps event rows same =
    ap (λ qs. is_some (find (is_entry consumer_name event) qs)) rows
    ∙ is_some-find-append (is_entry consumer_name event) ps _
    ∙ ap (λ b. b || c.event_id == event) same
    ∙ sym (
        is_some-find-append (λ (d : HandleNotificationRequestedCommand). d.event_id == event) inbox
          c)

-- One delivery.
handle-Holds :
    (c : HandleNotificationRequestedCommand) (inbox : List HandleNotificationRequestedCommand)
    (w : World)
    → IsTransactional w.env
    → Holds inbox w.tables
    → Holds
        (accept (handle_notification_requested c w).0 c inbox)
        (handle_notification_requested c w).1.tables
handle-Holds c inbox w t held = elim (Result-cases (handle_notification_requested c w).0) [
  | inr (e, bad) ↦ rw (bad, handle_atomic c w t bad) held
  | inl (_, good) ↦ elim (Bool-cases (is_processed w.tables c.event_id)) [
    | inl seen ↦
        let known : is_in inbox c.event_id ≡ true = sym (held.processed c.event_id) ∙ seen in
        rw (good, known, processed_unchanged c w t seen) held
    | inr fresh ↦
        let unknown : is_in inbox c.event_id ≡ false = sym (held.processed c.event_id) ∙ fresh in
        let (n, is_for, rows, _) = handle-IsNotified c w good fresh in
        let (at, events) = handle-row c w good fresh in
        rw (good, unknown)
          (record {
            distinct = IsDistinct-append inbox c held.distinct unknown;
            notified =
                rw rows (All2-append IsFor inbox w.tables.notifications c n held.notified is_for);
            processed = λ event.
                processed-append c at inbox w.tables.processed_events event events
                  (held.processed event);
          })
  ]
]

-- Where the database is transactional, whatever the broker delivers, in whichever order and however
-- often, and whichever handlings fail, the database holds what an inbox without duplicates makes of
-- the results: each event that was handled without an error once, and one notification of each.
pub consume-Holds :
    (cs inbox : List HandleNotificationRequestedCommand) (w : World)
    → IsTransactional w.env
    → Holds inbox w.tables
    → Holds (inbox_after cs w inbox) (consume cs w).tables
consume-Holds [] inbox w t held = held
consume-Holds (c ∷ cs) inbox w t held =
    let (r, w') = handle_notification_requested c w in
    consume-Holds cs (accept r c inbox) w' (rw (env-handle c w) t) (handle-Holds c inbox w t held)
