-- ===== src/Notification/Repository/ProcessedEvents.antt =====
-- `ProcessedEventRepository` of internal/notification/adapter/out/postgres/repository.go.
use go_pet_project.Base.{ℕ, Bool, ◌&&◌, [], ◌∷◌, ◌++◌, ◌==◌, find, is_some, true, false}
use go_pet_project.Base.Text.{Text, same_text}
use go_pet_project.Time.{Time}
use go_pet_project.World.{Action, ProcessedEvent, ◌>>=◌, ◌>>◌, pure, gets, modify, statement}

-- The primary key of the table.
abbrev pub is_entry : Text → ℕ → ProcessedEvent → Bool
is_entry consumer event p = same_text p.consumer_name consumer && p.event_id == event

abbrev insert_unless : Bool → ProcessedEvent → Action Bool
insert_unless true p = pure false
insert_unless false p = do
  modify (λ db. record db { processed_events = db.processed_events ++ p ∷ [] })
  pure true

-- ON CONFLICT DO NOTHING: whether a row was inserted.
unfoldable pub try_insert : Text → ℕ → Time → Action Bool
try_insert consumer event at = do
  statement
  taken ← gets (λ db. is_some (find (is_entry consumer event) db.processed_events))
  insert_unless taken (record { consumer_name = consumer; event_id = event; processed_at = at })

unfoldable pub exists : Text → ℕ → Action Bool
exists consumer event = do
  statement
  gets (λ db. is_some (find (is_entry consumer event) db.processed_events))
