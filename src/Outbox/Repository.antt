-- ===== src/Outbox/Repository.antt =====
-- internal/outbox/adapter/out/postgres/repository.go. The primary key of the table outbox_events
-- is the id, and its column attempts is a 32-bit integer.
use go_pet_project.Base.{
  ℕ, Bool, not, ◌&&◌, ◌||◌, some, List, [], ◌∷◌, ◌++◌, ◌==◌, leb, if◌then◌else◌, find, select, take,
  length, update_rows, count_rows, is_some,
}
use go_pet_project.Base.Int.{ℤ, pos, pos_part, ◌+ℤ◌, ltb_ℤ, leb_ℤ, eqb_ℤ}
use go_pet_project.Base.Sort.{order_by}
use go_pet_project.Time.{Time}
use go_pet_project.Errors.{Result, event_not_found, database, limit_not_positive}
use go_pet_project.World.{
  Action, Tables, ◌>>=◌, ◌>>◌, pure, raise, lift, gets, or_raise, modify, refuse_when, statement,
  locked_rows, transaction, for_each,
}
use go_pet_project.Outbox.Event.{Event, restore_event}

abbrev pub has_id : ℕ → Event → Bool
has_id id e = e.id == id

-- `toDomain(model)`
unfoldable pub to_domain : Event → Result Event
to_domain row = restore_event row

unfoldable pub create : Event → Action Event
create e = do
  statement
  taken ← gets (λ db. is_some (find (has_id e.id) db.outbox_events))
  refuse_when taken database
  modify (λ db. record db { outbox_events = db.outbox_events ++ e ∷ [] })
  lift (to_domain e)

unfoldable pub find_by_id : ℕ → Action Event
find_by_id id = do
  statement
  found ← gets (λ db. find (has_id id) db.outbox_events)
  row ← or_raise found event_not_found
  lift (to_domain row)

-- ORDER BY created_at ASC, id ASC
abbrev pub older : Event → Event → Bool
older e f = ltb_ℤ e.created_at f.created_at || (eqb_ℤ e.created_at f.created_at && leb e.id f.id)

-- `published_at IS NULL`, and not locked by another transaction.
abbrev pub is_claimable : (ℕ → Bool) → Event → Bool
is_claimable locked e = not (is_some e.published_at) && not (locked e.id)

unfoldable pub unpublished_rows : ℤ → (ℕ → Bool) → Tables → List Event
unpublished_rows limit locked db =
    take (pos_part limit) (order_by older (select (is_claimable locked) db.outbox_events))

abbrev pub handle_row : (Event → Action (Unit {0})) → Event → Action (Unit {0})
handle_row handle row = do event ← lift (to_domain row); handle event

-- The function of the transaction.
abbrev pub claim_in : ℤ → (Event → Action (Unit {0})) → Action ℕ
claim_in limit handle = do
  statement
  locked ← locked_rows
  rows ← gets (unpublished_rows limit locked)
  for_each (handle_row handle) rows
  pure (length rows)

-- The handler runs in the transaction that holds the rows. All rows have been handled where the
-- number is returned.
unfoldable pub claim_unpublished : ℤ → (Event → Action (Unit {0})) → Action ℕ
claim_unpublished limit handle =
    if leb_ℤ limit (pos 0) then raise limit_not_positive else transaction (claim_in limit handle)

-- `id = ? AND published_at IS NULL`
abbrev pub is_unpublished : ℕ → Event → Bool
is_unpublished id e = e.id == id && not (is_some e.published_at)

abbrev pub published_row : Time → Event → Event
published_row at e = record e { published_at = some at }

unfoldable pub mark_published : ℕ → Time → Action (Unit {0})
mark_published id at = do
  statement
  affected ← gets (λ db. count_rows (is_unpublished id) db.outbox_events)
  modify (λ db. record db {
    outbox_events = update_rows (is_unpublished id) (published_row at) db.outbox_events;
  })
  refuse_when (not (affected == 1)) event_not_found

abbrev pub attempted_row : Event → Event
attempted_row e = record e { attempts = e.attempts +ℤ pos 1 }

-- The largest value of the column: PostgreSQL refuses a larger one.
abbrev pub max_attempts : ℤ
max_attempts = pos 2147483647

abbrev pub overflows : ℕ → Event → Bool
overflows id e = is_unpublished id e && leb_ℤ max_attempts e.attempts

unfoldable pub increment_attempts : ℕ → Action (Unit {0})
increment_attempts id = do
  statement
  affected ← gets (λ db. count_rows (is_unpublished id) db.outbox_events)
  overflow ← gets (λ db. is_some (find (overflows id) db.outbox_events))
  refuse_when overflow database
  modify (λ db. record db {
    outbox_events = update_rows (is_unpublished id) attempted_row db.outbox_events;
  })
  refuse_when (not (affected == 1)) event_not_found
