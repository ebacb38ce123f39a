-- ===== src/Reminder/Repository/Laws.antt =====
-- What the queries and the updates of the table reminders do.
use go_pet_project.Base.{ℕ, [], ◌∷◌, ◌++◌, ◌≡◌, arith, update_rows, count_rows}
use go_pet_project.Errors.{ok}
use go_pet_project.World.{World, tick}
use go_pet_project.Reminder.Domain.{Reminder}
use go_pet_project.Reminder.Repository.{has_id, updated_row, to_domain, find_by_id, create, update}

-- A query changes nothing.
pub find_by_id-tick : (id : ℕ) (w : World) → (find_by_id id w).1 ≡ tick w
unfolding find_by_id
find_by_id-tick id w = ground arith

-- A reminder that is valid as it is, and is created, is one more row at the end of the table.
pub create-appends :
    (r : Reminder) (w : World) {u : Reminder}
    → to_domain r ≡ ok r
    → (create r w).0 ≡ ok u
    → (u ≡ r)
      × ((create r w).1.tables ≡ record (w.tables) { reminders = w.tables.reminders ++ r ∷ [] })
unfolding create
create-appends r w same h = ground arith

-- An update that succeeds has rewritten the one row of the reminder, and nothing else.
pub update-rows :
    (r : Reminder) (w : World) {u : Reminder}
    → (update r w).0 ≡ ok u
    → (count_rows (has_id r.id) w.tables.reminders ≡ 1)
      × ((update r w).1.tables ≡ record (w.tables) {
        reminders = update_rows (has_id r.id) (updated_row r) w.tables.reminders;
      })
unfolding update find_by_id
update-rows r w h = ground arith
