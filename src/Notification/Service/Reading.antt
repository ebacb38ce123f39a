-- ===== src/Notification/Service/Reading.antt =====
-- `MarkAllRead`, `CountUnread` and `ListNotifications` of
-- internal/notification/application/service/notification_service.go.
use go_pet_project.Base.{
  ℕ, suc, Bool, false, List, [], ◌∷◌, ◌≡◌, ◌≢◌, refl, ◌∙◌, arith, ◌==◌, select, update_rows,
  count_rows, inl, inr, Bool-cases, Option-cases, some, none, find, ◌⊎◌,
}
use go_pet_project.Base.Int.{◌≤ℤ◌}
use go_pet_project.Time.{Time}
use go_pet_project.Errors.{ok, Result-cases}
use go_pet_project.World.{World, Tables, tick}
use go_pet_project.Notification.Domain
use go_pet_project.Notification.Domain.{Notification, restore_notification}
use go_pet_project.Notification.Repository.Notifications
use go_pet_project.Notification.Repository.Notifications.{is_unread_of, read_row, has_id}
use go_pet_project.Notification.Service.{mark_read, mark_all_read, count_unread, list_notifications}

abbrev belongs : ℕ → Notification → Bool
belongs user n = n.user_id == user

count_rows-update_rows :
    (user : ℕ) (at : Time) (rows : List Notification)
    → count_rows (is_unread_of user) (update_rows (is_unread_of user) (read_row at) rows) ≡ 0
count_rows-update_rows user at [] = refl
count_rows-update_rows user at (n ∷ rows) =
    let rest = count_rows-update_rows user at rows in
    elim (Bool-cases (is_unread_of user n)) [ inl unread ↦ ground arith | inr read ↦ ground arith ]

select-update_rows :
    (user other : ℕ) (at : Time) (rows : List Notification)
    → other ≢ user
    → select (belongs other) (update_rows (is_unread_of user) (read_row at) rows)
      ≡ select (belongs other) rows
select-update_rows user other at [] apart = refl
select-update_rows user other at (n ∷ rows) apart =
    let rest = select-update_rows user other at rows apart in
    elim (Bool-cases (is_unread_of user n)) [ inl unread ↦ ground arith | inr read ↦ ground arith ]

mark_all_read_actor :
    (actor : ℕ) (w : World) → (mark_all_read actor w).0 ≡ ok tt → (actor == 0) ≡ false
unfolding mark_all_read
mark_all_read_actor actor w h = ground arith

mark_all_read-rows :
    (actor : ℕ) (w : World)
    → (mark_all_read actor w).0 ≡ ok tt
    → (mark_all_read actor w).1.tables ≡ record (w.tables) {
      notifications =
          update_rows (is_unread_of actor) (read_row (w.env.clock w.step)) w.tables.notifications;
    }
unfolding mark_all_read Notifications.mark_all_read
mark_all_read-rows actor w h = ground arith

-- After a user has marked all its notifications as read, `CountUnread` answers 0 for the user,
-- where the statement does not fail, and `ListNotifications` answers every other user what it would
-- have answered before.
pub mark_all_read-clears :
    (actor other : ℕ) (w v : World)
    → (mark_all_read actor w).0 ≡ ok tt
    → v.tables ≡ (mark_all_read actor w).1.tables
    → v.env.statement_fails v.step ≡ false
    → other ≢ actor
    → ((count_unread actor v).0 ≡ ok 0)
      × ((list_notifications other v).0
          ≡ (list_notifications other (record v { tables = w.tables })).0)
unfolding count_unread list_notifications Notifications.count_unread_by_user_id
    Notifications.list_by_user_id
mark_all_read-clears actor other w v h after up apart =
    let at = w.env.clock w.step in
    let rows = w.tables.notifications in
    let now_read = after ∙ mark_all_read-rows actor w h in
    let present = mark_all_read_actor actor w h in
    let counted = count_rows-update_rows actor at rows in
    let same = select-update_rows actor other at rows apart in
    elim (Bool-cases (other == 0)) [
      | inl nobody ↦ rw (now_read, present, nobody, up, counted) (refl, refl)
      | inr someone ↦ rw (now_read, present, someone, up, counted, same) (refl, refl)
    ]

-- What `MarkRead` at this time has done to the tables.
abbrev pub IsRead : ℕ → ℕ → Time → Tables → Tables → Type 0
IsRead actor id at db after =
    (n : Notification) × (t : Time) × (find (has_id id) db.notifications ≡ some n)
    × (n.user_id ≡ actor)
    × ((n.read_at ≡ some t) ⊎ ((n.read_at ≡ none) × (t ≡ at) × (n.created_at ≤ℤ at)))
    × (after ≡ record db { notifications = update_rows (has_id id) (read_row t) db.notifications })

find_by_id-ok :
    (id : ℕ) (w : World) {n : Notification}
    → (Notifications.find_by_id id w).0 ≡ ok n
    → (find (has_id id) w.tables.notifications ≡ some n)
      × ((Notifications.find_by_id id w).1 ≡ tick w)
unfolding Notifications.find_by_id Notifications.to_domain restore_notification
find_by_id-ok id w h = ground arith

store-ok :
    (id : ℕ) (at : Time) (w : World)
    → (Notifications.mark_read id at w).0 ≡ ok tt
    → (Notifications.mark_read id at w).1.tables ≡ record (w.tables) {
      notifications = update_rows (has_id id) (read_row at) w.tables.notifications;
    }
unfolding Notifications.mark_read
store-ok id at w h = ground arith

-- A notification that is read has a time of reading, which is the one that it had or now.
mark_read-ok :
    (at : Time) (n : Notification) {u : Notification}
    → Domain.mark_read at n ≡ ok u
    → (t : Time) × (u.id ≡ n.id)
      × (u.read_at ≡ some t)
      × ((n.read_at ≡ some t) ⊎ ((n.read_at ≡ none) × (t ≡ at) × (n.created_at ≤ℤ at)))
unfolding Domain.mark_read
mark_read-ok at n h = elim (Option-cases n.read_at) [
  | inl unread ↦ (at, ground arith, ground arith, inr (unread, refl, ground arith))
  | inr (t, read) ↦ (t, ground arith, ground arith, inl read)
]

id-find :
    (id : ℕ) (rows : List Notification) {n : Notification}
    → find (has_id id) rows ≡ some n
    → n.id ≡ id
id-find id [] h = ground arith
id-find id (m ∷ rows) {n} h = elim (Bool-cases (has_id id m)) [
  | inl passes ↦ ground arith
  | inr fails ↦ id-find id rows {n = n} (ground arith)
]

-- `MarkRead` that succeeds found a notification of the actor with the id, whose row has then a time
-- of reading: the one that it had, or, if it was unread, the time of the call, which is not before
-- the notification was created. Nothing else changes.
pub mark_read-IsRead :
    (actor id : ℕ) (w : World)
    → (mark_read actor id w).0 ≡ ok tt
    → IsRead actor id (w.env.clock (suc w.step)) w.tables (mark_read actor id w).1.tables
unfolding mark_read
mark_read-IsRead actor id w h =
    let at = w.env.clock (suc w.step) in
    elim (Result-cases (Notifications.find_by_id id w).0) [
      | inr (e, missing) ↦ absurd (ground arith)
      | inl (n, got) ↦
          let (found, after) = find_by_id-ok id w got in
          elim (Result-cases (Domain.mark_read at n)) [
            | inr (e, bad) ↦ absurd (ground arith)
            | inl (u, read) ↦
                let (t, same, kept, choice) = mark_read-ok at n read in
                let named = id-find id w.tables.notifications found in
                let own : n.user_id ≡ actor = ground arith in
                (n, t, found, own, choice, ground (arith, store-ok id t (tick (tick w))))
          ]
    ]
