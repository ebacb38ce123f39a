-- ===== src/Notification/Repository/Deliveries.antt =====
-- `DeliveryRepository` of internal/notification/adapter/out/postgres/repository.go.
use text.Mathlib.Text.{◌==◌ as str_eq}
use go_pet_project.Base.{
  ℕ, Bool, not, ◌&&◌, ◌||◌, Option, none, some, List, [], ◌∷◌, ◌++◌, ◌==◌, leb, if◌then◌else◌, find,
  select, take, update_rows, count_rows, is_some, true, false,
}
use go_pet_project.Base.Int.{ℤ, ltb_ℤ, leb_ℤ, eqb_ℤ}
use go_pet_project.Base.Sort.{order_by}
use go_pet_project.Base.Text.{Text}
use go_pet_project.Time.{Time, zero_time}
use go_pet_project.Errors.{
  Result, err, map_rows, database, delivery_not_found, invalid_delivery_channel,
  invalid_delivery_status,
}
use go_pet_project.World.{
  Action, Tables, ◌>>=◌, ◌>>◌, lift, gets, modify, refuse_when, statement, locked_rows,
}
use go_pet_project.Notification.Delivery.{
  NotificationDelivery, Channel, telegram, pending, sent, failed, is_pending, is_valid_channel,
  is_valid_status, restore_delivery,
}

abbrev pub has_id : ℕ → NotificationDelivery → Bool
has_id id d = d.id == id

unfoldable pub to_domain : NotificationDelivery → Result NotificationDelivery
to_domain row =
    if not (is_valid_channel row.channel)
    then err invalid_delivery_channel
    else if not (is_valid_status row.status)
    then err invalid_delivery_status
    else restore_delivery row

abbrev same_channel : Channel → Channel → Bool
same_channel telegram telegram = true
same_channel (Channel.unknown a) (Channel.unknown b) = str_eq a b
same_channel _ _ = false

-- The primary key, and the unique columns (notification_id, channel).
abbrev pub conflicts : NotificationDelivery → NotificationDelivery → Bool
conflicts d e =
    d.id == e.id || (d.notification_id == e.notification_id && same_channel d.channel e.channel)

unfoldable pub create : NotificationDelivery → Action NotificationDelivery
create d = do
  statement
  taken ← gets (λ db. is_some (find (conflicts d) db.deliveries))
  refuse_when taken database
  modify (λ db. record db { deliveries = db.deliveries ++ d ∷ [] })
  lift (to_domain d)

-- A null is not at most `now`.
abbrev is_reached : Option Time → Time → Bool
is_reached none now = false
is_reached (some t) now = leb_ℤ t now

abbrev or_zero : Option Time → Time
or_zero none = zero_time
or_zero (some t) = t

-- ORDER BY next_attempt_at ASC, id ASC, of rows where the time is not null.
abbrev pub due_before : NotificationDelivery → NotificationDelivery → Bool
due_before d e =
    ltb_ℤ (or_zero d.next_attempt_at) (or_zero e.next_attempt_at)
    || (eqb_ℤ (or_zero d.next_attempt_at) (or_zero e.next_attempt_at) && leb d.id e.id)

abbrev pub is_due : Time → (ℕ → Bool) → NotificationDelivery → Bool
is_due now locked d = is_pending d.status && is_reached d.next_attempt_at now && not (locked d.id)

unfoldable pub due_rows : Time → ℕ → (ℕ → Bool) → Tables → List NotificationDelivery
due_rows now limit locked db =
    take limit (order_by due_before (select (is_due now locked) db.deliveries))

unfoldable pub claim_due : Time → ℕ → Action (List NotificationDelivery)
claim_due now limit = do
  statement
  locked ← locked_rows
  rows ← gets (due_rows now limit locked)
  lift (map_rows to_domain rows)

-- The statement that `updateDelivery` sends for each of the three maps of values.
unfoldable pub update_delivery :
    ℕ → (NotificationDelivery → NotificationDelivery) → Action (Unit {0})
update_delivery id change = do
  statement
  affected ← gets (λ db. count_rows (has_id id) db.deliveries)
  modify (λ db. record db { deliveries = update_rows (has_id id) change db.deliveries })
  refuse_when (not (affected == 1)) delivery_not_found

abbrev pub sent_row : ℤ → Time → NotificationDelivery → NotificationDelivery
sent_row attempts at d = record d {
  status = sent;
  attempts = attempts;
  sent_at = some at;
  next_attempt_at = none;
  last_error = none;
}

unfoldable pub mark_sent : ℕ → ℤ → Time → Action (Unit {0})
mark_sent id attempts at = update_delivery id (sent_row attempts at)

abbrev pub retried_row : ℤ → Time → Text → NotificationDelivery → NotificationDelivery
retried_row attempts next last_error d = record d {
  status = pending;
  attempts = attempts;
  next_attempt_at = some next;
  last_error = some last_error;
}

unfoldable pub schedule_retry : ℕ → ℤ → Time → Text → Action (Unit {0})
schedule_retry id attempts next last_error =
    update_delivery id (retried_row attempts next last_error)

abbrev pub failed_row : ℤ → Text → NotificationDelivery → NotificationDelivery
failed_row attempts last_error d = record d {
  status = failed;
  attempts = attempts;
  next_attempt_at = none;
  last_error = some last_error;
}

unfoldable pub mark_failed : ℕ → ℤ → Text → Action (Unit {0})
mark_failed id attempts last_error = update_delivery id (failed_row attempts last_error)
