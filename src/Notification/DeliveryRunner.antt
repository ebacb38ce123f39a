-- ===== src/Notification/DeliveryRunner.antt =====
-- internal/notification/application/service/delivery_runner.go: one round of the runner.
pub mod Attempts
pub mod Rounds
pub mod Cuts
pub mod Sends
pub mod Recorded
pub mod Claimed
pub mod Bounded
use go_pet_project.Base.{
  ℕ, zero, suc, Bool, true, false, not, ◌||◌, Option, none, some, List, [], ◌∷◌, map, ◌-◌, ◌==◌,
  ltb, if◌then◌else◌,
}
use go_pet_project.Base.Int.{ℤ, pos, pos_part, ◌+ℤ◌, ◌-ℤ◌}
use go_pet_project.Base.Text.{Text, runes, trim_space, utf8_width}
use go_pet_project.Time.{Time, add}
use go_pet_project.Errors.{Result, ok, err, telegram_link_not_found, database}
use go_pet_project.World.{
  World, Action, Message, ◌>>=◌, ◌>>◌, pure, raise, lift, or_raise, now, transaction, attempt,
  for_each, send_message,
}
use go_pet_project.Notification.Domain.{Notification}
use go_pet_project.Notification.Delivery.{NotificationDelivery}
use go_pet_project.Notification.Telegram.{TelegramLink}
use go_pet_project.Notification.Repository.Notifications
use go_pet_project.Notification.Repository.TelegramLinks
use go_pet_project.Notification.Repository.Deliveries

-- `maxDeliveryErrorLength`, in bytes.
abbrev pub max_delivery_error_length : ℕ
max_delivery_error_length = 500

abbrev prepend : ℕ → Option Text → Option Text
prepend c none = none
prepend c (some s) = some (c ∷ s)

-- `message[:n]`, a cut after n bytes, of a text that may be shorter: nothing if the cut goes through
-- a rune, where what is left is no valid text.
unfoldable pub cut_bytes : ℕ → Text → Option Text
cut_bytes n [] = some []
cut_bytes n (c ∷ s) =
    let rest = cut_bytes (n - utf8_width c) s in
    if n == 0 then some [] else if ltb n (utf8_width c) then none else prepend c rest

-- A line break becomes a space.
abbrev pub without_breaks : Text → Text
without_breaks s = map (λ c. if c == 10 || c == 13 then 32 else c) s

unfoldable pub sanitize_delivery_error : Text → Option Text
unfolding cut_bytes
sanitize_delivery_error message =
    cut_bytes max_delivery_error_length (without_breaks (trim_space message))

-- `r.retryDelays[i]`, where `i < len(r.retryDelays)` holds; `i` is not negative.
unfoldable pub delay_at : List ℤ → ℕ → Option ℤ
delay_at [] i = none
delay_at (d ∷ ds) zero = some d
delay_at (d ∷ ds) (suc i) = delay_at ds i

-- PostgreSQL refuses a text that is not valid UTF-8.
abbrev pub stored_text : Option Text → Action Text
stored_text text = or_raise text database

abbrev pub index_of : ℤ → ℕ
index_of attempts = pos_part (attempts -ℤ pos 1)

-- The branches of `handleSendFailure`.
abbrev pub retry_or_fail : Option ℤ → ℕ → ℤ → Option Text → Action (Unit {0})
retry_or_fail (some delay) id attempts message = do
  at ← now
  last_error ← stored_text message
  Deliveries.schedule_retry id attempts (add at delay) last_error
retry_or_fail none id attempts message = do
  last_error ← stored_text message
  Deliveries.mark_failed id attempts last_error

unfoldable pub handle_send_failure : List ℤ → ℕ → ℤ → Text → Action (Unit {0})
handle_send_failure delays id attempts message =
    retry_or_fail (delay_at delays (index_of attempts)) id attempts
      (sanitize_delivery_error message)

-- `markFailed`; the reasons are short, and are stored as they are.
unfoldable pub mark_failed : NotificationDelivery → Text → Action (Unit {0})
mark_failed d reason = do
  last_error ← stored_text (sanitize_delivery_error reason)
  Deliveries.mark_failed d.id d.attempts last_error

abbrev pub settle_sending :
    List ℤ → NotificationDelivery → Text → Result (Unit {0}) → Action (Unit {0})
settle_sending delays d message (err e) =
    handle_send_failure delays d.id (d.attempts +ℤ pos 1) message
settle_sending delays d message (ok _) = do
  at ← now
  Deliveries.mark_sent d.id (d.attempts +ℤ pos 1) at

-- The text of the error of the next question to Telegram.
abbrev pub next_chat_error : Action Text
next_chat_error w = (ok (w.env.chat_error w.step), w)

abbrev pub send_over :
    List ℤ → NotificationDelivery → Notification → Result TelegramLink → Action (Unit {0})
send_over delays d n (err telegram_link_not_found) =
    mark_failed d (runes "telegram link unavailable")
send_over delays d n (err e) = raise e
send_over delays d n (ok link) =
    if not link.enabled then mark_failed d (runes "telegram link disabled") else do
      message ← next_chat_error
      sending ← send_message (record { chat_id = link.chat_id; title = n.title; body = n.body })
      settle_sending delays d message sending

unfoldable pub process_delivery : List ℤ → NotificationDelivery → Action (Unit {0})
process_delivery delays d = do
  n ← Notifications.find_by_id d.notification_id
  link ← attempt (TelegramLinks.find_by_user_id n.user_id)
  send_over delays d n link

-- The function of the transaction.
unfoldable pub process_due_in : List ℤ → ℕ → Action (Unit {0})
process_due_in delays batch_size = do
  at ← now
  due ← Deliveries.claim_due at batch_size
  for_each (process_delivery delays) due

unfoldable pub process_due : List ℤ → ℕ → Action (Unit {0})
process_due delays batch_size = transaction (process_due_in delays batch_size)
