-- ===== src/Notification/Telegram.antt =====
-- internal/notification/domain/telegram.go
use go_pet_project.Base.{ℕ, Bool, true, Option, none, ◌==◌}
use go_pet_project.Base.Int.{ℤ, pos, eqb_ℤ}
use go_pet_project.Base.Text.{Text, is_blank}
use go_pet_project.Time.{Time, is_zero}
use go_pet_project.Errors.{
  Result, ok, refuse_if, ◌>>◌, invalid_user_id, invalid_telegram_chat_id,
  invalid_telegram_linked_at, invalid_telegram_link_token_id, invalid_telegram_link_token,
  invalid_telegram_link_token_expiry, notification_invalid_created_at,
  invalid_telegram_link_token_used_at,
}
use go_pet_project.Notification.Delivery.{trimmed, points_to_zero}

pub record TelegramLink : Type 0 where
  pub user_id : ℕ
  pub chat_id : ℤ
  pub telegram_username : Option Text
  pub linked_at : Time
  pub enabled : Bool

-- The arguments are the fields of the link to be.
unfoldable pub restore_telegram_link : TelegramLink → Result TelegramLink
unfolding trimmed
restore_telegram_link l = do
  refuse_if (l.user_id == 0) invalid_user_id
  refuse_if (eqb_ℤ l.chat_id (pos 0)) invalid_telegram_chat_id
  refuse_if (is_zero l.linked_at) invalid_telegram_linked_at
  ok (record l { telegram_username = trimmed l.telegram_username })

unfoldable pub new_telegram_link : ℕ → ℤ → Option Text → Time → Result TelegramLink
unfolding restore_telegram_link
new_telegram_link user chat username linked = restore_telegram_link (record {
  user_id = user;
  chat_id = chat;
  telegram_username = username;
  linked_at = linked;
  enabled = true;
})

pub record TelegramLinkToken : Type 0 where
  pub id : ℕ
  pub user_id : ℕ
  pub token_hash : Text
  pub expires_at : Time
  pub used_at : Option Time
  pub created_at : Time

-- The arguments are the fields of the token to be.
unfoldable pub restore_telegram_link_token : TelegramLinkToken → Result TelegramLinkToken
restore_telegram_link_token t = do
  refuse_if (t.id == 0) invalid_telegram_link_token_id
  refuse_if (t.user_id == 0) invalid_user_id
  refuse_if (is_blank t.token_hash) invalid_telegram_link_token
  refuse_if (is_zero t.expires_at) invalid_telegram_link_token_expiry
  refuse_if (is_zero t.created_at) notification_invalid_created_at
  refuse_if (points_to_zero t.used_at) invalid_telegram_link_token_used_at
  ok t

unfoldable pub new_telegram_link_token : ℕ → ℕ → Text → Time → Time → Result TelegramLinkToken
unfolding restore_telegram_link_token
new_telegram_link_token id user hash expires created = restore_telegram_link_token (record {
  id = id;
  user_id = user;
  token_hash = hash;
  expires_at = expires;
  used_at = none;
  created_at = created;
})
