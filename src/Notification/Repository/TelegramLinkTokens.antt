-- ===== src/Notification/Repository/TelegramLinkTokens.antt =====
-- `TelegramLinkTokenRepository` of internal/notification/adapter/out/postgres/repository.go.
use go_pet_project.Base.{
  Bool, not, ◌&&◌, ◌||◌, some, [], ◌∷◌, ◌++◌, ◌==◌, find, update_rows, count_rows, is_some,
}
use go_pet_project.Base.Int.{ltb_ℤ}
use go_pet_project.Base.Text.{Text, same_text}
use go_pet_project.Time.{Time}
use go_pet_project.Errors.{database, telegram_link_token_not_found}
use go_pet_project.World.{Action, ◌>>=◌, ◌>>◌, lift, gets, or_raise, modify, refuse_when, statement}
use go_pet_project.Notification.Telegram.{TelegramLinkToken, restore_telegram_link_token}

-- The primary key, and the unique column token_hash.
abbrev pub conflicts : TelegramLinkToken → TelegramLinkToken → Bool
conflicts t u = t.id == u.id || same_text t.token_hash u.token_hash

unfoldable pub create : TelegramLinkToken → Action TelegramLinkToken
create t = do
  statement
  taken ← gets (λ db. is_some (find (conflicts t) db.telegram_link_tokens))
  refuse_when taken database
  modify (λ db. record db { telegram_link_tokens = db.telegram_link_tokens ++ t ∷ [] })
  lift (restore_telegram_link_token t)

-- `token_hash = ? AND used_at IS NULL AND expires_at > ?`
abbrev pub is_usable : Text → Time → TelegramLinkToken → Bool
is_usable hash at t =
    same_text t.token_hash hash && not (is_some t.used_at) && ltb_ℤ at t.expires_at

abbrev pub used_row : Time → TelegramLinkToken → TelegramLinkToken
used_row at t = record t { used_at = some at }

-- The row is returned as it is after the UPDATE.
unfoldable pub consume_by_hash : Text → Time → Action TelegramLinkToken
consume_by_hash hash at = do
  statement
  affected ← gets (λ db. count_rows (is_usable hash at) db.telegram_link_tokens)
  found ← gets (λ db. find (is_usable hash at) db.telegram_link_tokens)
  modify (λ db. record db {
    telegram_link_tokens = update_rows (is_usable hash at) (used_row at) db.telegram_link_tokens;
  })
  refuse_when (not (affected == 1)) telegram_link_token_not_found
  row ← or_raise found telegram_link_token_not_found
  lift (restore_telegram_link_token (used_row at row))
