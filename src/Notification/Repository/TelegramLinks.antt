-- ===== src/Notification/Repository/TelegramLinks.antt =====
-- `TelegramLinkRepository` of internal/notification/adapter/out/postgres/repository.go.
use go_pet_project.Base.{
  ℕ, Bool, not, List, [], ◌∷◌, ◌++◌, ◌==◌, if◌then◌else◌, find, select, update_rows, count_rows,
  is_some,
}
use go_pet_project.Errors.{telegram_link_not_found}
use go_pet_project.World.{Action, ◌>>=◌, ◌>>◌, lift, gets, or_raise, modify, refuse_when, statement}
use go_pet_project.Notification.Telegram.{TelegramLink, restore_telegram_link}

abbrev pub is_of : ℕ → TelegramLink → Bool
is_of user l = l.user_id == user

unfoldable pub find_by_user_id : ℕ → Action TelegramLink
find_by_user_id user = do
  statement
  found ← gets (λ db. find (is_of user) db.telegram_links)
  row ← or_raise found telegram_link_not_found
  lift (restore_telegram_link row)

-- ON CONFLICT (user_id) DO UPDATE: every column but the key is set.
abbrev pub upserted : TelegramLink → List TelegramLink → List TelegramLink
upserted l rows =
    if is_some (find (is_of l.user_id) rows)
    then update_rows (is_of l.user_id) (λ _. l) rows
    else rows ++ l ∷ []

unfoldable pub upsert : TelegramLink → Action TelegramLink
upsert l = do
  statement
  modify (λ db. record db { telegram_links = upserted l db.telegram_links })
  lift (restore_telegram_link l)

unfoldable pub set_enabled : ℕ → Bool → Action (Unit {0})
set_enabled user value = do
  statement
  affected ← gets (λ db. count_rows (is_of user) db.telegram_links)
  modify (λ db. record db {
    telegram_links = update_rows (is_of user) (λ l. record l { enabled = value }) db.telegram_links;
  })
  refuse_when (not (affected == 1)) telegram_link_not_found

unfoldable pub delete : ℕ → Action (Unit {0})
delete user = do
  statement
  modify
      (λ db. record db { telegram_links = select (λ l. not (l.user_id == user)) db.telegram_links })
