-- ===== src/Notification/Service/Linking.antt =====
-- `HandleTelegramStart` of internal/notification/application/service/notification_service.go links
-- a chat to the user of a token, once.
use go_pet_project.Base.{
  ℕ, suc, true, Option, some, none, List, [], ◌∷◌, ◌≡◌, ◌≢◌, refl, ◌∙◌, arith, find, update_rows,
  inl, inr, Bool-cases, Option-cases, ◌||◌,
}
use go_pet_project.Base.Text.{Text, trim_space, is_empty}
use go_pet_project.Base.Int.{ℤ, pos, eqb_ℤ, ◌≤ℤ◌}
use go_pet_project.Time.{Time}
use go_pet_project.Errors.{Error, ok, err, Result-cases, telegram_link_token_not_found}
use go_pet_project.World.{World, Tables, transaction, tick}
use go_pet_project.World.Frames.{transaction-ok}
use go_pet_project.Notification.Telegram.{
  TelegramLink, TelegramLinkToken, new_telegram_link, restore_telegram_link,
  restore_telegram_link_token,
}
use go_pet_project.Notification.Repository.TelegramLinks
use go_pet_project.Notification.Repository.TelegramLinks.{upserted}
use go_pet_project.Notification.Repository.TelegramLinkTokens.{is_usable, used_row, consume_by_hash}
use go_pet_project.Notification.Service.{
  HandleTelegramStartCommand, handle_telegram_start, start_in,
}

consume_by_hash-ok :
    (hash : Text) (at : Time) (w : World) {t : TelegramLinkToken}
    → (consume_by_hash hash at w).0 ≡ ok t
    → (row : TelegramLinkToken) × (find (is_usable hash at) w.tables.telegram_link_tokens
        ≡ some row)
      × (t.user_id ≡ row.user_id)
      × ((consume_by_hash hash at w).1.tables ≡ record (w.tables) {
        telegram_link_tokens =
            update_rows (is_usable hash at) (used_row at) w.tables.telegram_link_tokens;
      })
unfolding consume_by_hash restore_telegram_link_token
consume_by_hash-ok hash at w h =
    elim (Option-cases (find (is_usable hash at) w.tables.telegram_link_tokens)) [
      | inl missing ↦ absurd (ground arith)
      | inr (row, found) ↦ (row, found, ground arith, ground arith)
    ]

upsert-rows :
    (l : TelegramLink) (w : World) {u : TelegramLink}
    → (TelegramLinks.upsert l w).0 ≡ ok u
    → (TelegramLinks.upsert l w).1.tables
      ≡ record (w.tables) { telegram_links = upserted l w.tables.telegram_links }
unfolding TelegramLinks.upsert
upsert-rows l w h = ground arith

new_telegram_link-ok :
    (user : ℕ) (chat : ℤ) (name : Option Text) (at : Time) {l : TelegramLink}
    → new_telegram_link user chat name at ≡ ok l
    → (l.user_id ≡ user) × (l.chat_id ≡ chat) × (l.enabled ≡ true)
unfolding new_telegram_link restore_telegram_link
new_telegram_link-ok user chat name at h = ground arith

-- What a start with this raw token, read at this time, has done to the tables.
abbrev pub IsLinked : Text → Time → HandleTelegramStartCommand → Tables → Tables → Type 0
IsLinked hash at cmd db after =
    (row : TelegramLinkToken) × (l : TelegramLink) × (find (is_usable hash at)
        db.telegram_link_tokens
      ≡ some row)
    × (l.user_id ≡ row.user_id)
    × (l.chat_id ≡ cmd.chat_id)
    × (l.enabled ≡ true)
    × (after ≡ record db {
      telegram_link_tokens = update_rows (is_usable hash at) (used_row at) db.telegram_link_tokens;
      telegram_links = upserted l db.telegram_links;
    })

start_in-IsLinked :
    (raw : Text) (cmd : HandleTelegramStartCommand) (w : World)
    → (start_in raw cmd w).0 ≡ ok tt
    → IsLinked
        (w.env.sha256_hex raw)
        (w.env.clock w.step)
        cmd
        w.tables
        (start_in raw cmd w).1.tables
unfolding start_in
start_in-IsLinked raw cmd w h =
    let at = w.env.clock w.step in
    let hash = w.env.sha256_hex raw in
    let (answer, w') = consume_by_hash hash at (tick w) in
    elim (Result-cases answer) [
      | inr (e, bad) ↦ absurd (or_invalid_fails e bad)
      | inl (token, consumed) ↦
          elim (Result-cases
            (new_telegram_link token.user_id cmd.chat_id cmd.telegram_username at)) [
              | inr (_, bad) ↦ absurd (ground arith)
              | inl (l, made) ↦ elim (Result-cases (TelegramLinks.upsert l w').0) [
                | inr (_, bad) ↦ absurd (ground arith)
                | inl (l', stored) ↦
                    let (row, usable, owner, tokens) =
                      consume_by_hash-ok hash at (tick w) consumed in
                    let (of_owner, chat, enabled) =
                      new_telegram_link-ok token.user_id cmd.chat_id cmd.telegram_username at
                        made in
                    (
                      row,
                      l,
                      usable,
                      of_owner ∙ owner,
                      chat,
                      enabled,
                      rw (consumed, made, stored, upsert-rows l w' stored, tokens) refl,
                    )
              ]
            ]
    ]
  where
    or_invalid_fails :
        (e : Error)
        → (consume_by_hash (w.env.sha256_hex raw) (w.env.clock w.step) (tick w)).0 ≡ err e
        → ⊥
    or_invalid_fails telegram_link_token_not_found bad = ground arith
    or_invalid_fails e bad = ground arith

pub handle_telegram_start-IsLinked :
    (cmd : HandleTelegramStartCommand) (w : World)
    → (handle_telegram_start cmd w).0 ≡ ok tt
    → IsLinked
        (w.env.sha256_hex (trim_space cmd.token))
        (w.env.clock (suc w.step))
        cmd
        w.tables
        (handle_telegram_start cmd w).1.tables
unfolding handle_telegram_start
handle_telegram_start-IsLinked cmd w h =
    elim (Bool-cases (is_empty (trim_space cmd.token) || eqb_ℤ cmd.chat_id (pos 0))) [
      | inl invalid ↦ absurd (ground arith)
      | inr valid ↦
          let act = start_in (trim_space cmd.token) cmd in
          let ran : (transaction act w).0 ≡ ok tt = rw valid at h in
          let (inner, kept) = transaction-ok act w ran in
          rw (valid, kept) (start_in-IsLinked (trim_space cmd.token) cmd (tick w) inner)
    ]

none_usable :
    (hash : Text) (at later : Time) (ts : List TelegramLinkToken)
    → at ≤ℤ later
    → find (is_usable hash later) (update_rows (is_usable hash at) (used_row at) ts) ≡ none
none_usable hash at later [] h = refl
none_usable hash at later (t ∷ ts) h = ground (arith, none_usable hash at later ts h)

-- A token links once: after a start that succeeds, no start with the same token succeeds at a later
-- time, while the rows of the tokens are as the first has left them.
pub start_once :
    (cmd again : HandleTelegramStartCommand) (w v : World)
    → (handle_telegram_start cmd w).0 ≡ ok tt
    → trim_space again.token ≡ trim_space cmd.token
    → v.env.sha256_hex (trim_space cmd.token) ≡ w.env.sha256_hex (trim_space cmd.token)
    → v.tables.telegram_link_tokens ≡ (handle_telegram_start cmd w).1.tables.telegram_link_tokens
    → w.env.clock (suc w.step) ≤ℤ v.env.clock (suc v.step)
    → (handle_telegram_start again v).0 ≢ ok tt
start_once cmd again w v h same hashes rows later second =
    let raw = trim_space cmd.token in
    let (row, l, usable, owner, chat, enabled, db) = handle_telegram_start-IsLinked cmd w h in
    let (row', l', usable', _, _, _, _) = handle_telegram_start-IsLinked again v second in
    let left =
      none_usable (w.env.sha256_hex raw) (w.env.clock (suc w.step)) (v.env.clock (suc v.step))
        w.tables.telegram_link_tokens later in
    let found : find (is_usable (w.env.sha256_hex raw) (v.env.clock (suc v.step))) (
          update_rows (is_usable (w.env.sha256_hex raw) (w.env.clock (suc w.step)))
            (used_row (w.env.clock (suc w.step))) w.tables.telegram_link_tokens)
        ≡ some row' =
      rw (same, hashes, rows, db) at usable' in
    absurd (ground arith)
