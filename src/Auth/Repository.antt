-- ===== src/Auth/Repository.antt =====
-- internal/auth/adapter/out/postgres/refresh_token_repository.go. A row of the table refresh_tokens
-- is the token.
use go_pet_project.Base.{
  Bool, not, ◌&&◌, ◌||◌, some, [], ◌∷◌, ◌++◌, ◌==◌, if◌then◌else◌, find, update_rows, count_rows,
  is_some,
}
use go_pet_project.Base.Text.{Text, same_text}
use go_pet_project.Time.{Time}
use go_pet_project.Errors.{database, refresh_token_not_found, refresh_token_revoked}
use go_pet_project.World.{
  Action, ◌>>=◌, ◌>>◌, pure, gets, or_raise, modify, refuse_when, statement, transaction,
}
use go_pet_project.Auth.Domain.{RefreshToken, is_revoked}

abbrev pub has_hash : Text → RefreshToken → Bool
has_hash hash t = same_text t.token_hash hash

-- The primary key, and the unique index on token_hash.
abbrev pub conflicts : RefreshToken → RefreshToken → Bool
conflicts t u = t.id == u.id || same_text t.token_hash u.token_hash

unfoldable pub create : RefreshToken → Action RefreshToken
create t = do
  statement
  taken ← gets (λ db. is_some (find (conflicts t) db.refresh_tokens))
  refuse_when taken database
  modify (λ db. record db { refresh_tokens = db.refresh_tokens ++ t ∷ [] })
  pure t

unfoldable pub find_by_hash : Text → Action RefreshToken
find_by_hash hash = do
  statement
  found ← gets (λ db. find (has_hash hash) db.refresh_tokens)
  or_raise found refresh_token_not_found

abbrev pub revoked_row : Time → RefreshToken → RefreshToken
revoked_row at t = record t { revoked_at = some at }

-- The UPDATE of a row that has been read and locked.
abbrev pub revoke_row : Time → RefreshToken → Action RefreshToken
revoke_row at row = if is_revoked row then pure row else do
  statement
  modify (λ db. record db {
    refresh_tokens = update_rows (λ t. t.id == row.id) (revoked_row at) db.refresh_tokens;
  })
  pure (revoked_row at row)

unfoldable pub revoke_in : Text → Time → Action RefreshToken
revoke_in hash at = do row ← find_by_hash hash; revoke_row at row

unfoldable pub revoke : Text → Time → Action RefreshToken
revoke hash at = transaction (revoke_in hash at)

-- `token_hash = ? AND revoked_at IS NULL`
abbrev pub is_unrevoked : Text → RefreshToken → Bool
is_unrevoked hash t = has_hash hash t && not (is_revoked t)

-- The function of the transaction.
unfoldable pub rotate_in : Text → RefreshToken → Time → Action RefreshToken
rotate_in old_hash new at = do
  old ← find_by_hash old_hash
  refuse_when (is_revoked old) refresh_token_revoked
  statement
  affected ← gets (λ db. count_rows (is_unrevoked old_hash) db.refresh_tokens)
  modify (λ db. record db {
    refresh_tokens = update_rows (is_unrevoked old_hash) (revoked_row at) db.refresh_tokens;
  })
  refuse_when (not (affected == 1)) refresh_token_revoked
  create new

unfoldable pub rotate : Text → RefreshToken → Time → Action RefreshToken
rotate old_hash new at = transaction (rotate_in old_hash new at)
