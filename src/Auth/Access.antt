-- ===== src/Auth/Access.antt =====
-- `ValidateAccessToken` of internal/auth/adapter/out/jwt/token_provider.go, and the middleware of
-- internal/auth/adapter/in/http. Parsing and verifying a token is the JWT library's, `parse`: it is
-- asked at a time, and tells what the claims are.
pub mod Bearer
mod Tests
use go_pet_project.Base.{
  ℕ, Bool, true, false, ◌&&◌, not, Option, none, some, List, [], ◌∷◌, ◌==◌, ◌+◌, leb, if◌then◌else◌,
}
use go_pet_project.Base.Text.{Text, runes, is_space, is_empty, same_text}
use go_pet_project.Time.{Time}
use go_pet_project.Errors.{Result, ok, err, invalid_access_token, access_token_expired}

-- The claims of a token that is signed with the secret by HS256 and in force. `subject` is the UUID
-- that uuid.Parse reads, if it reads one.
pub record ParsedClaims : Type 0 where
  pub subject : Option ℕ
  pub issued_at : Option Time
  pub expires_at : Option Time

-- What `jwt.ParseWithClaims` answers: the claims, `ErrTokenExpired`, or another error.
pub data Parsed : Type 0 where
  parsed : ParsedClaims → Parsed
  expired refused : Parsed

pub record AccessTokenClaims : Type 0 where
  pub user_id : ℕ
  pub issued_at : Time
  pub expires_at : Time

abbrev with_times : ℕ → Option Time → Option Time → Result AccessTokenClaims
with_times user (some issued) (some expires) =
    ok (record { user_id = user; issued_at = issued; expires_at = expires })
with_times user _ _ = err invalid_access_token

abbrev claims_of : Option ℕ → Option Time → Option Time → Result AccessTokenClaims
claims_of none issued expires = err invalid_access_token
claims_of (some user) issued expires = with_times user issued expires

abbrev checked : Parsed → Result AccessTokenClaims
checked (parsed c) = claims_of c.subject c.issued_at c.expires_at
checked expired = err access_token_expired
checked refused = err invalid_access_token

unfoldable pub validate_access_token :
    (Time → Text → Parsed) → Time → Text → Result AccessTokenClaims
validate_access_token parse now token = checked (parse now token)

-- `strings.Fields`: the word that the text begins with, if it does, and the words after it.
abbrev with_word : Text → List Text → List Text
with_word [] words = words
with_word (c ∷ w) words = (c ∷ w) ∷ words

unfoldable pub split : Text → Text × List Text
unfolding is_space
split [] = ([], [])
split (c ∷ s) =
    let (word, words) = split s in
    if is_space c then ([], with_word word words) else (c ∷ word, words)

unfoldable pub fields : Text → List Text
unfolding split
fields s = let (word, words) = split s in with_word word words

-- `strings.EqualFold`, against a text of ASCII letters that no other rune folds to.
abbrev fold : ℕ → ℕ
fold c = if leb 65 c && leb c 90 then c + 32 else c

abbrev equal_fold : Text → Text → Bool
equal_fold [] [] = true
equal_fold (c ∷ s) (d ∷ t) = let rest = equal_fold s t in fold c == fold d && rest
equal_fold _ _ = false

abbrev bearer_of : List Text → Option Text
bearer_of (scheme ∷ token ∷ []) =
    if not (equal_fold scheme (runes "Bearer"))
    then none
    else if is_empty token
    then none
    else some token
bearer_of _ = none

unfoldable pub parse_bearer_token : Text → Option Text
parse_bearer_token header = bearer_of (fields header)

abbrev user_of : Result AccessTokenClaims → Option ℕ
user_of (ok claims) = some claims.user_id
user_of (err e) = none

abbrev pub validated_user : (Time → Text → Parsed) → Time → Option Text → Option ℕ
validated_user parse now none = none
validated_user parse now (some token) = user_of (validate_access_token parse now token)

-- The user in whose name the next handler serves a request with this Authorization header; where
-- there is none, the answer is 401.
unfoldable pub authenticate : (Time → Text → Parsed) → Time → Text → Option ℕ
authenticate parse now header = validated_user parse now (parse_bearer_token header)

-- The user that a handler finds in the context.
abbrev pub user_id_from_context : Option ℕ → Option ℕ
user_id_from_context none = none
user_id_from_context (some user) = if user == 0 then none else some user
