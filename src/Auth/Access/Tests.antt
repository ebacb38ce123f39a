-- ===== src/Auth/Access/Tests.antt =====
-- Runs of the middleware of internal/auth/adapter/in/http, with tokens that are not encrypted.
use go_pet_project.Base.{
  ℕ, false, Option, none, some, [], ◌∷◌, ◌++◌, ◌≡◌, ◌+◌, ◌-◌, refl, ◌∙◌, arith, All, if◌then◌else◌,
}
use go_pet_project.Base.Int.{ℤ, pos, negsuc, pos_part, neg_part, sub_ℕ, ◌*ℤ◌}
use go_pet_project.Base.Text.{Text, runes, is_space, is_empty}
use go_pet_project.Time.{Time, before, add}
use go_pet_project.Errors.{ok}
use go_pet_project.World.{World}
use go_pet_project.Samples.{office, env}
use go_pet_project.Auth.Service.{Config, generate_access_token}
use go_pet_project.Auth.Access.{
  Parsed, ParsedClaims, parsed, expired, refused, authenticate, parse_bearer_token, fields, split,
  user_id_from_context,
}
use go_pet_project.Auth.Access.Bearer.{Verifies, whole_seconds, authenticate-generated}

-- A token of the numbers of its claims, each as a rune that is no space.
abbrev written : ℕ → ℕ
written n = 100000 + n

abbrev read : ℕ → ℕ
read c = c - 100000

abbrev word : ℕ → Time → Time → Text
word user issued expires =
    written user
    ∷ written (pos_part issued)
    ∷ written (neg_part issued)
    ∷ written (pos_part expires)
    ∷ written (neg_part expires)
    ∷ []

abbrev sign : ℕ → Time → Time → Option Text
sign user issued expires = some (word user issued expires)

abbrev in_force : Time → Time → ParsedClaims → Parsed
in_force now expires claims = if before now expires then parsed claims else expired

abbrev parse : Time → Text → Parsed
parse now (user ∷ a ∷ b ∷ c ∷ d ∷ []) =
    let expires = whole_seconds (sub_ℕ (read c) (read d)) in
    in_force now expires (record {
      subject = some (read user);
      issued_at = some (whole_seconds (sub_ℕ (read a) (read b)));
      expires_at = some expires;
    })
parse now _ = refused

read-written : (n : ℕ) → read (written n) ≡ n
read-written n = omega arith

of_parts : (i : ℤ) → sub_ℕ (read (written (pos_part i))) (read (written (neg_part i))) ≡ i
of_parts (pos n) = ground arith
of_parts (negsuc n) = ground arith

parse-word :
    (user : ℕ) (issued expires now : Time)
    → parse now (word user issued expires)
      ≡ in_force now (whole_seconds expires) (record {
        subject = some user;
        issued_at = some (whole_seconds issued);
        expires_at = some (whole_seconds expires);
      })
parse-word user issued expires now = rw (of_parts issued, of_parts expires, read-written user) refl

word-is_word :
    (user : ℕ) (issued expires : Time)
    → (is_empty (word user issued expires) ≡ false)
      × All (λ c. is_space c ≡ false) (word user issued expires)
unfolding is_space
word-is_word user issued expires = ground arith

parse-Verifies : Verifies parse sign
parse-Verifies = record {
  accepts = λ user issued expires now token h early.
      let same : token ≡ word user issued expires = cc in
      rw same (parse-word user issued expires now ∙ rw early refl);
  expires = λ user issued expires now token h late.
      let same : token ≡ word user issued expires = cc in
      rw same (parse-word user issued expires now ∙ rw late refl);
  is_word = λ user issued expires token h.
      let same : token ≡ word user issued expires = cc in
      rw same (word-is_word user issued expires);
}

abbrev signing : World
signing = record office { env = record env { sign = sign } }

abbrev cfg : Config
cfg = record { access_ttl = pos 900000000000; refresh_ttl = pos 2000000000000 }

generate-ok :
    (generate_access_token cfg 2 signing).0
    ≡ ok (word 2 (pos 5000000000000) (pos 5900000000000), pos 5900000000000)
unfolding generate_access_token add
generate-ok = refl

-- A second before the token expires.
authenticate-generated_example :
    user_id_from_context (
      authenticate parse
        (pos 5899000000000)
        (runes "Bearer " ++ word 2 (pos 5000000000000) (pos 5900000000000)))
    ≡ some 2
unfolding ◌*ℤ◌
authenticate-generated_example =
    authenticate-generated parse cfg 2 signing (pos 5899000000000) parse-Verifies generate-ok
      (ground arith)

-- The scheme may be in any case, and a header has two words.
lower_case : parse_bearer_token (runes " bearer  abc ") ≡ some (runes "abc")
unfolding parse_bearer_token fields split
lower_case = refl

three_words : parse_bearer_token (runes "Bearer a b") ≡ none
unfolding parse_bearer_token fields split
three_words = refl
