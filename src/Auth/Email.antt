-- ===== src/Auth/Email.antt =====
-- `validateEmail` of internal/auth/application/service/auth_service.go, with what it uses of
-- net/mail: `mail.ParseAddress` answers with its whole argument as the address, and no name, just
-- where the argument is a local part and a domain of dot-atoms, or a domain literal in place of
-- the latter. A quoted local part, a name, a comment or white space is not part of the address that
-- it answers with. `is_ip` is net.ParseIP.
use go_pet_project.Base.{ℕ, Bool, false, not, ◌&&◌, ◌||◌, [], ◌∷◌, ◌==◌, leb, if◌then◌else◌}
use mathlib.Core.List.{reverse}
use go_pet_project.Base.Text.{Text, runes, trim_space, is_empty}
use go_pet_project.Errors.{Result, ok, err, invalid_email}

-- `isVchar`: a visible character of ASCII, or a rune beyond it.
abbrev is_vchar : ℕ → Bool
is_vchar c = (leb b'!' c && leb c b'~') || leb 0x80 c

abbrev is_one_of : Text → ℕ → Bool
is_one_of [] c = false
is_one_of (d ∷ s) c = c == d || is_one_of s c

-- `isAtext` without the dot: no special of RFC 5322.
abbrev pub is_atext : ℕ → Bool
is_atext c = is_vchar c && not (is_one_of (runes "().<>[]:;@\\,\"") c)

-- `consumeAtom` with dots: no dot first or last, and no two in a row.
unfoldable pub is_dot_atom : Text → Bool
is_dot_atom [] = false
is_dot_atom (c ∷ []) = is_atext c
is_dot_atom (c ∷ d ∷ s) =
    let after_dot = is_dot_atom s in
    let rest = is_dot_atom (d ∷ s) in is_atext c && (if d == b'.' then after_dot else rest)

-- The text of a domain literal, after its `[`, where the last character is the first `]`.
unfoldable pub is_domain_literal : (Text → Bool) → Text → Text → Bool
is_domain_literal is_ip read [] = false
is_domain_literal is_ip read (c ∷ s) =
    let later = is_domain_literal is_ip (c ∷ read) s in
    if c == b']'
    then is_empty s && is_ip (reverse read)
    else is_vchar c && not (is_one_of (runes "[\\") c) && later

abbrev is_domain : (Text → Bool) → Text → Bool
is_domain is_ip [] = false
is_domain is_ip (c ∷ s) = if c == b'[' then is_domain_literal is_ip [] s else is_dot_atom (c ∷ s)

-- The text is split at its first `@`; `read` is what stands before it, in reverse.
unfoldable pub is_address : (Text → Bool) → Text → Text → Bool
is_address is_ip read [] = false
is_address is_ip read (c ∷ s) =
    let later = is_address is_ip (c ∷ read) s in
    if c == b'@' then is_dot_atom (reverse read) && is_domain is_ip s else later

unfoldable pub validate_email : (Text → Bool) → Text → Result Text
unfolding is_address
validate_email is_ip raw =
    let email = trim_space raw in
    if is_empty email
    then err invalid_email
    else if not (is_address is_ip [] email)
    then err invalid_email
    else ok email
