-- ===== src/Task/Status.antt =====
-- internal/task/domain/status.go and rules.go. The Go type is a string type: `unknown` is any
-- text that is none of the four constants.
use text.Mathlib.Text.{◌==◌ as str_eq}
use go_pet_project.Base.{String, Bool, true, false, ◌||◌, not, List, [], ◌∷◌, if◌then◌else◌}
use go_pet_project.Errors.{Result, ok, err, invalid_status}

pub data Status : Type 0 where
  open_status in_progress done cancelled : Status
  unknown : String → Status

abbrev pub initial_status : Status
initial_status = open_status

-- The conversions `Status(value)` and `string(status)`.
unfoldable pub to_status : String → Status
to_status value =
    if str_eq value "OPEN"
    then open_status
    else if str_eq value "IN_PROGRESS"
    then in_progress
    else if str_eq value "DONE"
    then done
    else if str_eq value "CANCELLED"
    then cancelled
    else unknown value

unfoldable pub status_text : Status → String
status_text open_status = "OPEN"
status_text in_progress = "IN_PROGRESS"
status_text done = "DONE"
status_text cancelled = "CANCELLED"
status_text (unknown value) = value

abbrev pub is_valid : Status → Bool
is_valid (unknown value) = false
is_valid _ = true

abbrev pub is_completed : Status → Bool
is_completed done = true
is_completed _ = false

unfoldable pub parse_status : String → Result Status
unfolding to_status
parse_status value =
    let status = to_status value in if not (is_valid status) then err invalid_status else ok status

abbrev pub status_eq : Status → Status → Bool
status_eq open_status open_status = true
status_eq in_progress in_progress = true
status_eq done done = true
status_eq cancelled cancelled = true
status_eq (unknown a) (unknown b) = str_eq a b
status_eq _ _ = false

abbrev pub allowed_status_transitions : Status → List Status
allowed_status_transitions open_status = in_progress ∷ done ∷ []
allowed_status_transitions in_progress = done ∷ []
allowed_status_transitions _ = []

abbrev pub contains_status : Status → List Status → Bool
contains_status next [] = false
contains_status next (allowed ∷ rest) = status_eq allowed next || contains_status next rest

unfoldable pub can_transition_to : Status → Status → Bool
can_transition_to s next =
    if not (is_valid s) || not (is_valid next)
    then false
    else contains_status next (allowed_status_transitions s)
