-- ===== src/Notification/DeliveryRunner/Cuts.antt =====
-- `sanitizeDeliveryError` of internal/notification/application/service/delivery_runner.go cuts a
-- text after 500 bytes, which may be within a rune.
use go_pet_project.Base.{
  ℕ, suc, none, List, [], ◌∷◌, ◌++◌, ◌≡◌, ◌≤◌, ◌<◌, arith, All, length, inl, inr, Option-cases,
}
use go_pet_project.Base.Text.{Text, trim_space}
use go_pet_project.Base.Int.{ℤ}
use go_pet_project.Errors.{err, database}
use go_pet_project.World.{World}
use go_pet_project.Notification.DeliveryRunner.{
  cut_bytes, sanitize_delivery_error, without_breaks, handle_send_failure, delay_at, index_of,
}

-- The runes that UTF-8 writes as one byte.
abbrev pub IsAscii : Text → Type 0
IsAscii s = All (λ c. c < 128) s

cut_within :
    (s rest : Text) (c : ℕ)
    → IsAscii s
    → 128 ≤ c
    → cut_bytes (suc (length s)) (s ++ c ∷ rest) ≡ none
unfolding cut_bytes
cut_within [] rest c a h = ground arith
cut_within (x ∷ s) rest c (a, ascii) h = ground (arith, cut_within s rest c ascii h)

-- Where 499 ASCII characters are followed by another rune, the text that is left of the error is
-- not valid UTF-8: the failure of the sending is not recorded, and the statement fails.
pub handle_send_failure_cut :
    (delays : List ℤ) (id : ℕ) (attempts : ℤ) (message s rest : Text) (c : ℕ) (w : World)
    → without_breaks (trim_space message) ≡ s ++ c ∷ rest
    → IsAscii s
    → length s ≡ 499
    → 128 ≤ c
    → ((handle_send_failure delays id attempts message w).0 ≡ err database)
      × ((handle_send_failure delays id attempts message w).1.tables ≡ w.tables)
unfolding handle_send_failure sanitize_delivery_error
handle_send_failure_cut delays id attempts message s rest c w e a n h =
    let cut : sanitize_delivery_error message ≡ none = rw e (rw n at (cut_within s rest c a h)) in
    elim (Option-cases (delay_at delays (index_of attempts))) [
      | inl last ↦ ground arith
      | inr (delay, again) ↦ ground arith
    ]
