-- ===== src/Base/Found.antt =====
-- What is known of a row that `find` finds.
use mathlib.Core.Path.{◌≡◌}
use mathlib.Core.Logic.{inl, inr}
use mathlib.Core.Bool.{Bool, true}
use mathlib.Core.Option.{some}
use mathlib.Core.List.{List, [], ◌∷◌, ◌++◌}
use native.Mathlib.Omega.{arith}
use go_pet_project.Base.Tests.{Bool-cases}
use go_pet_project.Base.Rows.{find}

module _ {ℓ} {A : Type ℓ} (p : A → Bool) where
  -- It passes the test.
  pub find-passes : (xs : List A) {x : A} → find p xs ≡ some x → p x ≡ true
  find-passes [] h = absurd (cc)
  find-passes (y ∷ ys) {x} h = elim (Bool-cases (p y)) [
    | inl hit ↦ ground arith
    | inr miss ↦ find-passes ys {x = x} (ground arith)
  ]

  -- It is found before the rows that are appended.
  pub find-append : (xs ys : List A) {x : A} → find p xs ≡ some x → find p (xs ++ ys) ≡ some x
  find-append [] ys h = absurd (cc)
  find-append (y ∷ xs) ys {x} h = elim (Bool-cases (p y)) [
    | inl hit ↦ ground arith
    | inr miss ↦ let rest = find-append xs ys {x = x} (ground arith) in ground arith
  ]
