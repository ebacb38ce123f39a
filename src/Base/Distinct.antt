-- ===== src/Base/Distinct.antt =====
-- Lists of rows with distinct keys: what selecting, sorting and cutting off keeps.
use Prim.Native.Nat.{ℕ, zero, suc}
use mathlib.Core.Path.{◌≡◌, sym}
use mathlib.Core.Logic.{◌≢◌, inl, inr}
use mathlib.Core.Bool.{Bool, true}
use mathlib.Core.List.{List, [], ◌∷◌}
use go_pet_project.Base.Tests.{Bool-cases}
use go_pet_project.Base.Rows.{All, select, take}
use go_pet_project.Base.Sort.{insert_row, order_by}

-- What is selected passes the test.
pub All-select_self :
    {A : Type 0} (p : A → Bool) (xs : List A) → All (λ x. p x ≡ true) (select p xs)
All-select_self p [] = tt
All-select_self p (x ∷ xs) = elim (Bool-cases (p x)) [
  | inl passes ↦ rw passes (passes, All-select_self p xs)
  | inr fails ↦ rw fails (All-select_self p xs)
]

module _ {A : Type 0} (P : A → Type 0) where
  pub All-select : (p : A → Bool) (xs : List A) → All P xs → All P (select p xs)
  All-select p [] h = tt
  All-select p (x ∷ xs) (h, hs) = elim (Bool-cases (p x)) [
    | inl passes ↦ rw passes (h, All-select p xs hs)
    | inr fails ↦ rw fails (All-select p xs hs)
  ]

  pub All-take : (n : ℕ) (xs : List A) → All P xs → All P (take n xs)
  All-take zero xs h = tt
  All-take (suc n) [] h = tt
  All-take (suc n) (x ∷ xs) (h, hs) = (h, All-take n xs hs)

  pub All-insert_row :
      (le : A → A → Bool) (x : A) (ys : List A) → P x → All P ys → All P (insert_row le x ys)
  unfolding insert_row
  All-insert_row le x [] h hs = (h, tt)
  All-insert_row le x (y ∷ ys) h (k, ks) = elim (Bool-cases (le x y)) [
    | inl passes ↦ rw passes (h, (k, ks))
    | inr fails ↦ rw fails (k, All-insert_row le x ys h ks)
  ]

  pub All-order_by : (le : A → A → Bool) (xs : List A) → All P xs → All P (order_by le xs)
  unfolding order_by
  All-order_by le [] h = tt
  All-order_by le (x ∷ xs) (h, hs) = All-insert_row le x (order_by le xs) h (All-order_by le xs hs)

module _ {A : Type 0} (key : A → ℕ) where
  abbrev pub IsDistinct : List A → Type 0
  IsDistinct [] = Unit
  IsDistinct (x ∷ xs) = All (λ y. key y ≢ key x) xs × IsDistinct xs

  pub IsDistinct-select : (p : A → Bool) (xs : List A) → IsDistinct xs → IsDistinct (select p xs)
  IsDistinct-select p [] h = tt
  IsDistinct-select p (x ∷ xs) (h, hs) = elim (Bool-cases (p x)) [
    | inl passes ↦ rw passes (All-select _ p xs h, IsDistinct-select p xs hs)
    | inr fails ↦ rw fails (IsDistinct-select p xs hs)
  ]

  pub IsDistinct-take : (n : ℕ) (xs : List A) → IsDistinct xs → IsDistinct (take n xs)
  IsDistinct-take zero xs h = tt
  IsDistinct-take (suc n) [] h = tt
  IsDistinct-take (suc n) (x ∷ xs) (h, hs) = (All-take _ n xs h, IsDistinct-take n xs hs)

  IsDistinct-insert_row :
      (le : A → A → Bool) (x : A) (ys : List A)
      → All (λ y. key y ≢ key x) ys
      → IsDistinct ys
      → IsDistinct (insert_row le x ys)
  unfolding insert_row
  IsDistinct-insert_row le x [] h hs = (tt, tt)
  IsDistinct-insert_row le x (y ∷ ys) (h, hs) (k, ks) = elim (Bool-cases (le x y)) [
    | inl passes ↦ rw passes ((h, hs), (k, ks))
    | inr fails ↦
        rw fails (All-insert_row _ le x ys (λ e. h (sym e)) k, IsDistinct-insert_row le x ys hs ks)
  ]

  pub IsDistinct-order_by :
      (le : A → A → Bool) (xs : List A) → IsDistinct xs → IsDistinct (order_by le xs)
  unfolding order_by
  IsDistinct-order_by le [] h = tt
  IsDistinct-order_by le (x ∷ xs) (h, hs) =
      IsDistinct-insert_row le x (order_by le xs) (All-order_by _ le xs h)
        (IsDistinct-order_by le xs hs)
