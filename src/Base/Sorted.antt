-- ===== src/Base/Sorted.antt =====
-- What ORDER BY promises: the same rows, in order.
use native.Mathlib.Omega.{arith}
use mathlib.Core.Path.{◌≡◌, refl}
use mathlib.Core.Logic.{◌↔◌, inl, inr}
use mathlib.Core.Bool.{Bool, true, false, ◌&&◌}
use mathlib.Core.List.{List, [], ◌∷◌}
use go_pet_project.Base.Tests.{Bool-cases}
use go_pet_project.Base.Rows.{All, select, count_rows}
use go_pet_project.Base.Sort.{insert_row, order_by}
use go_pet_project.Base.Distinct.{All-insert_row}

pub All-map :
    {A : Type 0} (P Q : A → Type 0) (xs : List A) → ((x : A) → P x → Q x) → All P xs → All Q xs
All-map P Q [] f h = tt
All-map P Q (x ∷ xs) f (h, hs) = (f x h, All-map P Q xs f hs)

module _ {A : Type 0} (le : A → A → Bool) where
  -- Each row may stand before all that follow it.
  abbrev pub IsSorted : List A → Type 0
  IsSorted [] = Unit
  IsSorted (x ∷ xs) = All (λ y. le x y ≡ true) xs × IsSorted xs

  module _ (total : (x y : A) → le x y ≡ false → le y x ≡ true)
      (trans : (x y z : A) → le x y ≡ true → le y z ≡ true → le x z ≡ true) where
    IsSorted-insert_row : (x : A) (ys : List A) → IsSorted ys → IsSorted (insert_row le x ys)
    unfolding insert_row
    IsSorted-insert_row x [] h = (tt, tt)
    IsSorted-insert_row x (y ∷ ys) (h, hs) = elim (Bool-cases (le x y)) [
      | inl first ↦ rw first (
        (first, All-map (λ z. le y z ≡ true) (λ z. le x z ≡ true) ys (λ z. trans x y z first) h),
        (h, hs),
      )
      | inr later ↦ rw later (
        All-insert_row (λ z. le y z ≡ true) le x ys (total x y later) h,
        IsSorted-insert_row x ys hs,
      )
    ]

    pub IsSorted-order_by : (xs : List A) → IsSorted (order_by le xs)
    unfolding order_by
    IsSorted-order_by [] = tt
    IsSorted-order_by (x ∷ xs) = IsSorted-insert_row x (order_by le xs) (IsSorted-order_by xs)

  module _ (p : A → Bool) where
    count_rows-insert_row :
        (x : A) (ys : List A) → count_rows p (insert_row le x ys) ≡ count_rows p (x ∷ ys)
    unfolding insert_row
    count_rows-insert_row x [] = refl
    count_rows-insert_row x (y ∷ ys) = elim (Bool-cases (le x y)) [
      | inl first ↦ rw first refl
      | inr later ↦ ground (arith, later, count_rows-insert_row x ys)
    ]

    pub count_rows-order_by : (xs : List A) → count_rows p (order_by le xs) ≡ count_rows p xs
    unfolding order_by
    count_rows-order_by [] = refl
    count_rows-order_by (x ∷ xs) =
        ground (arith, count_rows-insert_row x (order_by le xs), count_rows-order_by xs)

pub count_rows-select :
    {A : Type 0} (p q : A → Bool) (xs : List A)
    → count_rows p (select q xs) ≡ count_rows (λ x. q x && p x) xs
count_rows-select p q [] = refl
count_rows-select p q (x ∷ xs) = ground (arith, count_rows-select p q xs)

-- The rows of a list that have the property, in their places; the others are left out.
pub data IsSelection {A : Type 0} (P : A → Type 0) : List A → List A → Type 0 where
  ended : IsSelection P [] []
  kept : {x : A} {xs ys : List A} → P x → IsSelection P xs ys → IsSelection P (x ∷ xs) (x ∷ ys)
  left_out : {x : A} {xs ys : List A} → ¬ P x → IsSelection P xs ys → IsSelection P (x ∷ xs) ys

pub select-IsSelection :
    {A : Type 0} (P : A → Type 0) (p : A → Bool)
    → ((x : A) → (p x ≡ true) ↔ P x)
    → (xs : List A) → IsSelection P xs (select p xs)
select-IsSelection P p decides [] = ended
select-IsSelection P p decides (x ∷ xs) = elim (Bool-cases (p x)) [
  | inl passes ↦ rw passes (kept ((decides x).0 passes) (select-IsSelection P p decides xs))
  | inr fails ↦ rw fails (
      left_out (λ has. let wrong : p x ≡ true = (decides x).1 has in ground arith)
        (select-IsSelection P p decides xs))
]

-- Each element is related to all that follow it.
abbrev pub IsOrdered : {A : Type 0} → (A → A → Type 0) → List A → Type 0
IsOrdered R [] = Unit
IsOrdered R (x ∷ xs) = All (R x) xs × IsOrdered R xs

pub IsSorted-IsOrdered :
    {A : Type 0} (le : A → A → Bool) (R : A → A → Type 0)
    → ((x y : A) → le x y ≡ true → R x y)
    → (xs : List A) → IsSorted le xs
    → IsOrdered R xs
IsSorted-IsOrdered le R f [] h = tt
IsSorted-IsOrdered le R f (x ∷ xs) (h, hs) =
    (All-map (λ y. le x y ≡ true) (R x) xs (f x) h, IsSorted-IsOrdered le R f xs hs)
