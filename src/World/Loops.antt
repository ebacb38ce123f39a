-- ===== src/World/Loops.antt =====
-- A loop keeps what each of its rounds keeps.
use go_pet_project.Base.{List, [], ◌∷◌, inl, inr, All}
use go_pet_project.Errors.{Result-cases}
use go_pet_project.World.{World, Action, for_each}

-- A relation between the worlds before and after that is reflexive and transitive.
pub record IsPreorder (R : World → World → Type 0) : Type 0 where
  pub stays : (w : World) → R w w
  pub composes : {u v w : World} → R u v → R v w → R u w

-- Such a relation holds of a loop, however it ends, if it holds of each round on an element of
-- the list.
pub for_each-keeps_where :
    {A : Type 0} (R : World → World → Type 0) (P : A → Type 0) (act : A → Action (Unit {0}))
    → IsPreorder R
    → ((a : A) (w : World) → P a → R w (act a w).1)
    → (xs : List A) (w : World) → All P xs
    → R w (for_each act xs w).1
unfolding for_each
for_each-keeps_where R P act order h [] w all = order.stays w
for_each-keeps_where R P act order h (x ∷ xs) w (p, ps) = elim (Result-cases (act x w).0) [
  | inr (e, bad) ↦ rw bad (h x w p)
  | inl (_, good) ↦
      rw good (order.composes (h x w p) (for_each-keeps_where R P act order h xs (act x w).1 ps))
]

any : {A : Type 0} (xs : List A) → All (λ (a : A). Unit {0}) xs
any [] = tt
any (x ∷ xs) = (tt, any xs)

pub for_each-keeps :
    {A : Type 0} (R : World → World → Type 0) (act : A → Action (Unit {0}))
    → IsPreorder R
    → ((a : A) (w : World) → R w (act a w).1)
    → (xs : List A) (w : World) → R w (for_each act xs w).1
for_each-keeps {A} R act order h xs w =
    for_each-keeps_where R (λ (a : A). Unit {0}) act order (λ a w _. h a w) xs w (any xs)
