-- ===== src/Permission/Laws.antt =====
-- `ListAssignableUserIDs` against `CanAssign`, of internal/permission.
use go_pet_project.Base.{
  ℕ, Bool, true, false, ◌||◌, List, [], ◌∷◌, map, ◌≡◌, ◌≢◌, refl, arith, ◌==◌, find, select,
  is_some, leb, ◌∙◌,
}
use go_pet_project.Base.Sort.{order_by, insert_row}
use go_pet_project.Errors.{ok}
use go_pet_project.World.{World, AssignmentPermission}
use go_pet_project.Permission.{
  can_assign, list_assignable_user_ids, list_assignee_ids, exists, contains, grants, distinct,
}

contains-insert_row :
    (id x : ℕ) (xs : List ℕ) → contains id (insert_row leb x xs) ≡ (x == id || contains id xs)
unfolding insert_row
contains-insert_row id x [] = refl
contains-insert_row id x (y ∷ ys) = ground (arith, contains-insert_row id x ys)

contains-order_by : (id : ℕ) (xs : List ℕ) → contains id (order_by leb xs) ≡ contains id xs
unfolding order_by
contains-order_by id [] = refl
contains-order_by id (x ∷ xs) =
    contains-insert_row id x (order_by leb xs) ∙ ground (arith, contains-order_by id xs)

contains-select :
    (a id : ℕ) (ps : List AssignmentPermission)
    → contains id (map (λ p. p.assignee_id) (select (λ p. p.assigner_id == a) ps))
      ≡ is_some (find (grants a id) ps)
contains-select a id [] = refl
contains-select a id (p ∷ ps) = ground (arith, contains-select a id ps)

contains-distinct :
    (id : ℕ) (seen ids : List ℕ)
    → id ≢ 0
    → contains id seen ≡ false
    → contains id (distinct seen ids) ≡ contains id ids
unfolding distinct
contains-distinct id seen [] h k = refl
contains-distinct id seen (x ∷ ids) h k =
    ground (arith, contains-distinct id seen ids h k, contains-distinct id (x ∷ seen) ids h)

-- What was seen is not listed again, and the nil id never.
distinct_new :
    (id : ℕ) (seen ids : List ℕ) → contains id seen ≡ true → contains id (distinct seen ids) ≡ false
unfolding distinct
distinct_new id seen [] h = refl
distinct_new id seen (x ∷ ids) h =
    ground (arith, distinct_new id seen ids h, distinct_new id (x ∷ seen) ids)

distinct_not_nil : (seen ids : List ℕ) → contains 0 (distinct seen ids) ≡ false
unfolding distinct
distinct_not_nil seen [] = refl
distinct_not_nil seen (x ∷ ids) =
    ground (arith, distinct_not_nil seen ids, distinct_not_nil (x ∷ seen) ids)

-- No id stands twice.
abbrev pub IsDistinct : List ℕ → Type 0
IsDistinct [] = Unit
IsDistinct (x ∷ xs) = (contains x xs ≡ false) × IsDistinct xs

distinct-IsDistinct : (seen ids : List ℕ) → IsDistinct (distinct seen ids)
unfolding distinct
distinct-IsDistinct seen [] = tt
distinct-IsDistinct seen (x ∷ ids) = ground (
  arith,
  distinct-IsDistinct seen ids,
  distinct-IsDistinct (x ∷ seen) ids,
  distinct_new x (x ∷ seen) ids,
)

module _ (a : ℕ) (w : World) (ids : List ℕ)
    (listed : (list_assignable_user_ids a w).0 ≡ ok ids) where
  -- The users that are listed are those to whom `CanAssign` lets the user assign.
  pub contains-list_assignable_user_ids :
      (id : ℕ) (v : World) {b : Bool}
      → v.tables ≡ w.tables
      → (can_assign a id v).0 ≡ ok b
      → contains id ids ≡ b
  unfolding list_assignable_user_ids list_assignee_ids can_assign exists
  contains-list_assignable_user_ids id v same asked = ground (
    arith,
    contains-distinct id (a ∷ []) (
        order_by leb
          (map (λ p. p.assignee_id) (select (λ p. p.assigner_id == a) w.tables.permissions))),
    contains-order_by id
        (map (λ p. p.assignee_id) (select (λ p. p.assigner_id == a) w.tables.permissions)),
    contains-select a id w.tables.permissions,
  )

  -- The user stands first, and no user stands twice.
  pub list_assignable_user_ids-IsDistinct : IsDistinct ids
  unfolding list_assignable_user_ids list_assignee_ids
  list_assignable_user_ids-IsDistinct = ground (
    arith,
    distinct-IsDistinct (a ∷ []) (
        order_by leb
          (map (λ p. p.assignee_id) (select (λ p. p.assigner_id == a) w.tables.permissions))),
    distinct_new a (a ∷ []) (
        order_by leb
          (map (λ p. p.assignee_id) (select (λ p. p.assigner_id == a) w.tables.permissions))),
  )
