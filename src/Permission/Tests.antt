-- ===== src/Permission/Tests.antt =====
-- Runs of the code of internal/permission on example data.
use go_pet_project.Base.{true, [], ◌∷◌, ◌≡◌, refl}
use go_pet_project.Base.Sort.{insert_row, order_by}
use go_pet_project.Errors.{ok}
use go_pet_project.Samples.{office}
use go_pet_project.Permission.{
  contains, can_assign, exists, list_assignee_ids, distinct, list_assignable_user_ids,
}
use go_pet_project.Permission.Laws.{contains-list_assignable_user_ids}

listed : (list_assignable_user_ids 1 office).0 ≡ ok (1 ∷ 3 ∷ [])
unfolding list_assignable_user_ids list_assignee_ids distinct insert_row order_by
listed = refl

may_assign : (can_assign 1 3 office).0 ≡ ok true
unfolding can_assign exists
may_assign = refl

contains-list_assignable_user_ids_example : contains 3 (1 ∷ 3 ∷ []) ≡ true
contains-list_assignable_user_ids_example =
    contains-list_assignable_user_ids 1 office (1 ∷ 3 ∷ []) listed 3 office refl may_assign
