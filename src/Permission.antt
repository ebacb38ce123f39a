-- ===== src/Permission.antt =====
-- internal/permission: who may assign tasks to whom. `application/service/permission_service.go`
-- and `adapter/out/postgres/repository.go`.
pub mod Laws
mod Tests
use go_pet_project.Base.{
  ℕ, Bool, true, false, ◌&&◌, ◌||◌, List, [], ◌∷◌, map, ◌==◌, if◌then◌else◌, find, select, is_some,
  leb,
}
use go_pet_project.Base.Sort.{order_by}
use go_pet_project.Errors.{permission_invalid_assigner_id, permission_invalid_assignee_id}
use go_pet_project.World.{Action, AssignmentPermission, ◌>>=◌, ◌>>◌, pure, raise, gets, statement}

abbrev pub grants : ℕ → ℕ → AssignmentPermission → Bool
grants assigner assignee p = p.assigner_id == assigner && p.assignee_id == assignee

-- `Exists`
unfoldable pub exists : ℕ → ℕ → Action Bool
exists assigner assignee = do
  statement
  gets (λ db. is_some (find (grants assigner assignee) db.permissions))

-- `ListAssigneeIDs`
unfoldable pub list_assignee_ids : ℕ → Action (List ℕ)
list_assignee_ids assigner = do
  statement
  gets (λ db.
      order_by leb
        (map (λ p. p.assignee_id) (select (λ p. p.assigner_id == assigner) db.permissions)))

unfoldable pub can_assign : ℕ → ℕ → Action Bool
can_assign assigner assignee =
    if assigner == 0
    then raise permission_invalid_assigner_id
    else if assignee == 0
    then raise permission_invalid_assignee_id
    else if assigner == assignee
    then pure true
    else exists assigner assignee

-- `seen[id]`
abbrev pub contains : ℕ → List ℕ → Bool
contains id [] = false
contains id (x ∷ xs) = x == id || contains id xs

-- The loop over the ids: what it appends to the result, given the ids seen so far.
unfoldable pub distinct : List ℕ → List ℕ → List ℕ
distinct seen [] = []
distinct seen (id ∷ ids) =
    let skipped = distinct seen ids in
    let kept = id ∷ distinct (id ∷ seen) ids in
    if id == 0 || contains id seen then skipped else kept

unfoldable pub list_assignable_user_ids : ℕ → Action (List ℕ)
list_assignable_user_ids assigner =
    if assigner == 0
    then raise permission_invalid_assigner_id
    else do ids ← list_assignee_ids assigner; pure (assigner ∷ distinct (assigner ∷ []) ids)
