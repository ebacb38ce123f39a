-- ===== src/Task/Listing/Scopes.antt =====
-- What `ListTasks` answers, by the scope of the query.
use go_pet_project.Base.{
  ℕ, Bool, true, false, not, sym, select, ◌↔◌, ◌&&◌, ◌||◌, some, List, ◌∷◌, [], ◌==◌, ◌≡◌, ◌≢◌,
  refl, ◌∙◌, arith, All, count_rows, inl, inr, Bool-cases,
}
use go_pet_project.Base.Sorted.{
  IsSorted, IsSelection, IsOrdered, select-IsSelection, IsSorted-IsOrdered, count_rows-select,
}
use go_pet_project.Errors.{ok, err, invalid_actor, invalid_task_list_scope}
use go_pet_project.World.{World, Environment}
use go_pet_project.Task.Domain.{Task}
use go_pet_project.Task.Invariant.{IsWellFormed}
use go_pet_project.Task.Query.{
  TaskFilter, fits, listed_before, is_invalid, is_valid_or_nil, is_known_mode, is_known_sort,
}
use go_pet_project.Task.Query.Listed.{list-IsListed, IsListed}
use go_pet_project.Task.Listing.{
  ListScope, ListTasksQuery, base_filter, list_scope, list_tasks, visible, assigned_to_me,
  created_by_me,
}
use go_pet_project.Task.Listing.Matches.{IsInScope, IsMatch, and_iff, IsWanted-iff}
use go_pet_project.Task.Listing.Orders.{Precedes, listed_before-Precedes}

-- The tasks that a scope is about.
abbrev pub is_in_scope : ListScope → ℕ → Task → Bool
is_in_scope visible actor t = t.creator_id == actor || t.assignee_id == actor
is_in_scope assigned_to_me actor t = t.assignee_id == actor
is_in_scope created_by_me actor t = t.creator_id == actor
is_in_scope (ListScope.other n) actor t = false

count_rows-ext :
    {A : Type 0} (p q : A → Bool)
    → ((x : A) → p x ≡ q x)
    → (xs : List A) → count_rows p xs ≡ count_rows q xs
count_rows-ext p q e [] = refl
count_rows-ext p q e (x ∷ xs) = rw (e x, count_rows-ext p q e xs) refl

-- The tasks of the scope that pass the filter, each as often as it stands in the table, sorted.
abbrev pub IsScoped : Environment → ListScope → ListTasksQuery → List Task → List Task → Type 0
IsScoped env scope q rows ts =
    IsSorted (listed_before q.sort) ts
    × ((p : Task → Bool)
        → count_rows p ts
          ≡ count_rows (λ t. is_in_scope scope q.actor_id t && (fits env (base_filter q) t && p t))
              rows)

fits-created :
    (env : Environment) (q : ListTasksQuery) (t : Task)
    → fits env (record (base_filter q) { creator_id = some q.actor_id }) t
      ≡ (t.creator_id == q.actor_id && fits env (base_filter q) t)
fits-created env q t = elim (Bool-cases (t.creator_id == q.actor_id)) [
  | inl in_scope ↦ rw in_scope refl
  | inr out_of_scope ↦ rw out_of_scope refl
]

fits-assigned :
    (env : Environment) (q : ListTasksQuery) (t : Task)
    → fits env (record (base_filter q) { assignee_id = some q.actor_id }) t
      ≡ (t.assignee_id == q.actor_id && fits env (base_filter q) t)
fits-assigned env q t = elim (Bool-cases (t.assignee_id == q.actor_id)) [
  | inl in_scope ↦ rw in_scope refl
  | inr out_of_scope ↦ rw out_of_scope refl
]

fits-visible :
    (env : Environment) (q : ListTasksQuery) (t : Task)
    → fits env (record (base_filter q) { visible_to = some q.actor_id }) t
      ≡ ((t.creator_id == q.actor_id || t.assignee_id == q.actor_id) && fits env (base_filter q) t)
fits-visible env q t =
    elim (Bool-cases (t.creator_id == q.actor_id || t.assignee_id == q.actor_id)) [
      | inl in_scope ↦ rw in_scope refl
      | inr out_of_scope ↦ rw out_of_scope refl
    ]

and_assoc : (a b c : Bool) → ((a && b) && c) ≡ (a && (b && c))
and_assoc true b c = refl
and_assoc false b c = refl

-- The answer on a filter that adds the scope.
IsListed-IsScoped :
    (env : Environment) (scope : ListScope) (q : ListTasksQuery) (f : TaskFilter)
    (rows ts : List Task)
    → f.sort ≡ q.sort
    → ((t : Task) → fits env f t ≡ (is_in_scope scope q.actor_id t && fits env (base_filter q) t))
    → IsListed env f rows ts
    → IsScoped env scope q rows ts
IsListed-IsScoped env scope q f rows ts sort e (sorted, counts) =
    let split : (p : Task → Bool) (t : Task)
        → (fits env f t && p t)
          ≡ (is_in_scope scope q.actor_id t && (fits env (base_filter q) t && p t)) =
      λ p t.
        rw (e t) (and_assoc (is_in_scope scope q.actor_id t) (fits env (base_filter q) t) (p t)) in
    (
      rw sort at sorted,
      λ p.
          counts p
          ∙ count_rows-ext (λ t. fits env f t && p t)
              (λ t. is_in_scope scope q.actor_id t && (fits env (base_filter q) t && p t)) (split p)
              rows,
    )

list_scope-IsScoped :
    (scope : ListScope) (q : ListTasksQuery) (w : World) {ts : List Task}
    → All IsWellFormed w.tables.tasks
    → (list_scope scope q.actor_id (base_filter q) w).0 ≡ ok ts
    → (is_invalid (base_filter q) ≡ false) × IsScoped w.env scope q w.tables.tasks ts
list_scope-IsScoped visible q w {ts} wf h =
    let f = record (base_filter q) { visible_to = some q.actor_id } in
    let (valid, listed, _) = list-IsListed f w wf h in
    (
      valid,
      IsListed-IsScoped w.env visible q f w.tables.tasks ts refl (fits-visible w.env q) listed,
    )
list_scope-IsScoped assigned_to_me q w {ts} wf h =
    let f = record (base_filter q) { assignee_id = some q.actor_id } in
    let (valid, listed, _) = list-IsListed f w wf h in
    (
      valid,
      IsListed-IsScoped w.env assigned_to_me q f w.tables.tasks ts refl (fits-assigned w.env q)
          listed,
    )
list_scope-IsScoped created_by_me q w {ts} wf h =
    let f = record (base_filter q) { creator_id = some q.actor_id } in
    let (valid, listed, _) = list-IsListed f w wf h in
    (
      valid,
      IsListed-IsScoped w.env created_by_me q f w.tables.tasks ts refl (fits-created w.env q)
          listed,
    )
list_scope-IsScoped (ListScope.other n) q w {ts} wf h =
    let refused : err invalid_task_list_scope ≡ ok ts = h in cc

scope_iff :
    (scope : ListScope) (actor : ℕ) (t : Task)
    → (is_in_scope scope actor t ≡ true) ↔ IsInScope scope actor t
scope_iff visible actor t = (λ h. ground arith, λ h. ground arith)
scope_iff assigned_to_me actor t = (λ h. ground arith, λ h. ground arith)
scope_iff created_by_me actor t = (λ h. ground arith, λ h. ground arith)
scope_iff (ListScope.other n) actor t = (λ h. absurd (cc), λ h. absurd h)

none_of_five :
    (a b c d e : Bool)
    → (not a || not b || c || d || not e) ≡ false
    → (a ≡ true) × (b ≡ true) × (e ≡ true)
none_of_five a b c d e h = ground arith

valid_parts :
    (f : TaskFilter)
    → is_invalid f ≡ false
    → (is_valid_or_nil f.status ≡ true)
      × (is_known_mode f.archived ≡ true)
      × (is_known_sort f.sort ≡ true)
valid_parts f h =
    none_of_five (is_valid_or_nil f.status) (is_known_mode f.archived) _ _ (is_known_sort f.sort) h

-- The rows that a query asks for, in the order asked for.
abbrev pub IsAnswer : Environment → ListTasksQuery → List Task → List Task → Type 0
IsAnswer env q rows ts =
    (wanted : List Task) × IsSelection (IsMatch env q) rows wanted
    × ((p : Task → Bool) → count_rows p ts ≡ count_rows p wanted)
    × IsOrdered (Precedes q.sort) ts

IsScoped-IsAnswer :
    (env : Environment) (q : ListTasksQuery) (rows ts : List Task)
    → is_invalid (base_filter q) ≡ false
    → IsScoped env q.scope q rows ts
    → IsAnswer env q rows ts
IsScoped-IsAnswer env q rows ts h (sorted, counts) =
    let (status, mode, sort) = valid_parts (base_filter q) h in
    let test : Task → Bool = λ t. is_in_scope q.scope q.actor_id t && fits env (base_filter q) t in
    (
      select test rows,
      select-IsSelection (IsMatch env q) test
          (λ t.
            and_iff _ (fits env (base_filter q) t) (scope_iff q.scope q.actor_id t)
              (IsWanted-iff env q t status mode))
          rows,
      λ p.
          counts p
          ∙ sym (
              count_rows-select p test rows
              ∙ count_rows-ext (λ t. test t && p t)
                  (λ t. is_in_scope q.scope q.actor_id t && (fits env (base_filter q) t && p t))
                  (λ t.
                    and_assoc (is_in_scope q.scope q.actor_id t) (fits env (base_filter q) t) (p t))
                  rows),
      IsSorted-IsOrdered (listed_before q.sort) (Precedes q.sort)
          (λ t u. listed_before-Precedes q.sort t u sort) ts sorted,
    )

-- A list that succeeds, where every row is well formed, is asked for by a user. It holds the tasks of
-- the scope with the status, the archival, the deadlines and the words asked for, and which are
-- overdue or not as asked for: each as often as it stands in the table, and no other. They are in the
-- order asked for: by the creation or the deadline, where there is one, and then by the id.
pub list_tasks-IsAnswer :
    (q : ListTasksQuery) (w : World) {ts : List Task}
    → All IsWellFormed w.tables.tasks
    → (list_tasks q w).0 ≡ ok ts
    → (q.actor_id ≢ 0) × IsAnswer w.env q w.tables.tasks ts
unfolding list_tasks
list_tasks-IsAnswer q w {ts} wf h = elim (Bool-cases (q.actor_id == 0)) [
  | inl nil ↦ let refused : err invalid_actor ≡ ok ts = rw nil at h in cc
  | inr named ↦
      let (valid, scoped) = list_scope-IsScoped q.scope q w wf (rw named at h) in
      (ground arith, IsScoped-IsAnswer w.env q w.tables.tasks ts valid scoped)
]
