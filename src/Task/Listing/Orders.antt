-- ===== src/Task/Listing/Orders.antt =====
-- The orders of internal/task/application/port/out/task_repository.go.
use go_pet_project.Base.{Bool, true, Option, none, some, ◌≡◌, ◌⊎◌, ◌≤◌, arith, inl, inr, Bool-cases}
use go_pet_project.Base.Int.{◌<ℤ◌, ltb_ℤ, eq_of_parts}
use go_pet_project.Time.{Time}
use go_pet_project.Task.Domain.{Task}
use go_pet_project.Task.Query.{
  TaskSort, created_at_desc, created_at_asc, deadline_at_asc, deadline_at_desc, by_time,
  by_deadline, listed_before, is_known_sort,
}

-- The earlier time first, or the later, and the ids where the times are the same.
abbrev EarlierFirst : Task → Task → Time → Time → Type 0
EarlierFirst t u a b = (a <ℤ b) ⊎ ((a ≡ b) × (t.id ≤ u.id))

abbrev LaterFirst : Task → Task → Time → Time → Type 0
LaterFirst t u a b = (b <ℤ a) ⊎ ((a ≡ b) × (t.id ≤ u.id))

-- What has no time comes last, by the ids.
abbrev NullsLast : (Time → Time → Type 0) → Task → Task → Option Time → Option Time → Type 0
NullsLast order t u (some a) (some b) = order a b
NullsLast order t u (some a) none = Unit
NullsLast order t u none (some b) = ⊥
NullsLast order t u none none = t.id ≤ u.id

-- No other sort is accepted.
abbrev pub Precedes : TaskSort → Task → Task → Type 0
Precedes created_at_desc t u = LaterFirst t u t.created_at u.created_at
Precedes created_at_asc t u = EarlierFirst t u t.created_at u.created_at
Precedes deadline_at_asc t u = NullsLast (EarlierFirst t u) t u t.deadline_at u.deadline_at
Precedes deadline_at_desc t u = NullsLast (LaterFirst t u) t u t.deadline_at u.deadline_at
Precedes (TaskSort.other n) t u = ⊥

earlier_first : (t u : Task) (a b : Time) → by_time ltb_ℤ a b t u ≡ true → EarlierFirst t u a b
earlier_first t u a b h = elim (Bool-cases (ltb_ℤ a b)) [
  | inl before ↦ inl (ground arith)
  | inr not_before ↦ inr (eq_of_parts a b (ground arith), ground arith)
]

later_first :
    (t u : Task) (a b : Time) → by_time (λ x y. ltb_ℤ y x) a b t u ≡ true → LaterFirst t u a b
later_first t u a b h = elim (Bool-cases (ltb_ℤ b a)) [
  | inl after ↦ inl (ground arith)
  | inr not_after ↦ inr (eq_of_parts a b (ground arith), ground arith)
]

nulls_last :
    (earlier : Time → Time → Bool) (order : Time → Time → Type 0) (t u : Task)
    → ((a b : Time) → by_time earlier a b t u ≡ true → order a b)
    → (a b : Option Time) → by_deadline earlier a b t u ≡ true
    → NullsLast order t u a b
nulls_last earlier order t u f (some a) (some b) h = f a b h
nulls_last earlier order t u f (some a) none h = tt
nulls_last earlier order t u f none (some b) h = absurd (cc)
nulls_last earlier order t u f none none h = ground arith

pub listed_before-Precedes :
    (sort : TaskSort) (t u : Task)
    → is_known_sort sort ≡ true
    → listed_before sort t u ≡ true
    → Precedes sort t u
listed_before-Precedes created_at_desc t u v h = later_first t u t.created_at u.created_at h
listed_before-Precedes created_at_asc t u v h = earlier_first t u t.created_at u.created_at h
listed_before-Precedes deadline_at_asc t u v h =
    nulls_last ltb_ℤ (EarlierFirst t u) t u (earlier_first t u) t.deadline_at u.deadline_at h
listed_before-Precedes deadline_at_desc t u v h =
    nulls_last (λ x y. ltb_ℤ y x) (LaterFirst t u) t u (later_first t u) t.deadline_at u.deadline_at
      h
listed_before-Precedes (TaskSort.other n) t u v h = absurd (cc)
