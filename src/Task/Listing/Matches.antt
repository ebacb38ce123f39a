-- ===== src/Task/Listing/Matches.antt =====
-- The tasks that a query of internal/task/application/query/list_tasks.go asks for, and their order, as
-- its fields say it.
use go_pet_project.Base.{
  ℕ, Bool, true, false, not, ◌&&◌, ◌||◌, Option, none, some, ◌++◌, ◌≡◌, ◌≢◌, ◌↔◌, ◌⊎◌, refl, arith,
  inl, inr, is_some, if◌then◌else◌,
}
use go_pet_project.Base.Int.{◌≤ℤ◌}
use go_pet_project.Base.Text.{Text, runes, trim_space, is_empty}
use go_pet_project.Time.{Time}
use go_pet_project.World.{Environment}
use go_pet_project.Task.Status.{
  Status, open_status, in_progress, done, cancelled, status_eq, is_valid,
}
use go_pet_project.Task.Domain.{Task, is_overdue}
use go_pet_project.Task.Query.{
  ArchivedMode, active_only, only, fits, has_status, fits_mode, is_from, is_to, fits_overdue,
  fits_search, is_valid_or_nil, is_known_mode,
}
use go_pet_project.Task.Query.Listed.{fits_overdue-is_overdue}
use go_pet_project.Task.Listing.{
  ListScope, ListTasksQuery, base_filter, visible, assigned_to_me, created_by_me,
}

abbrev pub IsInScope : ListScope → ℕ → Task → Type 0
IsInScope visible actor t = (t.creator_id ≡ actor) ⊎ (t.assignee_id ≡ actor)
IsInScope assigned_to_me actor t = t.assignee_id ≡ actor
IsInScope created_by_me actor t = t.creator_id ≡ actor
IsInScope (ListScope.other n) actor t = ⊥

abbrev HasStatus : Option Status → Status → Type 0
HasStatus none status = Unit
HasStatus (some wanted) status = status ≡ wanted

abbrev IsArchivedAs : ArchivedMode → Option Time → Type 0
IsArchivedAs active_only archived_at = archived_at ≡ none
IsArchivedAs only archived_at = archived_at ≢ none
IsArchivedAs ArchivedMode.all archived_at = Unit
IsArchivedAs (ArchivedMode.other n) archived_at = ⊥

-- A task without a deadline is within no bound.
abbrev IsFrom : Option Time → Option Time → Type 0
IsFrom none deadline = Unit
IsFrom (some from) deadline = (at : Time) × (deadline ≡ some at) × (from ≤ℤ at)

abbrev IsTo : Option Time → Option Time → Type 0
IsTo none deadline = Unit
IsTo (some to) deadline = (at : Time) × (deadline ≡ some at) × (at ≤ℤ to)

abbrev IsOverdueAs : Option Bool → Option Time → Task → Type 0
IsOverdueAs (some wanted) (some now) t = is_overdue now t ≡ wanted
IsOverdueAs _ _ t = Unit

-- The words searched for, between two wildcards.
abbrev IsLike : Environment → Text → Text → Type 0
IsLike env search text = env.ilike text (runes "%" ++ trim_space search ++ runes "%") ≡ true

abbrev IsFound : Environment → Text → Task → Type 0
IsFound env search t =
    (is_empty (trim_space search) ≡ true)
    ⊎ IsLike env search t.title
    ⊎ IsLike env search t.description

-- What a query asks of a task, but for the scope.
abbrev IsWanted : Environment → ListTasksQuery → Task → Type 0
IsWanted env q t =
    ((((HasStatus q.status t.status × IsArchivedAs q.archived t.archived_at)
          × IsFrom q.deadline_from t.deadline_at)
        × IsTo q.deadline_to t.deadline_at)
      × IsOverdueAs q.overdue q.now t)
    × IsFound env q.search t

abbrev pub IsMatch : Environment → ListTasksQuery → Task → Type 0
IsMatch env q t = IsInScope q.scope q.actor_id t × IsWanted env q t

pub and_iff :
    {P Q : Type 0} (a b : Bool) → (a ≡ true) ↔ P → (b ≡ true) ↔ Q → ((a && b) ≡ true) ↔ (P × Q)
and_iff true b p q = (λ h. (p.0 refl, q.0 h), λ (x, y). q.1 y)
and_iff false b p q = (λ h. absurd (cc), λ (x, y). p.1 x)

eq_of_status_eq : (a s : Status) → is_valid s ≡ true → status_eq a s ≡ true → a ≡ s
eq_of_status_eq a open_status v h = ground arith
eq_of_status_eq a in_progress v h = ground arith
eq_of_status_eq a done v h = ground arith
eq_of_status_eq a cancelled v h = ground arith
eq_of_status_eq a (Status.unknown value) v h = absurd (cc)

status_eq_self : (s : Status) → is_valid s ≡ true → status_eq s s ≡ true
status_eq_self open_status v = refl
status_eq_self in_progress v = refl
status_eq_self done v = refl
status_eq_self cancelled v = refl
status_eq_self (Status.unknown value) v = absurd (cc)

status_iff :
    (wanted : Option Status) (t : Task)
    → is_valid_or_nil wanted ≡ true
    → (has_status wanted t ≡ true) ↔ HasStatus wanted t.status
status_iff none t v = (λ h. tt, λ h. refl)
status_iff (some s) t v = (eq_of_status_eq t.status s v, λ e. rw e (status_eq_self s v))

none_iff : (o : Option Time) → (not (is_some o) ≡ true) ↔ (o ≡ none)
none_iff none = (λ h. refl, λ h. refl)
none_iff (some at) = (λ h. absurd (cc), λ h. absurd (cc))

some_iff : (o : Option Time) → (is_some o ≡ true) ↔ (o ≢ none)
some_iff none = (λ h. absurd (cc), λ h. absurd (h refl))
some_iff (some at) = (λ h e. cc, λ h. refl)

mode_iff :
    (mode : ArchivedMode) (t : Task)
    → is_known_mode mode ≡ true
    → (fits_mode mode t ≡ true) ↔ IsArchivedAs mode t.archived_at
mode_iff active_only t v = none_iff t.archived_at
mode_iff only t v = some_iff t.archived_at
mode_iff ArchivedMode.all t v = (λ h. tt, λ h. refl)
mode_iff (ArchivedMode.other n) t v = absurd (cc)

IsFrom-iff : (from deadline : Option Time) → (is_from from deadline ≡ true) ↔ IsFrom from deadline
IsFrom-iff none deadline = (λ h. tt, λ h. refl)
IsFrom-iff (some from) none = (λ h. absurd (ground arith), λ (at, e, le). absurd (ground arith))
IsFrom-iff (some from) (some d) = (λ h. (d, refl, ground arith), λ (at, e, le). ground arith)

IsTo-iff : (to deadline : Option Time) → (is_to to deadline ≡ true) ↔ IsTo to deadline
IsTo-iff none deadline = (λ h. tt, λ h. refl)
IsTo-iff (some to) none = (λ h. absurd (ground arith), λ (at, e, le). absurd (ground arith))
IsTo-iff (some to) (some d) = (λ h. (d, refl, ground arith), λ (at, e, le). ground arith)

flag_iff : (b c : Bool) → ((if b then c else not c) ≡ true) ↔ (c ≡ b)
flag_iff true c = (λ h. h, λ h. h)
flag_iff false true = (λ h. absurd (cc), λ h. absurd (cc))
flag_iff false false = (λ h. refl, λ h. refl)

overdue_iff :
    (wanted : Option Bool) (now : Option Time) (t : Task)
    → (fits_overdue wanted now t ≡ true) ↔ IsOverdueAs wanted now t
overdue_iff (some b) (some now) t =
    rw (fits_overdue-is_overdue b now t) (flag_iff b (is_overdue now t))
overdue_iff (some true) none t = (λ h. tt, λ h. refl)
overdue_iff (some false) none t = (λ h. tt, λ h. refl)
overdue_iff none now t = (λ h. tt, λ h. refl)

any_iff : (a b c : Bool) → ((a || b || c) ≡ true) ↔ ((a ≡ true) ⊎ (b ≡ true) ⊎ (c ≡ true))
any_iff true b c = (λ h. inl refl, λ h. refl)
any_iff false true c = (λ h. inr (inl refl), λ h. refl)
any_iff false false c = (λ h. inr (inr h), λ h. ground arith)

IsFound-iff :
    (env : Environment) (search : Text) (t : Task)
    → (fits_search env search t ≡ true) ↔ IsFound env search t
IsFound-iff env search t = any_iff (is_empty (trim_space search)) _ _

pub IsWanted-iff :
    (env : Environment) (q : ListTasksQuery) (t : Task)
    → is_valid_or_nil q.status ≡ true
    → is_known_mode q.archived ≡ true
    → (fits env (base_filter q) t ≡ true) ↔ IsWanted env q t
IsWanted-iff env q t valid known =
    and_iff _ (fits_search env q.search t)
      (and_iff _ (fits_overdue q.overdue q.now t)
        (and_iff _ (is_to q.deadline_to t.deadline_at)
          (and_iff _ (is_from q.deadline_from t.deadline_at)
            (and_iff (has_status q.status t) (fits_mode q.archived t) (status_iff q.status t valid)
              (mode_iff q.archived t known))
            (IsFrom-iff q.deadline_from t.deadline_at))
          (IsTo-iff q.deadline_to t.deadline_at))
        (overdue_iff q.overdue q.now t))
      (IsFound-iff env q.search t)
