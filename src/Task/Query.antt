-- ===== src/Task/Query.antt =====
-- internal/task/adapter/out/postgres/query.go and `List` of repository.go, with the filter of
-- internal/task/application/port/out/task_repository.go. The clauses that `applyFilter` adds to a
-- query are tests on a row; a comparison with a null column fails. ILIKE is the database's.
pub mod Listed
use go_pet_project.Base.{
  ℕ, Bool, true, false, not, ◌&&◌, ◌||◌, Option, none, some, List, [], ◌∷◌, ◌++◌, ◌==◌, leb,
  if◌then◌else◌, select, is_some,
}
use go_pet_project.Base.Int.{ℤ, ltb_ℤ, leb_ℤ, eqb_ℤ}
use go_pet_project.Base.Text.{Text, runes, trim_space, is_empty}
use go_pet_project.Base.Sort.{order_by}
use go_pet_project.Time.{Time, before}
use go_pet_project.Errors.{Error, Result, ok, err, map_rows, invalid_task_filter}
use go_pet_project.World.{
  World, Action, Environment, ◌>>=◌, ◌>>◌, pure, raise, lift, refuse_when, statement,
}
use go_pet_project.Task.Status.{Status, is_valid, is_completed, status_eq}
use go_pet_project.Task.Domain.{Task}
use go_pet_project.Task.Repository.{to_domain}

-- The two types are of Go's `int`: `other` is a value that is none of the constants.
pub data ArchivedMode : Type 0 where
  active_only only all : ArchivedMode
  other : ℤ → ArchivedMode

pub data TaskSort : Type 0 where
  created_at_desc created_at_asc deadline_at_asc deadline_at_desc : TaskSort
  other : ℤ → TaskSort

pub record TaskFilter : Type 0 where
  pub visible_to : Option ℕ
  pub assignee_id : Option ℕ
  pub creator_id : Option ℕ
  pub status : Option Status
  pub archived : ArchivedMode
  pub deadline_from : Option Time
  pub deadline_to : Option Time
  pub overdue : Option Bool
  pub now : Option Time
  pub search : Text
  pub sort : TaskSort

abbrev pub is_known_mode : ArchivedMode → Bool
is_known_mode (ArchivedMode.other n) = false
is_known_mode _ = true

abbrev pub is_known_sort : TaskSort → Bool
is_known_sort (TaskSort.other n) = false
is_known_sort _ = true

abbrev pub is_valid_or_nil : Option Status → Bool
is_valid_or_nil none = true
is_valid_or_nil (some s) = is_valid s

abbrev is_reversed : Option Time → Option Time → Bool
is_reversed (some from) (some to) = before to from
is_reversed _ _ = false

-- What `applyFilter` refuses: each of its errors is the same sentinel.
abbrev pub is_invalid : TaskFilter → Bool
is_invalid f =
    not (is_valid_or_nil f.status)
    || not (is_known_mode f.archived)
    || is_reversed f.deadline_from f.deadline_to
    || (is_some f.overdue && not (is_some f.now))
    || not (is_known_sort f.sort)

abbrev pub is_visible : Option ℕ → Task → Bool
is_visible none t = true
is_visible (some user) t = t.creator_id == user || t.assignee_id == user

abbrev pub is_id : Option ℕ → ℕ → Bool
is_id none id = true
is_id (some wanted) id = id == wanted

abbrev pub has_status : Option Status → Task → Bool
has_status none t = true
has_status (some s) t = status_eq t.status s

abbrev pub fits_mode : ArchivedMode → Task → Bool
fits_mode active_only t = not (is_some t.archived_at)
fits_mode only t = is_some t.archived_at
fits_mode _ t = true

abbrev pub is_from : Option Time → Option Time → Bool
is_from none deadline = true
is_from (some from) none = false
is_from (some from) (some deadline) = leb_ℤ from deadline

abbrev pub is_to : Option Time → Option Time → Bool
is_to none deadline = true
is_to (some to) none = false
is_to (some to) (some deadline) = leb_ℤ deadline to

-- `deadline_at < ?`, and `deadline_at IS NULL OR deadline_at >= ?`
abbrev is_before : Option Time → Time → Bool
is_before none now = false
is_before (some deadline) now = ltb_ℤ deadline now

abbrev is_not_before : Option Time → Time → Bool
is_not_before none now = true
is_not_before (some deadline) now = leb_ℤ now deadline

abbrev pub fits_overdue : Option Bool → Option Time → Task → Bool
fits_overdue (some true) (some now) t = is_before t.deadline_at now && not (is_completed t.status)
fits_overdue (some false) (some now) t = is_not_before t.deadline_at now || is_completed t.status
fits_overdue _ _ t = true

abbrev pub fits_search : Environment → Text → Task → Bool
fits_search env search t =
    let text = trim_space search in
    let pattern = runes "%" ++ text ++ runes "%" in
    is_empty text || env.ilike t.title pattern || env.ilike t.description pattern

abbrev pub fits : Environment → TaskFilter → Task → Bool
fits env f t =
    is_visible f.visible_to t
    && is_id f.assignee_id t.assignee_id
    && is_id f.creator_id t.creator_id
    && has_status f.status t
    && fits_mode f.archived t
    && is_from f.deadline_from t.deadline_at
    && is_to f.deadline_to t.deadline_at
    && fits_overdue f.overdue f.now t
    && fits_search env f.search t

-- By the times in the order of `earlier`, then by the ids.
abbrev pub by_time : (Time → Time → Bool) → Time → Time → Task → Task → Bool
by_time earlier a b t u = earlier a b || (eqb_ℤ a b && leb t.id u.id)

-- NULLS LAST
abbrev pub by_deadline : (Time → Time → Bool) → Option Time → Option Time → Task → Task → Bool
by_deadline earlier (some a) (some b) t u = by_time earlier a b t u
by_deadline earlier (some a) none t u = true
by_deadline earlier none (some b) t u = false
by_deadline earlier none none t u = leb t.id u.id

-- `orderBy`
abbrev pub listed_before : TaskSort → Task → Task → Bool
listed_before created_at_asc t u = by_time ltb_ℤ t.created_at u.created_at t u
listed_before deadline_at_asc t u = by_deadline ltb_ℤ t.deadline_at u.deadline_at t u
listed_before deadline_at_desc t u = by_deadline (λ a b. ltb_ℤ b a) t.deadline_at u.deadline_at t u
listed_before _ t u = by_time (λ a b. ltb_ℤ b a) t.created_at u.created_at t u

abbrev pub found_rows : TaskFilter → Action (List Task)
found_rows f w = pure (order_by (listed_before f.sort) (select (fits w.env f) w.tables.tasks)) w

unfoldable pub list : TaskFilter → Action (List Task)
list f = do
  refuse_when (is_invalid f) invalid_task_filter
  statement
  rows ← found_rows f
  lift (map_rows to_domain rows)
