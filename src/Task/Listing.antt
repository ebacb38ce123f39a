-- ===== src/Task/Listing.antt =====
-- `ListTasks` of internal/task/application/service/task_service.go, with its query of
-- internal/task/application/query/list_tasks.go.
pub mod Matches
pub mod Orders
pub mod Scopes
mod Tests
use go_pet_project.Base.{ℕ, Bool, Option, none, some, List, ◌==◌}
use go_pet_project.Base.Int.{ℤ}
use go_pet_project.Base.Text.{Text}
use go_pet_project.Time.{Time}
use go_pet_project.Errors.{invalid_actor, invalid_task_list_scope}
use go_pet_project.World.{Action, ◌>>=◌, ◌>>◌, raise, refuse_when}
use go_pet_project.Task.Status.{Status}
use go_pet_project.Task.Domain.{Task}
use go_pet_project.Task.Query
use go_pet_project.Task.Query.{ArchivedMode, TaskSort, TaskFilter}
use go_pet_project.Task.Service.{require_actor}

-- Of Go's `int`: `other` is a value that is none of the constants.
pub data ListScope : Type 0 where
  visible assigned_to_me created_by_me : ListScope
  other : ℤ → ListScope

pub record ListTasksQuery : Type 0 where
  pub actor_id : ℕ
  pub scope : ListScope
  pub status : Option Status
  pub archived : ArchivedMode
  pub deadline_from : Option Time
  pub deadline_to : Option Time
  pub overdue : Option Bool
  pub now : Option Time
  pub search : Text
  pub sort : TaskSort

-- The filter before the scope is looked at.
abbrev pub base_filter : ListTasksQuery → TaskFilter
base_filter q = record {
  visible_to = none;
  assignee_id = none;
  creator_id = none;
  status = q.status;
  archived = q.archived;
  deadline_from = q.deadline_from;
  deadline_to = q.deadline_to;
  overdue = q.overdue;
  now = q.now;
  search = q.search;
  sort = q.sort;
}

-- The `switch` on the scope, and the query.
abbrev pub list_scope : ListScope → ℕ → TaskFilter → Action (List Task)
list_scope visible actor f = Query.list (record f { visible_to = some actor })
list_scope assigned_to_me actor f = Query.list (record f { assignee_id = some actor })
list_scope created_by_me actor f = Query.list (record f { creator_id = some actor })
list_scope (other n) actor f = raise invalid_task_list_scope

unfoldable pub list_tasks : ListTasksQuery → Action (List Task)
list_tasks q = do require_actor q.actor_id; list_scope q.scope q.actor_id (base_filter q)
