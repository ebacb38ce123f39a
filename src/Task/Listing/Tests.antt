-- ===== src/Task/Listing/Tests.antt =====
-- Runs of `ListTasks` on example data.
use go_pet_project.Base.{false, none, some, [], ◌∷◌, ◌≡◌, ◌≢◌, refl, if◌then◌else◌, not}
use go_pet_project.Base.Int.{pos}
use go_pet_project.Base.Sort.{order_by, insert_row}
use go_pet_project.Base.Text.{trim_space, is_blank}
use go_pet_project.Errors.{ok, map_rows}
use go_pet_project.Samples.{office, report, report-IsWellFormed}
use go_pet_project.Task.Domain.{restore_task, is_overdue}
use go_pet_project.Task.Repository.{to_domain}
use go_pet_project.Task.Query
use go_pet_project.Task.Query.{active_only, created_at_desc, fits_overdue}
use go_pet_project.Task.Query.Listed.{fits_overdue-is_overdue}
use go_pet_project.Task.Listing.{ListTasksQuery, list_tasks, visible}
use go_pet_project.Task.Listing.Scopes.{IsAnswer, list_tasks-IsAnswer}

-- User 1 asks for what it can see and is not overdue.
abbrev mine : ListTasksQuery
mine = record {
  actor_id = 1;
  scope = visible;
  status = none;
  archived = active_only;
  deadline_from = none;
  deadline_to = none;
  overdue = some false;
  now = some (pos 5000000000000);
  search = [];
  sort = created_at_desc;
}

mine-ok : (list_tasks mine office).0 ≡ ok (report ∷ [])
unfolding list_tasks Query.list order_by insert_row map_rows to_domain restore_task trim_space
    is_blank
mine-ok = refl

list_tasks-IsAnswer_example :
    (mine.actor_id ≢ 0) × IsAnswer office.env mine (report ∷ []) (report ∷ [])
list_tasks-IsAnswer_example = list_tasks-IsAnswer mine office (report-IsWellFormed, tt) mine-ok

fits_overdue-is_overdue_example :
    fits_overdue (some false) (some (pos 5)) report
    ≡ (if false then is_overdue (pos 5) report else not (is_overdue (pos 5) report))
fits_overdue-is_overdue_example = fits_overdue-is_overdue false (pos 5) report
