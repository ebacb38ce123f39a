-- ===== src/Task/Service/Access.antt =====
-- Who may do what in internal/task/application/service/task_service.go.
use go_pet_project.Base.{
  ℕ, suc, ◌≡◌, ◌≢◌, ◌⊎◌, arith, true, inl, inr, ◌==◌, is_some, find, [], ◌∷◌, ◌++◌, if◌then◌else◌,
}
use go_pet_project.Errors.{Error, ok, err, Result-cases, task_access_denied}
use go_pet_project.World.{World, Tables, Action, tick}
use go_pet_project.Permission.{can_assign, exists, grants}
use go_pet_project.Time.{Time}
use go_pet_project.Task.Domain
use go_pet_project.Task.Domain.{Task}
use go_pet_project.Task.Repository.{find_by_id}
use go_pet_project.Task.Repository.Laws.{find_by_id-tick, create-appends}
use go_pet_project.Task.Invariant.{new_task-IsWellFormed}
use go_pet_project.Task.Service
use go_pet_project.Task.Service.{
  TaskCommand, ReassignTaskCommand, UpdateTaskCommand, ChangeStatusCommand, CreateTaskCommand,
  can_view, reassign_loaded_task,
}

-- The requests about a task that exists.
pub data Request : Type 0 where
  get : ℕ → ℕ → Request
  update : UpdateTaskCommand → Request
  reassign : ReassignTaskCommand → Request
  change_status : ChangeStatusCommand → Request
  archive restore : TaskCommand → Request

abbrev pub actor_of : Request → ℕ
actor_of (get actor id) = actor
actor_of (update cmd) = cmd.actor_id
actor_of (reassign cmd) = cmd.actor_id
actor_of (change_status cmd) = cmd.actor_id
actor_of (archive cmd) = cmd.actor_id
actor_of (restore cmd) = cmd.actor_id

abbrev pub task_of : Request → ℕ
task_of (get actor id) = id
task_of (update cmd) = cmd.task_id
task_of (reassign cmd) = cmd.task_id
task_of (change_status cmd) = cmd.task_id
task_of (archive cmd) = cmd.task_id
task_of (restore cmd) = cmd.task_id

-- The service's answer; of the two requests that run in a transaction, what runs inside it.
unfoldable pub serve : Request → Action Task
serve (get actor id) = Service.get_task actor id
serve (update cmd) = Service.update_task_in cmd
serve (reassign cmd) = Service.reassign_task cmd
serve (change_status cmd) = Service.change_status_in cmd
serve (archive cmd) = Service.archive_task cmd
serve (restore cmd) = Service.restore_task cmd

-- The creator may change a task, the assignee may move its status, and both may see it.
abbrev pub MayDo : ℕ → Request → Task → Type 0
MayDo actor (get a id) t = (actor ≡ t.creator_id) ⊎ (actor ≡ t.assignee_id)
MayDo actor (change_status cmd) t = actor ≡ t.assignee_id
MayDo actor _ t = actor ≡ t.creator_id

-- A request by a user who may not make it is refused, and the tables stay as they are; of the two
-- requests that run in a transaction, this is said of what runs inside it.
pub serve_refuses :
    (r : Request) (w : World) (t : Task)
    → (find_by_id (task_of r) w).0 ≡ ok t
    → actor_of r ≢ 0
    → ¬ MayDo (actor_of r) r t
    → ((serve r w).0 ≡ err task_access_denied) × ((serve r w).1.tables ≡ w.tables)
unfolding serve Service.get_task Service.update_task_in Service.reassign_task
    Service.change_status_in Service.archive_task Service.restore_task
serve_refuses (get actor id) w t found real no_right = ground (arith, find_by_id-tick id w)
serve_refuses (update cmd) w t found real no_right = ground (arith, find_by_id-tick cmd.task_id w)
serve_refuses (reassign cmd) w t found real no_right = ground (arith, find_by_id-tick cmd.task_id w)
serve_refuses (change_status cmd) w t found real no_right =
    ground (arith, find_by_id-tick cmd.task_id w)
serve_refuses (archive cmd) w t found real no_right = ground (arith, find_by_id-tick cmd.task_id w)
serve_refuses (restore cmd) w t found real no_right = ground (arith, find_by_id-tick cmd.task_id w)

module _ (w : World) (t : Task) {u : Task} where
  serve-MayDo :
      (r : Request)
      → (find_by_id (task_of r) w).0 ≡ ok t
      → (serve r w).0 ≡ ok u
      → MayDo (actor_of r) r t
  unfolding serve Service.get_task Service.update_task_in Service.reassign_task
      Service.change_status_in Service.archive_task Service.restore_task
  serve-MayDo (get actor id) found h = ground (arith, find_by_id-tick id w)
  serve-MayDo (update cmd) found h = ground (arith, find_by_id-tick cmd.task_id w)
  serve-MayDo (reassign cmd) found h = ground (arith, find_by_id-tick cmd.task_id w)
  serve-MayDo (change_status cmd) found h = ground (arith, find_by_id-tick cmd.task_id w)
  serve-MayDo (archive cmd) found h = ground (arith, find_by_id-tick cmd.task_id w)
  serve-MayDo (restore cmd) found h = ground (arith, find_by_id-tick cmd.task_id w)

serve_without_task :
    (r : Request) (w : World) {u : Task} {e : Error}
    → (find_by_id (task_of r) w).0 ≡ err e
    → (serve r w).0 ≢ ok u
unfolding serve Service.get_task Service.update_task_in Service.reassign_task
    Service.change_status_in Service.archive_task Service.restore_task
serve_without_task (get actor id) w missing h = ground arith
serve_without_task _ w missing h = ground arith

-- An answer without an error went to a user who may make the request, about a task that exists.
pub serve_allows :
    (r : Request) (w : World) {u : Task}
    → (serve r w).0 ≡ ok u
    → (t : Task) × ((find_by_id (task_of r) w).0 ≡ ok t) × MayDo (actor_of r) r t
serve_allows r w h = elim (Result-cases (find_by_id (task_of r) w).0) [
  | inl (t, found) ↦ (t, found, serve-MayDo w t r found h)
  | inr (e, missing) ↦ absurd (serve_without_task r w missing h)
]

-- A user may assign to itself, and to another where the permissions have a row for it.
abbrev pub MayAssign : ℕ → ℕ → Tables → Type 0
MayAssign assigner assignee db =
    (assigner ≡ assignee) ⊎ (is_some (find (grants assigner assignee) db.permissions) ≡ true)

can_assign-MayAssign :
    (a b : ℕ) (w : World) → (can_assign a b w).0 ≡ ok true → MayAssign a b w.tables
unfolding can_assign exists
can_assign-MayAssign a b w h = ground arith

tables-can_assign : (a b : ℕ) (w : World) → (can_assign a b w).1.tables ≡ w.tables
unfolding can_assign exists
tables-can_assign a b w = ground arith

-- A loaded task that is reassigned went to a user to whom the actor may assign, by
-- `Task.Reassign`; nothing is written yet.
pub reassign_loaded_task-ok :
    (actor assignee : ℕ) (t : Task) (at : Time) (w : World) {u : Task}
    → (Service.reassign_loaded_task actor t assignee at w).0 ≡ ok u
    → MayAssign actor assignee w.tables
      × (Domain.reassign assignee at t ≡ ok u)
      × ((Service.reassign_loaded_task actor t assignee at w).1.tables ≡ w.tables)
unfolding Service.reassign_loaded_task
reassign_loaded_task-ok actor assignee t at w h =
    ground (arith, can_assign-MayAssign actor assignee w, tables-can_assign actor assignee w)

-- A task that is created has the actor for its creator, who may assign to its assignee; it is the
-- one row that is added.
pub create_task-MayAssign :
    (cmd : CreateTaskCommand) (w : World) {u : Task}
    → (Service.create_task cmd w).0 ≡ ok u
    → (u.creator_id ≡ cmd.actor_id)
      × (MayAssign cmd.actor_id u.assignee_id w.tables)
      × ((Service.create_task cmd w).1.tables
          ≡ record (w.tables) { tasks = w.tables.tasks ++ u ∷ [] })
unfolding Service.create_task
create_task-MayAssign cmd w {u} h =
    let assignee = if cmd.assignee_id == 0 then cmd.actor_id else cmd.assignee_id in
    let (asked, w1) = can_assign cmd.actor_id assignee w in
    let made =
      Domain.new_task (w1.env.uuid (suc w1.step)) cmd.actor_id assignee cmd.title cmd.description
        cmd.deadline_at (w1.env.clock w1.step) in
    elim (Result-cases made) [
      | inr (e, bad) ↦ absurd (ground arith)
      | inl (t, good) ↦
          let (wf, creator, to) = new_task-IsWellFormed _ _ _ _ _ _ _ good in
          ground (
            arith,
            can_assign-MayAssign cmd.actor_id assignee w,
            tables-can_assign cmd.actor_id assignee w,
            create-appends t (tick (tick w1)) {u = u} wf,
          )
    ]
