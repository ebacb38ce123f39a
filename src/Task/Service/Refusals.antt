-- ===== src/Task/Service/Refusals.antt =====
-- How internal/task/application/service/task_service.go refuses the requests about a task.
use go_pet_project.Base.{suc, ◌≡◌, ◌≢◌, arith, false}
use go_pet_project.Errors.{Error, ok, err, task_access_denied}
use go_pet_project.World.{World, Action, IsTransactional, transaction, tick}
use go_pet_project.Task.Domain.{Task}
use go_pet_project.Task.Repository.{find_by_id}
use go_pet_project.Task.Service
use go_pet_project.Task.Service.{
  TaskCommand, ReassignTaskCommand, UpdateTaskCommand, ChangeStatusCommand, CreateTaskCommand,
  can_view, reassign_loaded_task,
}
use go_pet_project.Task.Service.Access.{
  Request, get, update, reassign, change_status, archive, restore, actor_of, task_of, serve, MayDo,
  serve_refuses,
}

-- The service's answer; two of the requests run in a transaction.
unfoldable pub respond : Request → Action Task
unfolding serve
respond (update cmd) = Service.update_task cmd
respond (change_status cmd) = Service.change_status cmd
respond r = serve r

-- The world in which the task of a request is looked up: after BEGIN, where there is one.
abbrev pub started : Request → World → World
started (update cmd) w = tick w
started (change_status cmd) w = tick w
started _ w = w

update_task_in-refuses :
    (cmd : UpdateTaskCommand) (w : World) (t : Task)
    → (find_by_id cmd.task_id w).0 ≡ ok t
    → cmd.actor_id ≢ 0
    → cmd.actor_id ≢ t.creator_id
    → (Service.update_task_in cmd w).0 ≡ err task_access_denied
unfolding serve
update_task_in-refuses cmd w t found real no_right =
    (serve_refuses (update cmd) w t found real no_right).0

change_status_in-refuses :
    (cmd : ChangeStatusCommand) (w : World) (t : Task)
    → (find_by_id cmd.task_id w).0 ≡ ok t
    → cmd.actor_id ≢ 0
    → cmd.actor_id ≢ t.assignee_id
    → (Service.change_status_in cmd w).0 ≡ err task_access_denied
unfolding serve
change_status_in-refuses cmd w t found real no_right =
    (serve_refuses (change_status cmd) w t found real no_right).0

transaction-refuses :
    (m : Action Task) (w : World) {e : Error}
    → IsTransactional w.env
    → w.env.statement_fails w.step ≡ false
    → (m (tick w)).0 ≡ err e
    → ((transaction m w).0 ≡ err e) × ((transaction m w).1.tables ≡ w.tables)
unfolding transaction
transaction-refuses m w t begun h =
    ground (arith, t.discards w.tables (m (record w { step = suc w.step })).1.tables)

-- Where the database is transactional and takes the first statement of a request, a request about an
-- existing task by a user who may not make it is refused with the access error, and the tables stay as
-- they are.
pub respond_refuses :
    (r : Request) (w : World) (t : Task)
    → IsTransactional w.env
    → w.env.statement_fails w.step ≡ false
    → (find_by_id (task_of r) (started r w)).0 ≡ ok t
    → actor_of r ≢ 0
    → ¬ MayDo (actor_of r) r t
    → ((respond r w).0 ≡ err task_access_denied) × ((respond r w).1.tables ≡ w.tables)
unfolding respond Service.update_task Service.change_status
respond_refuses (get actor id) w t db begun found real no_right =
    serve_refuses (get actor id) w t found real no_right
respond_refuses (update cmd) w t db begun found real no_right =
    transaction-refuses (Service.update_task_in cmd) w db begun
      (update_task_in-refuses cmd (tick w) t found real no_right)
respond_refuses (reassign cmd) w t db begun found real no_right =
    serve_refuses (reassign cmd) w t found real no_right
respond_refuses (change_status cmd) w t db begun found real no_right =
    transaction-refuses (Service.change_status_in cmd) w db begun
      (change_status_in-refuses cmd (tick w) t found real no_right)
respond_refuses (archive cmd) w t db begun found real no_right =
    serve_refuses (archive cmd) w t found real no_right
respond_refuses (restore cmd) w t db begun found real no_right =
    serve_refuses (restore cmd) w t found real no_right
