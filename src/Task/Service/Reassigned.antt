-- ===== src/Task/Service/Reassigned.antt =====
-- `ReassignTask` of internal/task/application/service/task_service.go.
use go_pet_project.Base.{
  ℕ, suc, Bool-cases, ◌≡◌, ◌⊎◌, arith, false, update_rows, refl, ap, ◌∙◌, inl, inr, ◌==◌,
}
use go_pet_project.Errors.{ok, Result-cases}
use go_pet_project.World.{World, Tables, tick}
use go_pet_project.Time.{Time}
use go_pet_project.Task.Domain
use go_pet_project.Task.Domain.{Task}
use go_pet_project.Task.Repository as Tasks
use go_pet_project.Task.Repository.{find_by_id}
use go_pet_project.Task.Repository.Laws.{
  find_by_id-tick, find_by_id-ok, update-tables, update-returns,
}
use go_pet_project.Task.Service
use go_pet_project.Task.Service.{
  TaskCommand, ReassignTaskCommand, UpdateTaskCommand, ChangeStatusCommand, CreateTaskCommand,
  can_view, reassign_loaded_task,
}
use go_pet_project.Task.Service.Access.{MayAssign, reassign_loaded_task-ok}

-- The row of a task that was given to this user at this time.
abbrev pub handed_over_row : Task → ℕ → Time → Task → Task
handed_over_row t assignee at row = record row {
  series_id = t.series_id;
  assignee_id = assignee;
  title = t.title;
  description = t.description;
  status = t.status;
  deadline_at = t.deadline_at;
  updated_at = at;
  completed_at = t.completed_at;
  archived_at = t.archived_at;
}

-- What a reassignment of this task has done, between these tables: the task has the assignee
-- already and nothing is written, or the actor may assign to the new one, who is written to its row.
abbrev pub IsReassigned : ReassignTaskCommand → Time → Task → Tables → Tables → Type 0
IsReassigned cmd at t db after =
    ((t.assignee_id ≡ cmd.new_assignee_id) × (after ≡ db))
    ⊎ ((MayAssign cmd.actor_id cmd.new_assignee_id db)
        × (after ≡ record db {
          tasks =
              update_rows (λ (row : Task). row.id == cmd.task_id)
                (handed_over_row t cmd.new_assignee_id at) db.tasks;
        }))

reassign-ok :
    (assignee : ℕ) (at : Time) (t : Task) {u : Task}
    → Domain.reassign assignee at t ≡ ok u
    → (assignee == t.assignee_id) ≡ false
    → u ≡ record t { assignee_id = assignee; updated_at = at }
unfolding Domain.reassign
reassign-ok assignee at t h other = ground arith

-- A reassignment that succeeds was asked for by the creator of the task and returns it with the
-- assignee asked for. The task had this assignee already, and nothing is written, or the actor may
-- assign to the assignee, and the row of the task is written with it; nothing else is changed.
pub reassign_task-IsReassigned :
    (cmd : ReassignTaskCommand) (w : World) {u : Task}
    → (Service.reassign_task cmd w).0 ≡ ok u
    → (t : Task) × ((find_by_id cmd.task_id w).0 ≡ ok t)
      × (cmd.actor_id ≡ t.creator_id)
      × (u.id ≡ cmd.task_id)
      × (u.assignee_id ≡ cmd.new_assignee_id)
      × IsReassigned cmd
          (w.env.clock (suc w.step))
          t
          w.tables
          (Service.reassign_task cmd w).1.tables
unfolding Service.reassign_task
reassign_task-IsReassigned cmd w {u} h = elim (Result-cases (find_by_id cmd.task_id w).0) [
  | inr (e, missing) ↦ absurd (ground arith)
  | inl (t, found) ↦
      let (same_id, _) = find_by_id-ok cmd.task_id w found in
      let at = w.env.clock (suc w.step) in
      let w2 = tick (tick w) in
      let answer = Service.reassign_loaded_task cmd.actor_id t cmd.new_assignee_id at w2 in
      let creator : cmd.actor_id ≡ t.creator_id = ground (arith, find_by_id-tick cmd.task_id w) in
      elim (Bool-cases (cmd.new_assignee_id == t.assignee_id)) [
        | inl same ↦
            let unchanged : u ≡ t = ground (arith, find_by_id-tick cmd.task_id w) in
            let kept : (Service.reassign_task cmd w).1.tables ≡ w.tables =
              ground (arith, find_by_id-tick cmd.task_id w) in
            let already : t.assignee_id ≡ cmd.new_assignee_id = ground arith in
            (t, found, creator, rw unchanged same_id, rw unchanged already, inl (already, kept))
        | inr other ↦ elim (Result-cases answer.0) [
          | inr (e, bad) ↦ absurd (ground (arith, find_by_id-tick cmd.task_id w))
          | inl (t', good) ↦
              let (may, moved, kept) =
                reassign_loaded_task-ok cmd.actor_id cmd.new_assignee_id t at w2 good in
              let is = reassign-ok cmd.new_assignee_id at t moved other in
              let written : (Tasks.update t' answer.1).0 ≡ ok u =
                ground (arith, find_by_id-tick cmd.task_id w) in
              let (id, _, to) = update-returns t' answer.1 written in
              let ends : (Service.reassign_task cmd w).1.tables
                  ≡ (Tasks.update t' answer.1).1.tables =
                ground (arith, find_by_id-tick cmd.task_id w) in
              (
                t,
                found,
                creator,
                id ∙ ap (λ (x : Task). x.id) is ∙ same_id,
                to ∙ ap (λ (x : Task). x.assignee_id) is,
                inr (may, rw (ends, update-tables t' answer.1 written, kept, is, same_id) refl),
              )
        ]
      ]
]
