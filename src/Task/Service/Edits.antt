-- ===== src/Task/Service/Edits.antt =====
-- The edits of `updateTask` of internal/task/application/service/task_service.go, up to the writes.
use go_pet_project.Base.{ℕ, suc, Bool, ◌≡◌, arith, true, false, Option, some, none, inl, inr}
use go_pet_project.Base.Text.{Text}
use go_pet_project.Time.{Time}
use go_pet_project.Errors.{Result, ok, err, Result-cases}
use go_pet_project.World.{World, Tables, tick}
use go_pet_project.Task.Domain
use go_pet_project.Task.Domain.{Task}
use go_pet_project.Task.Repository as Tasks
use go_pet_project.Task.Repository.{has_id, updated_row}
use go_pet_project.Task.Repository.Laws.{find_by_id-tick}
use go_pet_project.Task.Service.{
  UpdateTaskCommand, update_task_in, save_update, apply_assignee, apply_title, apply_description,
  apply_deadline, reassign_loaded_task,
}
use go_pet_project.Task.Service.Access.{reassign_loaded_task-ok}

-- What an edit keeps, whether it succeeds or not.
abbrev KeepsDeadline : Task → Tables → Result (Task × Bool) × World → Type 0
KeepsDeadline t db (ok (u, c), w) =
    (u.id ≡ t.id) × (u.deadline_at ≡ t.deadline_at) × (w.tables ≡ db)
KeepsDeadline t db (err e, w) = Unit

reassign-deadline :
    (assignee : ℕ) (at : Time) (t : Task) {u : Task}
    → Domain.reassign assignee at t ≡ ok u
    → (u.id ≡ t.id) × (u.deadline_at ≡ t.deadline_at)
unfolding Domain.reassign
reassign-deadline assignee at t h = ground arith

apply_assignee-keeps :
    (actor : ℕ) (o : Option ℕ) (at : Time) (t : Task) (w : World)
    → KeepsDeadline t w.tables (apply_assignee actor o at t w)
unfolding apply_assignee
apply_assignee-keeps actor none at t w = ground arith
apply_assignee-keeps actor (some assignee) at t w =
    elim (Result-cases (reassign_loaded_task actor t assignee at w).0) [
      | inr (e, bad) ↦ ground arith
      | inl (u, good) ↦
          let (may, reassigned, same) = reassign_loaded_task-ok actor assignee t at w good in
          ground (arith, reassign-deadline assignee at t reassigned)
    ]

apply_title-keeps :
    (o : Option Text) (at : Time) (t : Task) (c : Bool) (w : World)
    → KeepsDeadline t w.tables (apply_title o at (t, c) w)
unfolding apply_title Domain.update_title
apply_title-keeps none at t c w = ground arith
apply_title-keeps (some title) at t c w = ground arith

apply_description-keeps :
    (o : Option Text) (at : Time) (t : Task) (c : Bool) (w : World)
    → KeepsDeadline t w.tables (apply_description o at (t, c) w)
unfolding apply_description Domain.update_description
apply_description-keeps none at t c w = ground arith
apply_description-keeps (some text) at t c w = ground arith

-- The flag of `apply_deadline` tells whether the deadline was changed.
abbrev pub Flags : Task → Tables → Result (Task × Bool × Bool) × World → Type 0
Flags t db (ok (u, c, moved), w) =
    (u.id ≡ t.id)
    × (moved ≡ false → u.deadline_at ≡ t.deadline_at)
    × (moved ≡ true → c ≡ true)
    × (w.tables ≡ db)
Flags t db (err e, w) = Unit

apply_deadline-Flags :
    (o : Option (Option Time)) (at : Time) (t : Task) (c : Bool) (w : World)
    → Flags t w.tables (apply_deadline o at (t, c) w)
unfolding apply_deadline Domain.update_deadline
apply_deadline-Flags none at t c w = ground arith
apply_deadline-Flags (some deadline) at t c w = ground arith

-- Before `save_update`, `UpdateTask` only reads.
module _ (cmd : UpdateTaskCommand) (w : World) {v : Task} where
  pub update_task_in-saves :
      (update_task_in cmd w).0 ≡ ok v
      → (t u : Task) × (c moved : Bool) × (w' : World) × ((Tasks.find_by_id cmd.task_id w).0 ≡ ok t)
        × Flags t w.tables (ok (u, c, moved), w')
        × (update_task_in cmd w ≡ save_update (u, c, moved) w')
  unfolding update_task_in
  update_task_in-saves h =
      let at = w.env.clock (suc w.step) in
      elim (Result-cases (Tasks.find_by_id cmd.task_id w).0) [
        | inr (e, bad) ↦ absurd (ground arith)
        | inl (t, found) ↦
            let w1 = tick (tick w) in
            let (assigned, w2) = apply_assignee cmd.actor_id cmd.assignee_id at t w1 in
            elim (Result-cases assigned) [
              | inr (e, bad) ↦ absurd (ground (arith, find_by_id-tick cmd.task_id w))
              | inl ((t2, c2), good2) ↦
                  let (titled, w3) = apply_title cmd.title at (t2, c2) w2 in
                  elim (Result-cases titled) [
                    | inr (e, bad) ↦ absurd (ground (arith, find_by_id-tick cmd.task_id w))
                    | inl ((t3, c3), good3) ↦
                        let (described, w4) = apply_description cmd.description at (t3, c3) w3 in
                        elim (Result-cases described) [
                          | inr (e, bad) ↦ absurd (ground (arith, find_by_id-tick cmd.task_id w))
                          | inl ((t4, c4), good4) ↦
                              let (scheduled, w5) = apply_deadline cmd.deadline_at at (t4, c4) w4 in
                              elim (Result-cases scheduled) [
                                | inr (e, bad) ↦
                                    absurd (ground (arith, find_by_id-tick cmd.task_id w))
                                | inl ((u, c, moved), good5) ↦ (
                                  t,
                                  u,
                                  c,
                                  moved,
                                  w5,
                                  found,
                                  ground (
                                    arith,
                                    apply_assignee-keeps cmd.actor_id cmd.assignee_id at t w1,
                                    apply_title-keeps cmd.title at t2 c2 w2,
                                    apply_description-keeps cmd.description at t3 c3 w3,
                                    apply_deadline-Flags cmd.deadline_at at t4 c4 w4,
                                  ),
                                  ground (arith, find_by_id-tick cmd.task_id w),
                                )
                              ]
                        ]
                  ]
            ]
      ]
