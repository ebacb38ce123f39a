-- ===== src/Task/Lifecycle.antt =====
-- The life of a task under the methods of internal/task/domain/task.go: what each of them keeps,
-- and which statuses a sequence of calls can reach.
use go_pet_project.Base.{
  ℕ, Option, List, [], ◌∷◌, ◌≡◌, ◌≢◌, refl, arith, ◌⊎◌, ◌∙◌, true, false, ◌↔◌, inl, inr,
}
use go_pet_project.Base.Int.{◌≤ℤ◌}
use go_pet_project.Base.Text.{Text}
use go_pet_project.Time.{Time}
use go_pet_project.Errors.{Result, ok, err}
use go_pet_project.Task.Status.{
  Status, open_status, in_progress, done, cancelled, is_completed, can_transition_to,
}
use go_pet_project.Task.Domain
use go_pet_project.Task.Domain.{Task}
use go_pet_project.Task.Invariant.{IsWellFormed}

-- A call of a method that changes a task.
pub data Mutation : Type 0 where
  change_status : Status → Mutation
  update_title update_description : Text → Mutation
  update_deadline : Option Time → Mutation
  reassign : ℕ → Mutation
  archive restore : Mutation

unfoldable pub mutate : Mutation → Time → Task → Result Task
unfolding Domain.change_status Domain.update_title Domain.update_description Domain.update_deadline
    Domain.reassign Domain.archive Domain.restore
mutate (change_status next) now t = Domain.change_status next now t
mutate (update_title title) now t = Domain.update_title title now t
mutate (update_description text) now t = Domain.update_description text now t
mutate (update_deadline deadline) now t = Domain.update_deadline deadline now t
mutate (reassign assignee) now t = Domain.reassign assignee now t
mutate archive now t = Domain.archive now t
mutate restore now t = Domain.restore now t

-- Every method keeps a task well formed, never moves its update time back, and leaves its id, its
-- creator and its creation time alone.
pub record Follows (t u : Task) : Type 0 where
  pub well_formed : IsWellFormed u
  pub later : t.updated_at ≤ℤ u.updated_at
  pub same_id : u.id ≡ t.id
  pub same_creator : u.creator_id ≡ t.creator_id
  pub same_created : u.created_at ≡ t.created_at
  pub same_series : u.series_id ≡ t.series_id

-- What a call that began at `t` may end in.
abbrev pub Keeps : Task → Result Task → Type 0
Keeps t (ok u) = Follows t u
Keeps t (err e) = Unit

completed_is_final : (s next : Status) → can_transition_to s next ≡ true → is_completed s ≡ false
unfolding can_transition_to
completed_is_final done next h = ground arith
completed_is_final _ next h = refl

module _ (now : Time) (t : Task) (w : IsWellFormed t) where
  change_status-Keeps : (next : Status) → Keeps t (Domain.change_status next now t)
  unfolding Domain.change_status
  change_status-Keeps next = ground (arith, completed_is_final t.status next)

  update_title-Keeps : (title : Text) → Keeps t (Domain.update_title title now t)
  unfolding Domain.update_title
  update_title-Keeps title = ground arith

  update_description-Keeps : (text : Text) → Keeps t (Domain.update_description text now t)
  unfolding Domain.update_description
  update_description-Keeps text = ground arith

  update_deadline-Keeps : (deadline : Option Time) → Keeps t (Domain.update_deadline deadline now t)
  unfolding Domain.update_deadline
  update_deadline-Keeps deadline = ground arith

  reassign-Keeps : (assignee : ℕ) → Keeps t (Domain.reassign assignee now t)
  unfolding Domain.reassign
  reassign-Keeps assignee = ground arith

  archive-Keeps : Keeps t (Domain.archive now t)
  unfolding Domain.archive
  archive-Keeps = ground arith

  restore-Keeps : Keeps t (Domain.restore now t)
  unfolding Domain.restore
  restore-Keeps = ground arith

-- Every method, on success, keeps a well-formed task well formed, does not move its update time
-- back, and leaves its id, series, creator and creation time alone.
pub mutate-Keeps :
    (m : Mutation) (now : Time) (t : Task) → IsWellFormed t → Keeps t (mutate m now t)
unfolding mutate
mutate-Keeps (change_status next) now t w = change_status-Keeps now t w next
mutate-Keeps (update_title title) now t w = update_title-Keeps now t w title
mutate-Keeps (update_description text) now t w = update_description-Keeps now t w text
mutate-Keeps (update_deadline deadline) now t w = update_deadline-Keeps now t w deadline
mutate-Keeps (reassign assignee) now t w = reassign-Keeps now t w assignee
mutate-Keeps archive now t w = archive-Keeps now t w
mutate-Keeps restore now t w = restore-Keeps now t w

-- The diagram of statuses.
infix 40 ◌⟶◌
pub data ◌⟶◌ : Status → Status → Type 0 where
  start : open_status ⟶ in_progress
  finish : open_status ⟶ done
  complete : in_progress ⟶ done

can_transition_to-⟶ : (s next : Status) → can_transition_to s next ≡ true → s ⟶ next
unfolding can_transition_to
can_transition_to-⟶ open_status in_progress h = start
can_transition_to-⟶ open_status done h = finish
can_transition_to-⟶ in_progress done h = complete
can_transition_to-⟶ _ next h = absurd (ground arith)

⟶-can_transition_to : {s next : Status} → s ⟶ next → can_transition_to s next ≡ true
unfolding can_transition_to
⟶-can_transition_to start = refl
⟶-can_transition_to finish = refl
⟶-can_transition_to complete = refl

-- `CanTransitionTo` accepts exactly the edges of the diagram.
pub can_transition_to_iff : (s next : Status) → (can_transition_to s next ≡ true) ↔ (s ⟶ next)
can_transition_to_iff s next = (can_transition_to-⟶ s next, ⟶-can_transition_to)

-- A sequence of calls; a call that fails leaves the task as it was.
abbrev or_else : Task → Result Task → Task
or_else t (ok u) = u
or_else t (err e) = t

unfoldable pub run : List (Mutation × Time) → Task → Task
run [] t = t
run ((m, now) ∷ calls) t = run calls (or_else t (mutate m now t))

abbrev after_call : Mutation → Time → Task → Task
after_call m now t = or_else t (mutate m now t)

mutate-edge :
    (m : Mutation) (now : Time) (t : Task)
    → ((after_call m now t).status ≡ t.status)
      ⊎ (can_transition_to t.status (after_call m now t).status ≡ true)
unfolding mutate
mutate-edge (change_status next) now t = ground arith
mutate-edge _ now t = ground arith

-- A completed task keeps its status and its completion time.
mutate-done :
    (m : Mutation) (now : Time) (t : Task)
    → t.status ≡ done
    → ((after_call m now t).status ≡ done) × ((after_call m now t).completed_at ≡ t.completed_at)
unfolding mutate
mutate-done (change_status next) now t h = ground (arith, completed_is_final t.status next)
mutate-done _ now t h = ground arith

or_else-IsWellFormed :
    (t : Task) (r : Result Task) → IsWellFormed t → Keeps t r → IsWellFormed (or_else t r)
or_else-IsWellFormed t (ok u) w k = k.well_formed
or_else-IsWellFormed t (err e) w k = w

infix 40 ◌⟶*◌
pub data ◌⟶*◌ : Status → Status → Type 0 where
  here : {s : Status} → s ⟶* s
  there : {s t u : Status} → s ⟶ t → t ⟶* u → s ⟶* u

-- Any calls in any order, failing ones included, keep a task well formed.
pub run-IsWellFormed :
    (calls : List (Mutation × Time)) (t : Task) → IsWellFormed t → IsWellFormed (run calls t)
unfolding run
run-IsWellFormed [] t w = w
run-IsWellFormed ((m, now) ∷ calls) t w =
    run-IsWellFormed calls (after_call m now t)
      (or_else-IsWellFormed t (mutate m now t) w (mutate-Keeps m now t w))

-- The status moves along the edges of the diagram, whatever the calls.
pub run-⟶* : (calls : List (Mutation × Time)) (t : Task) → t.status ⟶* (run calls t).status
unfolding run
run-⟶* [] t = here
run-⟶* ((m, now) ∷ calls) t =
    let rest = run-⟶* calls (after_call m now t) in
    elim (mutate-edge m now t) [
      | inl e ↦ rw e at rest
      | inr e ↦ there (can_transition_to-⟶ _ _ e) rest
    ]

-- A completed task stays completed, with the completion time that it has.
pub run_done :
    (calls : List (Mutation × Time)) (t : Task)
    → t.status ≡ done
    → ((run calls t).status ≡ done) × ((run calls t).completed_at ≡ t.completed_at)
unfolding run
run_done [] t h = (h, refl)
run_done ((m, now) ∷ calls) t h =
    let (d, c) = mutate-done m now t h in
    let (d', c') = run_done calls (after_call m now t) d in (d', c' ∙ c)

⟶*-not_cancelled : {s u : Status} → s ⟶* u → s ≢ cancelled → u ≢ cancelled
⟶*-not_cancelled here h = h
⟶*-not_cancelled (there start r) h = ⟶*-not_cancelled r (λ e. cc)
⟶*-not_cancelled (there finish r) h = ⟶*-not_cancelled r (λ e. cc)
⟶*-not_cancelled (there complete r) h = ⟶*-not_cancelled r (λ e. cc)

-- No calls ever cancel a task.
pub run_never_cancels :
    (calls : List (Mutation × Time)) (t : Task)
    → t.status ≢ cancelled
    → (run calls t).status ≢ cancelled
run_never_cancels calls t h = ⟶*-not_cancelled (run-⟶* calls t) h
