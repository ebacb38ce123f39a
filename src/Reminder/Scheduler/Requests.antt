-- ===== src/Reminder/Scheduler/Requests.antt =====
-- The scheduler requests the notification of a reminder once: with the event of the outbox, in the
-- same transaction, the reminder becomes sent.
use go_pet_project.Base.{
  ℕ, some, none, [], ◌∷◌, ◌++◌, ◌≡◌, refl, sym, ap, arith, update_rows, count_rows, ◌==◌, inl, inr,
}
use go_pet_project.Base.Text.{Text}
use go_pet_project.Time.{Time}
use go_pet_project.Errors.{ok, Result-cases}
use go_pet_project.World.{World, tick}
use go_pet_project.Task.Domain.{Task}
use go_pet_project.Task.Repository as Tasks
use go_pet_project.Task.Repository.Laws.{find_by_id-tick}
use go_pet_project.Reminder.Domain.{Reminder, mark_sent, sent}
use go_pet_project.Reminder.Repository as Reminders
use go_pet_project.Reminder.Repository.{has_id, updated_row}
use go_pet_project.Reminder.Repository.Laws.{update-rows}
use go_pet_project.Outbox.Event.{
  Event, Payload, new_event, restore_event, reminder_aggregate_type, notification_requested_v1_type,
}
use go_pet_project.Outbox.Repository as Outbox
use go_pet_project.Reminder.Scheduler.{process, request_payload}

create-appends :
    (e : Event) (w : World) {u : Event}
    → (Outbox.create e w).0 ≡ ok u
    → (Outbox.create e w).1 ≡ record (tick w) {
      tables = record (w.tables) { outbox_events = w.tables.outbox_events ++ e ∷ [] };
    }
unfolding Outbox.create
create-appends e w h = ground arith

mark_sent-ok :
    (at : Time) (r : Reminder) {u : Reminder}
    → mark_sent at r ≡ ok u
    → u ≡ record r { state = sent; sent_at = some at }
unfolding mark_sent
mark_sent-ok at r h = ground arith

new_event-ok :
    (id : ℕ) (kind : Text) (aggregate : ℕ) (type : Text) (payload : Payload) (at : Time) {e : Event}
    → new_event id kind aggregate type payload at ≡ ok e
    → (e.aggregate_id ≡ aggregate) × (e.payload ≡ payload) × (e.published_at ≡ none)
unfolding new_event restore_event
new_event-ok id kind aggregate type payload at h = ground arith

-- The row of a reminder that was sent at this time.
abbrev pub sent_row : Reminder → Time → Reminder → Reminder
sent_row r at row = record row {
  kind = r.kind;
  offset_seconds = r.offset_seconds;
  trigger_at = r.trigger_at;
  state = sent;
  sent_at = some at;
}

pub process-ok :
    (r : Reminder) (w : World)
    → (process r w).0 ≡ ok tt
    → (t : Task) × (e : Event) × ((Tasks.find_by_id r.task_id (tick w)).0 ≡ ok t)
      × (e.aggregate_id ≡ r.id)
      × (e.payload ≡ request_payload r t)
      × (e.published_at ≡ none)
      × (count_rows (λ (s : Reminder). s.id == r.id) w.tables.reminders ≡ 1)
      × ((process r w).1.tables ≡ record (w.tables) {
        outbox_events = w.tables.outbox_events ++ e ∷ [];
        reminders =
            update_rows
              (λ (s : Reminder). s.id == r.id)
              (sent_row r (w.env.clock w.step))
              w.tables.reminders;
      })
unfolding process
process-ok r w h =
    let at = w.env.clock w.step in
    let w1 = tick (tick w) in
    elim (Result-cases (Tasks.find_by_id r.task_id (tick w)).0) [
      | inr (_, bad) ↦ absurd (ground arith)
      | inl (t, found) ↦
          let made =
            new_event (w.env.uuid w1.step) reminder_aggregate_type r.id
              notification_requested_v1_type (request_payload r t) at in
          elim (Result-cases made) [
            | inr (_, bad) ↦ absurd (ground (arith, find_by_id-tick r.task_id (tick w)))
            | inl (e, good) ↦ elim (Result-cases (Outbox.create e (tick w1)).0) [
              | inr (_, bad) ↦ absurd (ground (arith, find_by_id-tick r.task_id (tick w)))
              | inl (e', created) ↦ elim (Result-cases (mark_sent at r)) [
                | inr (_, bad) ↦ absurd (ground (arith, find_by_id-tick r.task_id (tick w)))
                | inl (u, marked) ↦
                    let w2 = (Outbox.create e (tick w1)).1 in
                    elim (Result-cases (Reminders.update u w2).0) [
                      | inr (_, bad) ↦ absurd (ground (arith, find_by_id-tick r.task_id (tick w)))
                      | inl (u', updated) ↦
                          let (aggregate, payload, unpublished) =
                            new_event-ok (w.env.uuid w1.step) reminder_aggregate_type r.id
                              notification_requested_v1_type (request_payload r t) at good in
                          let is = mark_sent-ok at r marked in
                          let appended = create-appends e (tick w1) created in
                          let (one, rows) = rw is at (update-rows u w2 updated) in
                          let ends : (process r w).1.tables ≡ (Reminders.update u w2).1.tables =
                            ground (arith, find_by_id-tick r.task_id (tick w)) in
                          (
                            t,
                            e,
                            found,
                            aggregate,
                            payload,
                            unpublished,
                            rw (sym (ap (λ (x : World). x.tables.reminders) appended)) one,
                            rw (ends, is, rows, appended) refl,
                          )
                    ]
              ]
            ]
          ]
    ]
