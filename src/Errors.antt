-- ===== src/Errors.antt =====
-- Go's error values as `errors.Is` sees them: one constructor for each sentinel of the packages
-- internal/{task,reminder,permission,outbox,notification,auth,user,recurrence}/{domain,application}. The text that
-- `fmt.Errorf("…: %w", err)` puts in front of a sentinel is not modelled.
use go_pet_project.Base.{List, [], ◌∷◌, Bool, true, false, ◌≡◌, refl, ◌⊎◌, inl, inr}

pub data Error : Type 0 where
  -- internal/task/application/errors.go and port/out/task_repository.go
  invalid_actor task_access_denied assignment_denied invalid_task_list_scope : Error
  invalid_task_filter : Error
  -- internal/task/domain/errors.go; `StatusTransitionError` unwraps to the sentinel
  invalid_task_id invalid_series_id invalid_creator_id invalid_assignee_id invalid_title : Error
  invalid_status invalid_status_transition invalid_timestamp task_not_found : Error
  -- internal/reminder/{application,domain}/errors.go; the sentinels that share a name with one of
  -- another package have the package's name in front
  reminder_invalid_actor reminder_access_denied : Error
  invalid_reminder_id reminder_invalid_task_id invalid_kind invalid_offset_seconds : Error
  invalid_trigger_at invalid_state invalid_created_at invalid_sent_at : Error
  invalid_reminder_fields invalid_reminder_lifecycle task_deadline_required : Error
  task_already_completed reminder_not_found : Error
  -- internal/permission/domain/errors.go
  permission_invalid_assigner_id permission_invalid_assignee_id : Error
  -- internal/outbox/domain/event.go
  invalid_event_id invalid_aggregate_id invalid_aggregate_type invalid_event_type : Error
  invalid_payload outbox_invalid_created_at invalid_published_at invalid_attempts : Error
  event_not_found : Error
  -- internal/user/{application,domain}/errors.go
  user_invalid_actor user_not_found user_email_already_exists user_username_already_exists : Error
  -- internal/auth/{application,domain}/errors.go
  email_already_exists username_already_exists invalid_credentials invalid_email : Error
  invalid_username invalid_password invalid_timezone invalid_refresh_token : Error
  refresh_token_not_found refresh_token_expired refresh_token_revoked : Error
  -- internal/notification/{application,domain}/errors.go
  notification_invalid_actor invalid_notification_event invalid_telegram_token : Error
  invalid_notification_id invalid_user_id notification_invalid_task_id : Error
  notification_invalid_reminder_id invalid_type notification_invalid_title invalid_body : Error
  notification_invalid_created_at invalid_read_at notification_not_found : Error
  invalid_delivery_id invalid_delivery_channel invalid_delivery_status : Error
  invalid_delivery_attempts invalid_delivery_next_attempt invalid_delivery_sent_at : Error
  delivery_not_found : Error
  invalid_telegram_chat_id invalid_telegram_linked_at invalid_telegram_link_token_id : Error
  invalid_telegram_link_token invalid_telegram_link_token_expiry : Error
  invalid_telegram_link_token_used_at telegram_link_not_found : Error
  telegram_link_token_not_found telegram_link_token_invalid_or_expired : Error
  -- internal/recurrence/domain/errors.go
  recurrence_invalid_series_id recurrence_invalid_creator_id : Error
  recurrence_invalid_assignee_id recurrence_invalid_title invalid_frequency : Error
  invalid_interval invalid_next_deadline_at recurrence_invalid_timezone : Error
  recurrence_invalid_timestamp invalid_reminder_rule_id : Error
  recurrence_invalid_offset_seconds series_not_found : Error
  -- internal/auth/application/port/out/token_provider.go
  invalid_access_token access_token_expired : Error
  -- `errors.New` without a name: a limit or a batch size that is not positive
  limit_not_positive : Error
  -- an error of the database, the broker, the JSON encoder, the random source, bcrypt or the
  -- signing of a token
  database publish marshal random hash_password sign_token : Error

pub data Result {ℓ} (A : Type ℓ) : Type ℓ where
  err : Error → Result A
  ok : A → Result A

module _ {κ} {B : Type κ} where
  infixl 5 ◌>>=◌ ◌>>◌
  -- `x, err := m; if err != nil { return err }`
  abbrev pub ◌>>=◌ {ℓ} : {A : Type ℓ} → Result A → (A → Result B) → Result B
  err e >>= next = err e
  ok a >>= next = next a

  abbrev pub ◌>>◌ : Result (Unit {0}) → Result B → Result B
  err e >> next = err e
  ok _ >> next = next

-- `if refused { return err }`
abbrev pub refuse_if : Bool → Error → Result (Unit {0})
refuse_if true e = err e
refuse_if false e = ok tt

pub Result-cases {ℓ} :
    {A : Type ℓ} (r : Result A) → ((a : A) × (r ≡ ok a)) ⊎ ((e : Error) × (r ≡ err e))
Result-cases (ok a) = inl (a, refl)
Result-cases (err e) = inr (e, refl)

-- A loop that maps each row and stops at the first error.
unfoldable pub map_rows {ℓ κ} :
    {A : Type ℓ} {B : Type κ} → (A → Result B) → List A → Result (List B)
map_rows f [] = ok []
map_rows f (x ∷ xs) = let rest = map_rows f xs in f x >>= λ y. rest >>= λ ys. ok (y ∷ ys)
