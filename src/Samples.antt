-- ===== src/Samples.antt =====
-- Example data, on which the test modules run the code: a small office, its database and an
-- environment in which every statement succeeds. It stands for no code of the repository.
use go_pet_project.Base.{ℕ, true, false, some, none, [], ◌∷◌, ◌+◌, ◌*◌, refl, arith, leb, length}
use go_pet_project.Base.Int.{pos}
use go_pet_project.Base.Text.{runes, is_blank, same_text}
use go_pet_project.Time.Zone.{utc}
use go_pet_project.World.{World, Tables, Environment, IsTransactional, acknowledged, unacknowledged}
use go_pet_project.Task.Status.{Status, in_progress}
use go_pet_project.Task.Domain.{Task}
use go_pet_project.Task.Invariant.{IsWellFormed}
use go_pet_project.Reminder.Domain.{Reminder, absolute, before_deadline, pending}
use go_pet_project.Notification.Telegram.{TelegramLink}
use go_pet_project.Outbox.Event.{Event, other_json}

-- The clock shows a second more at each question, and the ids count up.
abbrev pub env : Environment
env = record {
  statement_fails = λ n. false;
  rollback = λ before after. before;
  broker = λ n. acknowledged;
  locked = λ n id. false;
  clock = λ n. pos (5000000000000 + n * 1000000000);
  uuid = λ n. n + 1000;
  chat = λ n. acknowledged;
  chat_error = λ n. [];
  random_token = λ n. some (runes "token");
  sha256_hex = λ s. s;
  zones = λ name. some utc;
  hash_password = λ n password. some password;
  password_matches = λ password hash. same_text password hash;
  sign = λ user issued expires. some (runes "access");
  is_ip = λ s. false;
  collates = λ a b. leb (length a) (length b);
  ilike = λ text pattern. false;
}

-- As `env`, with a broker whose acknowledgements are lost.
abbrev pub lossy_env : Environment
lossy_env = record env { broker = λ n. unacknowledged }

pub env-IsTransactional : IsTransactional env
env-IsTransactional = record { discards = λ before after. refl }

pub lossy_env-IsTransactional : IsTransactional lossy_env
lossy_env-IsTransactional = record { discards = λ before after. refl }

abbrev pub task_with : ℕ → Status → Task
task_with id status = record {
  id = id;
  series_id = none;
  creator_id = 1;
  assignee_id = 2;
  title = runes "write the report";
  description = [];
  status = status;
  deadline_at = some (pos 9000000000000);
  created_at = pos 1000000000000;
  updated_at = pos 1000000000000;
  completed_at = none;
  archived_at = none;
}

-- User 1 gives the task 7 to user 2.
abbrev pub report : Task
report = task_with 7 in_progress

pub report-IsWellFormed : IsWellFormed report
unfolding is_blank
report-IsWellFormed = ground arith

-- An hour before the deadline of the report.
abbrev pub hour_before : Reminder
hour_before = record {
  id = 21;
  task_id = 7;
  kind = before_deadline;
  offset_seconds = some (pos 3600);
  trigger_at = pos 5400000000000;
  state = pending;
  created_at = pos 1000000000000;
  sent_at = none;
}

-- Due at any reading of the clock.
abbrev pub due_reminder : Reminder
due_reminder = record {
  id = 22;
  task_id = 7;
  kind = absolute;
  offset_seconds = none;
  trigger_at = pos 4000000000000;
  state = pending;
  created_at = pos 1000000000000;
  sent_at = none;
}

abbrev pub old_event : Event
old_event = record {
  id = 31;
  aggregate_type = runes "reminder";
  aggregate_id = 20;
  event_type = runes "notification.requested.v1";
  payload = other_json (runes "{}");
  created_at = pos 2000000000000;
  published_at = none;
  attempts = pos 0;
}

abbrev pub linked : TelegramLink
linked = record {
  user_id = 2;
  chat_id = pos 77;
  telegram_username = none;
  linked_at = pos 1000000000000;
  enabled = true;
}

abbrev pub tables : Tables
tables = record {
  tasks = report ∷ [];
  permissions = record { assigner_id = 1; assignee_id = 3; created_at = pos 1 } ∷ [];
  reminders = hour_before ∷ due_reminder ∷ [];
  outbox_events = old_event ∷ [];
  notifications = [];
  processed_events = [];
  telegram_links = linked ∷ [];
  telegram_link_tokens = [];
  deliveries = [];
  task_series = [];
  reminder_rules = [];
  users = [];
  refresh_tokens = [];
}

abbrev pub office : World
office = record { tables = tables; topic = []; messages = []; env = env; step = 0 }
