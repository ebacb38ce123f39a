-- ===== src/Reminder.antt =====
-- internal/reminder: reminders of tasks, the service that manages them, and the scheduler that
-- turns due ones into outbox events.
pub mod Domain
pub mod Triggers
pub mod Invariant
pub mod Lifecycle
pub mod Repository
pub mod Service
pub mod Scheduler
mod Tests
