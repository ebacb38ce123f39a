-- ===== src/Task.antt =====
-- internal/task: the tasks, their life cycle, and the service that checks who may change them.
pub mod Status
pub mod Domain
pub mod Invariant
pub mod Repository
pub mod Query
pub mod Service
pub mod Listing
pub mod Lifecycle
mod Tests
