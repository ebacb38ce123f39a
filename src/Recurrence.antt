-- ===== src/Recurrence.antt =====
-- internal/recurrence: the series of tasks, their tables, and the processor.
pub mod Domain
pub mod Repository
pub mod Processor
mod Tests
