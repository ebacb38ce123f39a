-- ===== src/Outbox.antt =====
-- internal/outbox: events that the database keeps until the broker has them.
pub mod Event
pub mod Envelope
pub mod Repository
pub mod Relay
mod Tests
