-- ===== src/Auth.antt =====
-- internal/auth: the refresh tokens, their table, and the service.
pub mod Domain
pub mod Repository
pub mod Email
pub mod Commands
pub mod Service
pub mod Access
mod Tests
