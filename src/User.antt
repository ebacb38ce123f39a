-- ===== src/User.antt =====
-- internal/user: the users, their table, and the service.
pub mod Domain
pub mod Repository
pub mod Service
