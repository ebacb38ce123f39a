-- ===== src/Notification/Repository.antt =====
-- internal/notification/adapter/out/postgres: mapper.go and repository.go. The module of each table
-- is named for the repository of it.
pub mod Notifications
pub mod ProcessedEvents
pub mod TelegramLinks
pub mod TelegramLinkTokens
pub mod Deliveries
