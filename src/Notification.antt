-- ===== src/Notification.antt =====
-- internal/notification: the notifications of a user, made once for each event of the topic, and
-- their deliveries over Telegram.
pub mod Domain
pub mod Delivery
pub mod Telegram
pub mod Repository
pub mod Service
pub mod DeliveryRunner
mod Tests
