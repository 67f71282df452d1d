-- ===== src/Mq.antt =====
-- The message queue: app/mq.
pub mod Outbox
pub mod Store
pub mod Dispatcher
pub mod Claims
pub mod Delivery
pub mod Stuck
pub mod Marks
pub mod Done
mod Tests
