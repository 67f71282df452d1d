-- ===== src/Order.antt =====
-- The order service: services/order-service.
pub mod Model
pub mod Errors
pub mod Tables
pub mod Orders
pub mod Actions
pub mod Stored
pub mod History
pub mod Service
pub mod Repeats
pub mod Amounts
mod Tests
