-- ===== src/Inventory.antt =====
-- The inventory service: services/inventory-service.
pub mod Model
pub mod Errors
pub mod Items
pub mod Tables
pub mod Stocks
pub mod Branches
pub mod Reservations
pub mod Accounts
pub mod Outcomes
pub mod Service
mod Tests
