-- ===== src/Payment.antt =====
-- The payment service: services/payment-service.
pub mod Model
pub mod Errors
pub mod Tables
pub mod Payments
pub mod Actions
pub mod Service
pub mod Invariant
pub mod Repeats
mod Tests
