-- ===== src/Cart.antt =====
-- The cart service: services/cart-service.
pub mod Model
pub mod Items
pub mod Service
pub mod View
pub mod Keys
pub mod Changes
pub mod Removal
pub mod Failures
pub mod Refinement
mod Tests
