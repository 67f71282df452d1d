-- ===== src/Gateway.antt =====
-- The gateway's sessions: gateway/internal/auth/session_store.go and what the logic of logins makes of
-- them.
pub mod Session
pub mod Logic
pub mod Index
pub mod Rotation
pub mod Steps
pub mod Tokens
pub mod Renewal
mod Tests
