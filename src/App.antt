-- ===== src/App.antt =====
-- What the services share: app.
pub mod Errors
pub mod Time
