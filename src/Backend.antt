-- ===== src/Backend.antt =====
-- pkg/backend/transparent.go: the backend behind the guard.
pub mod Redirects
pub mod Forwarding
mod Tests
