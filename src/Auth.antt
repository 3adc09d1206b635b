-- ===== src/Auth.antt =====
-- pkg/auth: how the operator logs in.
pub mod Oidc
pub mod Session
pub mod Login
