-- ===== src/Idp.antt =====
-- pkg/idp: the identity provider.
pub mod Loopback
pub mod Registration
pub mod Clients
pub mod Session
pub mod Pending
pub mod Consent
