-- ===== src/Cimd.antt =====
-- pkg/cimd: client IDs that are URLs of a metadata document.
pub mod Addresses
pub mod Documents
pub mod Resolver
mod Tests
