-- ===== src/Proxy.antt =====
-- pkg/proxy: the guard in front of the backend.
pub mod Headers
pub mod Guard
pub mod TokenRecord
mod Tests
