-- ===== src/Keys.antt =====
-- pkg/keys: the signing keys, their directory and their rotation.
pub mod Types
pub mod Disk
pub mod Directory
pub mod Manager
pub mod Toy
mod Tests
