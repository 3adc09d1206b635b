-- ===== src/Repository.antt =====
-- pkg/repository and pkg/models: the store of clients, tokens and codes, on bbolt.
pub mod SortedMap
pub mod Bolt
pub mod Format
pub mod Toy
mod Tests
mod ClientTests
mod InventoryTests
pub mod Models
pub mod Tokens
pub mod Maintenance
pub mod Clients
pub mod Revoke
pub mod Users
pub mod Inventory
