-- ===== src/Server.antt =====
-- pkg/mcp-proxy: what runs beside the requests.
pub mod Sweeper
mod Tests
