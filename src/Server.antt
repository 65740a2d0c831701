-- ===== src/Server.antt =====
-- The configuration, the start and the end of backend/cmd/server/main.go.
pub mod Config
pub mod Connections
pub mod Process
