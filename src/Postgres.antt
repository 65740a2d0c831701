-- ===== src/Postgres.antt =====
-- backend/internal/postgres: the statements as functions on the tables.
pub mod Schema
pub mod Statement
pub mod Users
pub mod Rooms
pub mod Files
pub mod Ownership
pub mod Links
