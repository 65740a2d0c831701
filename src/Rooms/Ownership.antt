-- ===== src/Rooms/Ownership.antt =====
-- The invariant of Postgres.Ownership along the handlers of backend/internal/rooms.
pub mod Statements
pub mod CreateRoom
