-- ===== src/Rooms/Access.antt =====
-- Who may do what: the guards of the handlers in backend/internal/rooms.
pub mod Refused
pub mod Rules
pub mod Handlers
