-- ===== src/Rooms.antt =====
-- backend/internal/rooms: the HTTP handlers.
pub mod NewRoom
pub mod Shared
pub mod RoomsHandler
pub mod MembersHandler
pub mod Language
pub mod FilesHandler
pub mod StateHandler
pub mod HistoryHandler
pub mod Routes
pub mod Invariants
pub mod Ownership
pub mod Links
pub mod System
pub mod Access
