-- ===== src/World.antt =====
-- The state behind the handlers, the calls that they make, and the handlers as actions on it.
pub mod Env
pub mod Message
pub mod State
pub mod Action
