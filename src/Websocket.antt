-- ===== src/Websocket.antt =====
-- The websocket hubs and their handlers.
pub mod Registry
pub mod HubState
pub mod Hub
pub mod RoomHub
pub mod NotifyHub
pub mod Refinement
pub mod Subscriptions
pub mod Delivery
pub mod Gauges
pub mod Handlers
