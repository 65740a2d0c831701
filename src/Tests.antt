-- ===== src/Tests.antt =====
-- The theorems at small inputs.
mod Fixtures
mod Rooms
mod Files
mod Contents
mod Members
mod Hubs
mod Executor
mod Accounts
mod Server
