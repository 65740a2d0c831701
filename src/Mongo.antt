-- ===== src/Mongo.antt =====
-- backend/internal/mongo: the collections and the repositories' operations on them.
pub mod Documents
pub mod Snapshots
pub mod Executions
