-- ===== src/Executor.antt =====
-- The executor: backend/internal/executor and the handler of jobs in backend/cmd/executor/main.go.
pub mod Container
pub mod Paths
pub mod Tree
pub mod Lock
pub mod Job
