-- ===== src/Auth.antt =====
-- Accounts and tokens: backend/internal/auth and backend/internal/middleware/auth.go.
pub mod Tokens
pub mod Handler
pub mod Google
pub mod Keeps
