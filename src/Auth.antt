-- ===== src/Auth.antt =====
-- internal/auth: accounts, tokens, and the middleware of tenant-scoped routes.
pub mod Service
pub mod Middleware
