-- ===== src/Web.antt =====
-- internal/web: the middleware of the pages.
pub mod Csrf
pub mod Session
