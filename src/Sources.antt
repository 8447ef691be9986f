-- ===== src/Sources.antt =====
-- internal/sources: the data sources of a tenant, with their credentials and uploaded files.
pub mod Crypto
pub mod Service
pub mod Reader
