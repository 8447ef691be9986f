-- ===== src/Tenant.antt =====
-- internal/tenant: tenants, their members, and their removal.
pub mod Service
