-- ===== src/Budget.antt =====
-- internal/budget: the check of a tenant's monthly budget in front of each LLM call, and invoices.
pub mod Pricing
pub mod Checker
pub mod Service
