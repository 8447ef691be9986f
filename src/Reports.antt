-- ===== src/Reports.antt =====
-- internal/reports: report generation.
pub mod AgentLoop
pub mod Prompts
pub mod Worker
pub mod Service
