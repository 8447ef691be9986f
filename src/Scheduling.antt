-- ===== src/Scheduling.antt =====
-- internal/scheduling: the schedules of reports.
pub mod Service
