-- ===== src/Queue.antt =====
-- internal/queue: the limit on the jobs of a tenant, the tasks, and their handlers.
pub mod RateLimit
pub mod Tasks
pub mod Handler
pub mod Inspector
