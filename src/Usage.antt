-- ===== src/Usage.antt =====
-- internal/usage: counters of consumption in Redis, the collector that stores them, the reader.
pub mod Key
pub mod Pricing
pub mod Dates
pub mod Emitter
pub mod Collector
pub mod Reader
