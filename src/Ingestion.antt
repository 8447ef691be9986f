-- ===== src/Ingestion.antt =====
-- internal/ingestion: a data source is resolved to a connector, its documents are extracted, cut
-- into chunks, freed of duplicates and stored.
pub mod Connector
pub mod Parser
pub mod Dedup
pub mod Worker
