-- ===== src/Knowledge.antt =====
-- internal/knowledge: documents cut into chunks, and the store of both.
pub mod Chunking
pub mod Store
