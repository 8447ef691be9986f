-- ===== src/Storage.antt =====
-- internal/storage: the object store of uploaded files.
pub mod Key
pub mod Memory
