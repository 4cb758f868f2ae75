-- ===== src/Indexer.antt =====
-- internal/indexer.
pub mod Watches
