-- ===== src/Oracle.antt =====
-- internal/oracle/: the pending transactions of each pool (Mempool).
pub mod Mempool
pub mod Service
pub mod Storage
pub mod Lending
