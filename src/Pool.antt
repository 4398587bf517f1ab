-- ===== src/Pool.antt =====
-- services/new/transactionPool.ts: the pool of transactions of a node.
pub mod Store
pub mod Signature
pub mod Ingest
pub mod Cleaner
pub mod Sole
pub mod Agreement
pub mod Cleaning
pub mod Rejection
mod Tests
