-- ===== src/PoolIndexer.antt =====
-- The trust-free pool indexer: infra/pool-indexer/src/.
pub mod Store
pub mod Snapshot
pub mod Merkle
pub mod Zeros
pub mod Climb
pub mod Frontier
