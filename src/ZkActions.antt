-- ===== src/ZkActions.antt =====
-- packages/frontend/src/lib/zkRecoveryActions.ts: what the wallet does for ZK recovery, from the
-- sync of the pool to the submission. Its calls of the SDK are those of ZkRecovery.
pub mod Blob
pub mod Chain
pub mod Circuit
pub mod Sync
pub mod Build
pub mod Staged
pub mod Prove
pub mod Actions
pub mod Runs
