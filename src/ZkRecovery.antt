-- ===== src/ZkRecovery.antt =====
-- The SDK's half of ZK recovery: packages/passkey-sdk/src/zkRecovery/.
pub mod Field
pub mod AuthHash
pub mod Poseidon
pub mod Merkle
pub mod PoolSync
