-- ===== src/Pool.antt =====
-- contracts/pool/src/pool.rs: the pool contract.
pub mod Types
pub mod Amount
pub mod Nullifiers
pub mod Proofs
pub mod Samples
pub mod Transact
pub mod Settings
pub mod Access
