-- ===== src/Merkle.antt =====
-- The append-only Merkle tree that the pool (contracts/pool/src/merkle_with_history.rs) and the
-- membership contract (contracts/asp-membership/src/lib.rs) share, apart from its storage keys.
pub mod Node
pub mod Climb
pub mod Leaves
