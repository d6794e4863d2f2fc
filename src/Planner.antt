-- ===== src/Planner.antt =====
-- The transaction planner: app/crates/core/tx-planner/src/plan.
pub mod Types
pub mod Picks
pub mod Top
pub mod Sorting
pub mod Two
pub mod One
pub mod Many
pub mod Combination
pub mod Plan
pub mod Session
