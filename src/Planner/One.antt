-- ===== src/Planner/One.antt =====
-- `OneScan` of app/crates/core/tx-planner/src/plan/combination.rs.
pub mod Sound
pub mod Few
use veil_server_v.Prelude.{
  ℕ, true, false, none, some, List, [], ◌∷◌, ◌==◌, ltb, if◌then◌else◌, checked_sub,
}
use veil_server_v.Planner.Types.{Candidate}

pub data OneScan : Type 0 where
  exact : ℕ → OneScan
  overshoot : ℕ → ℕ → OneScan
  miss : OneScan

unfoldable pub scan : List Candidate → ℕ → OneScan
scan [] goal = miss
scan (c ∷ cs) goal =
    let rest = scan cs goal in
    elim (checked_sub c.1 goal) [
      | none ↦ rest
      | some diff ↦ if diff == 0 then exact c.0 else if ltb 0 diff then overshoot c.0 diff else rest
    ]
