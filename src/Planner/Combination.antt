-- ===== src/Planner/Combination.antt =====
-- `find_combination` of app/crates/core/tx-planner/src/plan/combination.rs.
pub mod Sound
pub mod Few
mod Tests
use veil_server_v.Prelude.{ℕ, ◌+◌, List, [], ◌∷◌, Outcome, ok, ◌>>=◌}
use veil_server_v.Planner.Types.{PlanError, Candidate}
use veil_server_v.Planner.Two as Two
use veil_server_v.Planner.One as One
use veil_server_v.Planner.Many as Many

pub data CombinationResult : Type 0 where
  two_exact : ℕ → ℕ → CombinationResult
  one_exact : ℕ → CombinationResult
  two_overshoot : ℕ → ℕ → ℕ → CombinationResult
  one_overshoot : ℕ → ℕ → CombinationResult
  exact_k : List ℕ → CombinationResult
  overshoot : List ℕ → ℕ → CombinationResult
  impossible : CombinationResult

-- `values.iter().copied().enumerate()`, from an index on.
unfoldable pub enumerate : ℕ → List ℕ → List Candidate
enumerate i [] = []
enumerate i (x ∷ xs) = (i, x) ∷ enumerate (i + 1) xs

-- The last tiers.
unfoldable pub from_k_scan : Many.KScan → CombinationResult
from_k_scan (Many.exact is) = exact_k is
from_k_scan (Many.overshoot is excess) = overshoot is excess
from_k_scan Many.miss = impossible

-- The choice among the tiers, once the candidates are sorted.
unfoldable pub choose : List Candidate → ℕ → Outcome PlanError CombinationResult
choose sorted goal = Two.scan sorted goal >>= λ two. elim two [
  | Two.exact i j ↦ ok (two_exact i j)
  | Two.overshoot i j excess ↦ elim (One.scan sorted goal) [
    | One.exact k ↦ ok (one_exact k)
    | One.overshoot k e ↦ ok (two_overshoot i j excess)
    | One.miss ↦ ok (two_overshoot i j excess)
  ]
  | Two.miss ↦ elim (One.scan sorted goal) [
    | One.exact k ↦ ok (one_exact k)
    | One.overshoot k excess ↦ ok (one_overshoot k excess)
    | One.miss ↦ Many.scan sorted goal >>= λ many. ok (from_k_scan many)
  ]
]

-- The sort by amount is unstable, so it is a parameter: which of several permutations it gives
-- is not said.
unfoldable pub find_combination :
    (List Candidate → List Candidate) → List ℕ → ℕ → Outcome PlanError CombinationResult
find_combination sort [] goal = ok impossible
find_combination sort (x ∷ xs) goal = choose (sort (enumerate 0 (x ∷ xs))) goal
