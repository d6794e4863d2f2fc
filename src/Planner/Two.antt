-- ===== src/Planner/Two.antt =====
-- `TwoScan` of app/crates/core/tx-planner/src/plan/combination.rs.
pub mod Sound
pub mod Few
use veil_server_v.Prelude.{
  ℕ, zero, suc, ◌-◌, Bool, true, false, Option, none, some, List, ◌==◌, ltb, if◌then◌else◌, length,
  get_elem?, Outcome, ok, trap, ◌>>=◌, ok_or, unwrap, checked_add, checked_sub,
}
use veil_server_v.Planner.Types.{PlanError, internal_error, Candidate, add_amounts}

pub data TwoScan : Type 0 where
  exact : ℕ → ℕ → TwoScan
  overshoot : ℕ → ℕ → ℕ → TwoScan
  miss : TwoScan

-- The best overshoot so far: two indices and the excess.
abbrev pub Best : Type 0
Best = Option (ℕ × ℕ × ℕ)

-- `best_overshoot.is_none_or(|..| diff < excess)`, and the assignment under it.
unfoldable pub improve : Best → ℕ → ℕ → ℕ → Best
improve none i j diff = some (i, j, diff)
improve (some b) i j diff = if ltb diff b.2 then some (i, j, diff) else some b

unfoldable pub finish : Best → TwoScan
finish none = miss
finish (some b) = overshoot b.0 b.1 b.2

-- The `while left < right` loop, on fuel.
unfoldable pub scan_loop : ℕ → List Candidate → ℕ → ℕ → ℕ → Best → Outcome PlanError TwoScan
scan_loop zero sorted goal left right best = trap
scan_loop (suc fuel) sorted goal left right best = elim (ltb left right) [
  | false ↦ ok (finish best)
  | true ↦ unwrap (get_elem? sorted left) >>= λ low. unwrap (get_elem? sorted right) >>= λ high.
      add_amounts low.1 high.1 >>= λ sum. elim (checked_sub sum goal) [
        | none ↦ ok_or (checked_add 64 left 1) internal_error >>= λ next.
            scan_loop fuel sorted goal next right best
        | some diff ↦ elim (diff == 0) [
          | true ↦ ok (exact low.0 high.0)
          | false ↦ elim (ltb 0 diff) [
            | true ↦ ok_or (checked_sub right 1) internal_error >>= λ next.
                scan_loop fuel sorted goal left next (improve best low.0 high.0 diff)
            | false ↦ scan_loop fuel sorted goal left right best
          ]
        ]
      ]
]

-- The distance of the two pointers falls in every round, so that as many rounds as there are
-- candidates are enough.
unfoldable pub scan : List Candidate → ℕ → Outcome PlanError TwoScan
scan sorted goal = elim (ltb (length sorted) 2) [
  | true ↦ ok miss
  | false ↦ ok_or (checked_sub (length sorted) 1) internal_error >>= λ right.
      scan_loop (length sorted) sorted goal 0 right none
]
