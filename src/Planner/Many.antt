-- ===== src/Planner/Many.antt =====
-- `KScan` of app/crates/core/tx-planner/src/plan/combination.rs: the depth-first search for three
-- or more notes, and the greedy choice of the largest.
pub mod Dfs
pub mod Sound
pub mod Descent
pub mod Few
use veil_server_v.Prelude.{
  ℕ, zero, suc, ◌+◌, ◌-◌, Bool, true, false, ◌||◌, Option, none, some, List, [], ◌∷◌, ◌++◌, ◌==◌,
  ltb, leb, if◌then◌else◌, length, Outcome, ok, ◌>>=◌, ok_or, checked_sub,
}
use mathlib.Core.List.{reverse}
use veil_server_v.Planner.Types.{
  PlanError, internal_error, Candidate, transaction_limit, add_amounts,
}

pub data KScan : Type 0 where
  exact : List ℕ → KScan
  overshoot : List ℕ → ℕ → KScan
  miss : KScan

-- What the search changes of a `DfsContext`. The limit starts at 5000 and never falls below 0.
pub record DfsContext : Type 0 where
  pub iteration_limit : ℕ
  pub path : List ℕ
  pub best_overshoot : Option (ℕ × List ℕ)

-- `path.pop()`
unfoldable pub pop : List ℕ → List ℕ
pop [] = []
pop (i ∷ is) = elim is [ [] ↦ [] | _ ∷ _ ↦ i ∷ pop is ]

-- An overshoot of a path with enough notes is kept if it is the first or the least.
unfoldable pub keep_overshoot : ℕ → DfsContext → DfsContext
keep_overshoot diff ctx =
    let better : Bool = elim ctx.best_overshoot [ none ↦ true | some b ↦ ltb diff b.0 ] in
    if better then record ctx { best_overshoot = some (diff, ctx.path) } else ctx

-- `dfs` where the path has `target_k` notes.
unfoldable pub settle : ℕ → ℕ → DfsContext → Bool × DfsContext
settle goal sum ctx = elim (checked_sub sum goal) [
  | none ↦ (false, ctx)
  | some diff ↦
      if diff == 0
      then (true, ctx)
      else (false, if ltb 0 diff then keep_overshoot diff ctx else ctx)
]

-- `dfs`, on the candidates from its `index` on.
unfoldable pub dfs : ℕ → ℕ → List Candidate → ℕ → DfsContext → Outcome PlanError (Bool × DfsContext)
dfs goal target_k [] sum ctx = elim (length ctx.path == target_k) [
  | true ↦ ok (settle goal sum ctx)
  | false ↦ ok (false, ctx)
]
dfs goal target_k (c ∷ cs) sum ctx = elim (length ctx.path == target_k) [
  | true ↦ ok (settle goal sum ctx)
  | false ↦ elim (leb goal sum || ctx.iteration_limit == 0) [
    | true ↦ ok (false, ctx)
    | false ↦ ok_or (checked_sub ctx.iteration_limit 1) internal_error >>= λ limit.
        add_amounts sum c.1 >>= λ with_note.
        dfs goal target_k cs with_note
          (record ctx { iteration_limit = limit; path = ctx.path ++ (c.0 ∷ []) })
        >>= λ r. elim r.0 [
          | true ↦ ok (true, r.1)
          | false ↦ dfs goal target_k cs sum (record r.1 { path = pop (r.1).path })
        ]
  ]
]

-- `greedy_impl`, on the candidates that are left, largest first.
unfoldable pub greedy_loop : List Candidate → ℕ → ℕ → List ℕ → Outcome PlanError KScan
greedy_loop [] goal sum picks = ok miss
greedy_loop (c ∷ cs) goal sum picks = add_amounts sum c.1 >>= λ next_total.
    elim (leb goal next_total) [
      | true ↦ ok_or (checked_sub next_total goal) internal_error >>= λ excess.
          ok (overshoot (picks ++ (c.0 ∷ [])) excess)
      | false ↦ greedy_loop cs goal next_total (picks ++ (c.0 ∷ []))
    ]

unfoldable pub greedy_impl : List Candidate → ℕ → Outcome PlanError KScan
greedy_impl sorted goal = greedy_loop (reverse sorted) goal 0 []

-- The candidates below the goal.
unfoldable pub below : ℕ → List Candidate → List Candidate
below goal [] = []
below goal (c ∷ cs) = if ltb c.1 goal then c ∷ below goal cs else below goal cs

abbrev pub fresh : DfsContext
fresh = record { iteration_limit = 5000; path = []; best_overshoot = none }

-- `for k in 3..=max_k`, with the rounds left, and the greedy choice after it.
unfoldable pub search : ℕ → ℕ → List Candidate → List Candidate → ℕ → Outcome PlanError KScan
search zero k sorted candidates goal = greedy_impl sorted goal
search (suc rounds) k sorted candidates goal = dfs goal k candidates 0 fresh >>= λ r. elim r.0 [
  | true ↦ ok (exact (r.1).path)
  | false ↦ elim (r.1).best_overshoot [
    | some b ↦ ok (overshoot b.1 b.0)
    | none ↦ search rounds (k + 1) sorted candidates goal
  ]
]

abbrev pub least : ℕ → ℕ → ℕ
least a b = if ltb b a then b else a

unfoldable pub scan : List Candidate → ℕ → Outcome PlanError KScan
scan sorted goal =
    let candidates_desc = reverse (below goal sorted) in
    if leb 3 (length candidates_desc)
    then search (least (length candidates_desc) transaction_limit - 2) 3 sorted candidates_desc goal
    else greedy_impl sorted goal
