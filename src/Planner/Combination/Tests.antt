-- ===== src/Planner/Combination/Tests.antt =====
-- Runs of the choice of notes.
use veil_server_v.Prelude.{ℕ, ◌≡◌, refl, List, [], ◌∷◌, arith, ok}
use veil_server_v.Planner.Sorting.{sort_by_amount, sort_by_amount-Perm}
use veil_server_v.Planner.Two as Two
use veil_server_v.Planner.One as One
use veil_server_v.Planner.Many as Many
use veil_server_v.Planner.Combination.{
  choose, from_k_scan, CombinationResult, two_exact, two_overshoot, impossible, enumerate,
  find_combination,
}
use veil_server_v.Planner.Combination.Few as Few
use veil_server_v.Planner.Combination.Sound.{
  Answer, find_combination-Answer, find_combination-impossible,
}

abbrev wallet : List ℕ
wallet = 9 ∷ 3 ∷ 5 ∷ 4 ∷ []

pair_found : find_combination sort_by_amount wallet 8 ≡ ok (two_exact 1 2)
unfolding find_combination choose enumerate Two.scan Two.scan_loop
pair_found = refl

overshoot_found : find_combination sort_by_amount wallet 10 ≡ ok (two_overshoot 1 0 2)
unfolding find_combination choose enumerate Two.scan Two.scan_loop Two.finish Two.improve One.scan
overshoot_found = refl

too_little : find_combination sort_by_amount wallet 22 ≡ ok impossible
unfolding find_combination choose enumerate Two.scan Two.scan_loop Two.finish One.scan Many.scan
    Many.below Many.search Many.dfs Many.settle from_k_scan Many.pop Many.greedy_impl
    Many.greedy_loop
too_little = refl

find_combination-Answer_example :
    (r : CombinationResult) × (find_combination sort_by_amount wallet 8 ≡ ok r)
    × Answer (enumerate 0 wallet) 8 r
unfolding enumerate
find_combination-Answer_example =
    find_combination-Answer sort_by_amount wallet 8 sort_by_amount-Perm (omega arith) (omega arith)

find_combination-impossible_case : find_combination sort_by_amount wallet 22 ≡ ok impossible
unfolding enumerate
find_combination-impossible_case =
    find_combination-impossible sort_by_amount wallet 22 sort_by_amount-Perm (omega arith)
      (omega arith) (omega arith)
