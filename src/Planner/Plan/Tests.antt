-- ===== src/Planner/Plan/Tests.antt =====
-- Runs of the planner on a wallet that stands in the order of its amounts.
use veil_server_v.Prelude.{ℕ, ◌≡◌, refl, Option, some, List, [], ◌∷◌, ok}
use veil_server_v.Planner.Two as Two
use veil_server_v.Planner.One as One
use veil_server_v.Planner.Many as Many
use veil_server_v.Planner.Types.{Candidate}
use veil_server_v.Planner.Combination.{choose, from_k_scan, enumerate, find_combination}
use veil_server_v.Planner.Plan.{
  SpendableNote, consolidate, final, TransactionPlan, from_spendable, from_amount, ends_final,
  assemble, selection, check_indices, merges, set_last, build_steps, plan,
}
use veil_server_v.Planner.Plan.Linked.{Linked, plan-Linked}

abbrev as_sorted : List Candidate → List Candidate
as_sorted cs = cs

abbrev note : ℕ → ℕ → SpendableNote
note k a = record { commitment = k; amount = a }

abbrev wallet : List SpendableNote
wallet = note 101 3 ∷ note 102 4 ∷ note 103 5 ∷ []

-- All three notes: the largest two are merged, and the result is spent with the third.
abbrev planned : TransactionPlan
planned = record {
  steps =
      record {
        inputs = (from_spendable (note 103 5), some (from_spendable (note 102 4)));
        action = consolidate 9;
      }
      ∷ record {
        inputs = (from_amount 9, some (from_spendable (note 101 3)));
        action = final 11 (some 1);
      }
      ∷ [];
}

plan_of_three : plan as_sorted 11 wallet ≡ ok planned
unfolding plan find_combination choose enumerate Two.scan Two.scan_loop Two.finish One.scan
    Many.scan Many.below Many.search Many.dfs Many.settle Many.keep_overshoot Many.pop from_k_scan
    selection check_indices build_steps merges set_last assemble ends_final
plan_of_three = refl

plan-Linked_case :
    (n : SpendableNote) × (change : Option ℕ) × Linked (from_spendable n) 11 change planned.steps
plan-Linked_case = plan-Linked as_sorted 11 wallet plan_of_three
