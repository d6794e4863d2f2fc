-- ===== src/Planner/Session/Tests.antt =====
-- A run of a session: the two largest of three notes are merged, and the result is sent with the third.
use veil_server_v.Prelude.{
  true, ℕ, suc, ◌+◌, ◌≤◌, ◌≡◌, ◌≢◌, refl, none, some, List, [], ◌∷◌, arith, ok,
}
use veil_server_v.Prelude.Int.{pos}
use mathlib.Core.Logic.Or
use mathlib.Core.List.{Mem, Nodup, Nodup-cons, not-mem-nil, eq-or-mem_of_mem-cons, Pairwise}
use mathlib.Core.HLevel.{⊥_prop}
use native.Mathlib.Bridge.{le_prop}
use veil_server_v.Planner.Sorting.{sort_by_amount, sort_by_amount-Perm, sort_by_amount-Rises}
use veil_server_v.Planner.Two as Two
use veil_server_v.Planner.One as One
use veil_server_v.Planner.Many as Many
use veil_server_v.Planner.Combination.{choose, from_k_scan, enumerate, find_combination}
use veil_server_v.Planner.Plan.{
  SpendableNote, PlannedStep, consolidate, final, from_spendable, from_amount, ends_final, assemble,
  selection, check_indices, merges, set_last, build_steps, plan, resolve, resolve_input_note,
  find_commitment, matching, excludes,
}
use veil_server_v.Planner.Plan.Total.{Planned, plan-Planned}
use veil_server_v.Planner.Session.{
  transfer, SpendSession, Transact, setup, is_done, is_consolidate_step, step, complete_step,
  from_plan, validate_target, materialize_step, materialize_final, next_wallet, remove_spent,
  without, commitments,
}
use veil_server_v.Planner.Session.Reached.{start, completed}
use veil_server_v.Planner.Session.Paid.{SpendsExactly, PaysOut, step-PaysOut}
use veil_server_v.Planner.Session.Exact.{SpendsNotes, plan-SpendsNotes}
use veil_server_v.Planner.Session.Runs.{
  FreshRun, opened, advances, IsGiven, step-FreshRun, setup-FreshRun,
}

abbrev note : ℕ → ℕ → SpendableNote
note k a = record { commitment = k; amount = a }

abbrev wallet : List SpendableNote
wallet = note 101 3 ∷ note 102 4 ∷ note 103 5 ∷ []

abbrev steps : List PlannedStep
steps =
    record {
      inputs = (from_spendable (note 103 5), some (from_spendable (note 102 4)));
      action = consolidate 9;
    }
    ∷ record {
      inputs = (from_amount 9, some (from_spendable (note 101 3)));
      action = final 11 (some 1);
    }
    ∷ []

abbrev begun : SpendSession
begun = record {
  steps = steps;
  wallet = wallet;
  pool_address = 7 ∷ [];
  target = transfer 61 62;
  step_index = 0;
}

abbrev merged : SpendSession
merged = record begun { wallet = note 101 3 ∷ note 201 9 ∷ []; step_index = 1 }

abbrev sent : Transact
sent = record {
  input_commitments = 201 ∷ 101 ∷ [];
  output_amounts = (11, 1);
  ext_amount = pos 0;
  ext_recipient = 7 ∷ [];
  out_recipient_note_pubkeys = (some 61, none);
  out_recipient_encryption_pubkeys = (some 62, none);
}

sets_up : setup sort_by_amount wallet 11 (7 ∷ []) (transfer 61 62) ≡ ok begun
unfolding setup from_plan validate_target plan find_combination choose enumerate Two.scan
    Two.scan_loop Two.finish One.scan Many.scan Many.below Many.search Many.dfs Many.settle
    Many.keep_overshoot Many.pop from_k_scan selection check_indices build_steps merges set_last
    assemble ends_final
sets_up = refl

merges_two : complete_step (201, 202) begun ≡ ok merged
unfolding complete_step is_done from_plan resolve resolve_input_note find_commitment next_wallet
    remove_spent without
merges_two = refl

sends : step merged ≡ ok (some sent)
unfolding step is_done from_plan resolve resolve_input_note find_commitment matching excludes
    materialize_step materialize_final
sends = refl

plan-Planned_example : Planned 11 wallet (plan sort_by_amount 11 wallet)
unfolding enumerate
plan-Planned_example =
    plan-Planned sort_by_amount 11 (note 101 3) (note 102 4 ∷ note 103 5 ∷ []) (omega arith)
      sort_by_amount-Perm (omega arith) (omega arith)

step-PaysOut_example :
    SpendsExactly merged.wallet sent
    × PaysOut (is_consolidate_step merged) 11 (7 ∷ []) (transfer 61 62) sent
unfolding enumerate
step-PaysOut_example =
    step-PaysOut sort_by_amount (note 101 3) (note 102 4 ∷ note 103 5 ∷ []) 11 (7 ∷ [])
      (transfer 61 62) (omega arith) sort_by_amount-Perm (omega arith) (omega arith) sets_up
      (completed (201, 202) start merges_two) sends

absent-cons : {a b : ℕ} {ks : List ℕ} → a ≢ b → ¬ Mem a ks → ¬ Mem a (b ∷ ks)
absent-cons differ absent m = Or.elim ⊥_prop (eq-or-mem_of_mem-cons m) differ absent

wallet_distinct : Nodup (commitments wallet)
wallet_distinct = Nodup-cons.1 (
  absent-cons (omega arith) (absent-cons (omega arith) not-mem-nil),
  Nodup-cons.1 (absent-cons (omega arith) not-mem-nil, Nodup-cons.1 (not-mem-nil, Pairwise.nil)),
)

abbrev sum : List ℕ → ℕ
sum [] = 0
sum (k ∷ ks) = k + sum ks

Mem-le-sum : (k : ℕ) (ks : List ℕ) → Mem k ks → k ≤ sum ks
Mem-le-sum k [] m = absurd (not-mem-nil m)
Mem-le-sum k (j ∷ ks) m =
    Or.elim le_prop (eq-or-mem_of_mem-cons m) (λ e. omega (arith, e))
      (λ rest. omega (arith, Mem-le-sum k ks rest))

too_much : (ks : List ℕ) → suc (sum ks) ≤ sum ks → ⊥
too_much ks le = absurd (omega (arith, le))

step-FreshRun_example :
    IsGiven 11 merged
    × ((s' : SpendSession) × (complete_step (203, 204) merged ≡ ok s')
        × (s'.step_index ≡ merged.step_index + 1))
unfolding enumerate is_done
step-FreshRun_example =
    step-FreshRun sort_by_amount wallet 11 (7 ∷ []) (transfer 61 62) (omega arith)
      sort_by_amount-Perm sort_by_amount-Rises (omega arith) (omega arith) wallet_distinct sets_up
      (advances (201, 202) opened
        (absent-cons (omega arith)
          (absent-cons (omega arith) (absent-cons (omega arith) not-mem-nil)))
        merges_two)
      refl (203, 204)

setup-FreshRun_example :
    (s : SpendSession) × FreshRun begun s × (is_done s ≡ true) × (s.step_index ≡ 2)
unfolding enumerate
setup-FreshRun_example =
    setup-FreshRun sort_by_amount wallet 11 (7 ∷ []) (transfer 61 62) (omega arith)
      sort_by_amount-Perm sort_by_amount-Rises (omega arith) (omega arith) wallet_distinct sets_up
      (λ ks. suc (sum ks)) (λ ks m. absurd (too_much ks (Mem-le-sum (suc (sum ks)) ks m)))

plans : plan sort_by_amount 11 wallet ≡ ok (record { steps = steps })
unfolding plan find_combination choose enumerate Two.scan Two.scan_loop Two.finish One.scan
    Many.scan Many.below Many.search Many.dfs Many.settle Many.keep_overshoot Many.pop from_k_scan
    selection check_indices build_steps merges set_last assemble ends_final
plans = refl

plan-SpendsNotes_example : SpendsNotes wallet 11 steps
unfolding enumerate
plan-SpendsNotes_example =
    plan-SpendsNotes sort_by_amount 11 wallet (omega arith) sort_by_amount-Perm (omega arith)
      (omega arith) plans
