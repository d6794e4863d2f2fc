-- ===== src/Planner/Plan.antt =====
-- `plan` and the steps of a plan, app/crates/core/tx-planner/src/plan/mod.rs. A commitment is a field
-- element, of which the code only asks whether two are equal.
pub mod Linked
pub mod Balanced
pub mod Total
mod Tests
use veil_server_v.Prelude.{
  ℕ, Bool, true, false, not, Option, none, some, List, [], ◌∷◌, map, ◌==◌, ltb, leb, if◌then◌else◌,
  length, get_elem?, Outcome, ok, err, trap, ◌>>=◌, ◌>>◌, ok_or, unwrap, ensure,
}
use veil_server_v.Planner.Types.{
  PlanError, no_spendable_notes, no_combination, invalid_plan, too_many_notes,
  note_index_out_of_range, commitment_not_found, note_amount_mismatch, no_note_for_amount,
  ambiguous_note_for_amount, Candidate, transaction_limit, add_amounts,
}
use veil_server_v.Planner.Combination.{
  CombinationResult, two_exact, one_exact, two_overshoot, one_overshoot, exact_k, overshoot,
  impossible, find_combination,
}

pub record SpendableNote : Type 0 where
  pub commitment : ℕ
  pub amount : ℕ

pub record StepNote : Type 0 where
  pub commitment : Option ℕ
  pub amount : ℕ

pub data StepAction : Type 0 where
  consolidate : ℕ → StepAction
  final : ℕ → Option ℕ → StepAction

pub record PlannedStep : Type 0 where
  pub inputs : StepNote × Option StepNote
  pub action : StepAction

pub record TransactionPlan : Type 0 where
  pub steps : List PlannedStep

abbrev pub from_spendable : SpendableNote → StepNote
from_spendable n = record { commitment = some n.commitment; amount = n.amount }

abbrev pub from_amount : ℕ → StepNote
from_amount a = record { commitment = none; amount = a }

-- Whether the last step is final.
unfoldable pub ends_final : List PlannedStep → Bool
ends_final [] = false
ends_final (s ∷ []) = elim s.action [ consolidate o ↦ false | final a c ↦ true ]
ends_final (s ∷ r ∷ ss) = ends_final (r ∷ ss)

unfoldable pub assemble : List PlannedStep → Option TransactionPlan
assemble ss = if ends_final ss then some (record { steps = ss }) else none

-- The indices and the change of a combination.
unfoldable pub selection : CombinationResult → Outcome PlanError (List ℕ × Option ℕ)
selection impossible = err no_combination
selection (one_exact i) = ok (i ∷ [], none)
selection (two_exact i j) = ok (i ∷ j ∷ [], none)
selection (one_overshoot i excess) = ok (i ∷ [], some excess)
selection (two_overshoot i j excess) = ok (i ∷ j ∷ [], some excess)
selection (exact_k is) = ok (is, none)
selection (overshoot is excess) = ok (is, some excess)

-- `for &index in &indices`
unfoldable pub check_indices : List ℕ → ℕ → Outcome PlanError (Unit {0})
check_indices [] n = ok tt
check_indices (i ∷ is) n = ensure (ltb i n) (note_index_out_of_range i) >> check_indices is n

-- `for index in indices.iter().skip(1)`: the steps that it pushes.
unfoldable pub merges :
    List SpendableNote → ℕ → StepNote → List ℕ → Outcome PlanError (List PlannedStep)
merges notes sum prev_note [] = ok []
merges notes sum prev_note (i ∷ is) = unwrap (get_elem? notes i) >>= λ note.
    add_amounts sum note.amount >>= λ next_sum.
    merges notes next_sum (from_amount next_sum) is >>= λ rest. ok (
      record { inputs = (prev_note, some (from_spendable note)); action = consolidate next_sum }
      ∷ rest)

-- `if let Some(last_step) = steps.last_mut()`
unfoldable pub set_last : StepAction → List PlannedStep → List PlannedStep
set_last a [] = []
set_last a (s ∷ []) = record s { action = a } ∷ []
set_last a (s ∷ r ∷ ss) = s ∷ set_last a (r ∷ ss)

-- The steps over the chosen notes; no notes at all are a panic at `indices[0]`.
unfoldable pub build_steps :
    List SpendableNote → ℕ → List ℕ → Option ℕ → Outcome PlanError (List PlannedStep)
build_steps notes amount [] change = trap
build_steps notes amount (i ∷ []) change = unwrap (get_elem? notes i) >>= λ note0.
    ok (record { inputs = (from_spendable note0, none); action = final amount change } ∷ [])
build_steps notes amount (i ∷ j ∷ is) change = unwrap (get_elem? notes i) >>= λ note0.
    merges notes note0.amount (from_spendable note0) (j ∷ is) >>= λ ss.
    ok (set_last (final amount change) ss)

unfoldable pub plan :
    (List Candidate → List Candidate) → ℕ → List SpendableNote → Outcome PlanError TransactionPlan
plan sort amount [] = err no_spendable_notes
plan sort amount (n ∷ ns) = do
  combo ← find_combination sort (map (λ (x : SpendableNote). x.amount) (n ∷ ns)) amount
  picked ← selection combo
  ensure (leb (length picked.0) transaction_limit)
      (too_many_notes (length picked.0) transaction_limit)
  check_indices picked.0 (length (n ∷ ns))
  steps ← build_steps (n ∷ ns) amount picked.0 picked.1
  ok_or (assemble steps) invalid_plan

-- The notes with a commitment, and those of an amount but for an excluded commitment.
unfoldable pub find_commitment : ℕ → List SpendableNote → Option SpendableNote
find_commitment k [] = none
find_commitment k (n ∷ ns) = if n.commitment == k then some n else find_commitment k ns

unfoldable pub excludes : Option ℕ → ℕ → Bool
excludes none k = false
excludes (some j) k = j == k

unfoldable pub matching : ℕ → Option ℕ → List SpendableNote → List SpendableNote
matching amount excluded [] = []
matching amount excluded (n ∷ ns) =
    let rest = matching amount excluded ns in
    if n.amount == amount then (if excludes excluded n.commitment then rest else n ∷ rest) else rest

unfoldable pub resolve_input_note :
    StepNote → List SpendableNote → Option StepNote → Outcome PlanError SpendableNote
resolve_input_note input notes sibling = elim input.commitment [
  | some k ↦ ok_or (find_commitment k notes) (commitment_not_found k) >>= λ note.
      ensure (note.amount == input.amount) (note_amount_mismatch k note.amount input.amount)
      >> ok note
  | none ↦
      let excluded : Option ℕ = elim sibling [ none ↦ none | some s ↦ s.commitment ] in
      elim (matching input.amount excluded notes) [
        | [] ↦ err (no_note_for_amount input.amount)
        | m ∷ ms ↦ elim ms [ [] ↦ ok m | _ ∷ _ ↦ err (ambiguous_note_for_amount input.amount) ]
      ]
]

unfoldable pub resolve : PlannedStep → List SpendableNote → Outcome PlanError (List SpendableNote)
resolve s notes = resolve_input_note s.inputs.0 notes s.inputs.1 >>= λ first. elim s.inputs.1 [
  | none ↦ ok (first ∷ [])
  | some second ↦
      resolve_input_note second notes (some s.inputs.0) >>= λ other. ok (first ∷ other ∷ [])
]
