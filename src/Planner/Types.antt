-- ===== src/Planner/Types.antt =====
-- The errors of the planner, app/crates/core/tx-planner/src/plan/error.rs, and what its scans share:
-- a candidate is a pair of the index of a note in the wallet and its amount, a u128.
use veil_server_v.Prelude.{ℕ, ◌+◌, List, [], ◌∷◌, Outcome, ok_or, checked_add}

-- The reason of an internal error is left out.
pub data PlanError : Type 0 where
  no_spendable_notes no_combination input_amount_overflow internal_error invalid_plan : PlanError
  too_many_notes : ℕ → ℕ → PlanError
  note_index_out_of_range : ℕ → PlanError
  commitment_not_found : ℕ → PlanError
  note_amount_mismatch : ℕ → ℕ → ℕ → PlanError
  no_note_for_amount : ℕ → PlanError
  ambiguous_note_for_amount : ℕ → PlanError

abbrev pub Candidate : Type 0
Candidate = ℕ × ℕ

abbrev pub transaction_limit : ℕ
transaction_limit = 10

-- `a.checked_add(b)` of amounts, with the error of all its calls.
abbrev pub add_amounts : ℕ → ℕ → Outcome PlanError ℕ
add_amounts a b = ok_or (checked_add 128 a b) input_amount_overflow

-- The sum of the amounts of some candidates.
abbrev pub total : List Candidate → ℕ
total [] = 0
total (c ∷ cs) = c.1 + total cs
