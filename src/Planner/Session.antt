-- ===== src/Planner/Session.antt =====
-- app/crates/core/tx-planner/src/execute/mod.rs: the spend session, which goes through the steps of a
-- plan with the notes of the wallet. Keys are compared and copied only; a text is its bytes.
pub mod Reached
pub mod Resolved
pub mod Paid
pub mod Clear
pub mod Chosen
pub mod Noted
pub mod Spending
pub mod Exact
pub mod Wallet
pub mod Merged
pub mod Live
pub mod Runs
mod Tests
use veil_server_v.Prelude.{
  ℕ, ◌+◌, Bool, true, false, not, Option, none, some, List, [], ◌∷◌, ◌++◌, map, ◌==◌, leb,
  if◌then◌else◌, length, get_elem?, Outcome, ok, err, trap, ◌>>=◌, ◌>>◌, ok_or, unwrap,
}
use veil_server_v.Prelude.Int.{ℤ, pos}
use veil_server_v.Amounts.{NoteAmount, ExtAmount, ext_from_note, ext_checked_neg}
use veil_server_v.Planner.Types.{PlanError, Candidate}
use veil_server_v.Planner.Plan.Balanced.{or_zero}
use veil_server_v.Planner.Plan.{
  SpendableNote, StepAction, consolidate, final, PlannedStep, TransactionPlan, plan, resolve,
}

abbrev pub Text : Type 0
Text = List ℕ

abbrev pub Key : Type 0
Key = ℕ

pub data SpendSessionError : Type 0 where
  plan_error : PlanError → SpendSessionError
  complete ext_amount_overflow missing_withdraw_recipient : SpendSessionError

pub data SpendTarget : Type 0 where
  transfer : Key → Key → SpendTarget
  withdraw : Text → SpendTarget

pub record Transact : Type 0 where
  pub input_commitments : List ℕ
  pub output_amounts : NoteAmount × NoteAmount
  pub ext_amount : ExtAmount
  pub ext_recipient : Text
  pub out_recipient_note_pubkeys : Option Key × Option Key
  pub out_recipient_encryption_pubkeys : Option Key × Option Key

pub record SpendSession : Type 0 where
  pub steps : List PlannedStep
  pub wallet : List SpendableNote
  pub pool_address : Text
  pub target : SpendTarget
  pub step_index : ℕ

-- The conversion of errors by `?`.
unfoldable pub from_plan {ℓ} : {A : Type ℓ} → Outcome PlanError A → Outcome SpendSessionError A
from_plan (ok a) = ok a
from_plan (err e) = err (plan_error e)
from_plan trap = trap

unfoldable pub validate_target : SpendTarget → Outcome SpendSessionError (Unit {0})
validate_target (transfer note enc) = ok tt
validate_target (withdraw []) = err missing_withdraw_recipient
validate_target (withdraw (c ∷ cs)) = ok tt

unfoldable pub setup :
    (List Candidate → List Candidate)
    → List SpendableNote
    → NoteAmount
    → Text
    → SpendTarget
    → Outcome SpendSessionError SpendSession
setup sort wallet amount pool_address target = do
  validate_target target
  tx_plan ← from_plan (plan sort amount wallet)
  ok (record {
    steps = tx_plan.steps;
    wallet = wallet;
    pool_address = pool_address;
    target = target;
    step_index = 0;
  })

unfoldable pub is_done : SpendSession → Bool
is_done s = leb (length s.steps) s.step_index

unfoldable pub is_consolidate_step : SpendSession → Bool
is_consolidate_step s = elim (get_elem? s.steps s.step_index) [
  | none ↦ false
  | some planned ↦ elim planned.action [ consolidate o ↦ true | final a c ↦ false ]
]

abbrev pub commitments : List SpendableNote → List ℕ
commitments notes = map (λ (n : SpendableNote). n.commitment) notes

-- Both outputs go to the recipient when there is no change, the first alone when there is.
abbrev pub recipients : Option NoteAmount → Key → Option Key × Option Key
recipients none key = (some key, some key)
recipients (some change) key = (some key, none)

unfoldable pub materialize_final :
    NoteAmount
    → Option NoteAmount
    → Text
    → SpendTarget
    → List SpendableNote
    → Outcome SpendSessionError Transact
materialize_final amount change pool_address (transfer note enc) inputs = ok (record {
  input_commitments = commitments inputs;
  output_amounts = (amount, or_zero change);
  ext_amount = pos 0;
  ext_recipient = pool_address;
  out_recipient_note_pubkeys = recipients change note;
  out_recipient_encryption_pubkeys = recipients change enc;
})
materialize_final amount change pool_address (withdraw recipient) inputs =
    elim (ext_from_note amount) [
      | err e ↦ err ext_amount_overflow
      | trap ↦ trap
      | ok paid ↦ ok_or (ext_checked_neg paid) ext_amount_overflow >>= λ ext_amount. ok (record {
        input_commitments = commitments inputs;
        output_amounts = (or_zero change, 0);
        ext_amount = ext_amount;
        ext_recipient = recipient;
        out_recipient_note_pubkeys = (none, none);
        out_recipient_encryption_pubkeys = (none, none);
      })
    ]

unfoldable pub materialize_step :
    StepAction → Text → SpendTarget → List SpendableNote → Outcome SpendSessionError Transact
materialize_step (consolidate output) pool_address target inputs = ok (record {
  input_commitments = commitments inputs;
  output_amounts = (output, 0);
  ext_amount = pos 0;
  ext_recipient = pool_address;
  out_recipient_note_pubkeys = (none, none);
  out_recipient_encryption_pubkeys = (none, none);
})
materialize_step (final amount change) pool_address target inputs =
    materialize_final amount change pool_address target inputs

unfoldable pub step : SpendSession → Outcome SpendSessionError (Option Transact)
step s = if is_done s then ok none else do
  planned ← unwrap (get_elem? s.steps s.step_index)
  resolved ← from_plan (resolve planned s.wallet)
  t ← materialize_step planned.action s.pool_address s.target resolved
  ok (some t)

-- `wallet.retain(|n| n.commitment != note.commitment)`
unfoldable pub without : ℕ → List SpendableNote → List SpendableNote
without k [] = []
without k (n ∷ ns) = let rest = without k ns in if n.commitment == k then rest else n ∷ rest

unfoldable pub remove_spent : List SpendableNote → List SpendableNote → List SpendableNote
remove_spent wallet [] = wallet
remove_spent wallet (note ∷ spent) = remove_spent (without note.commitment wallet) spent

-- The wallet after a step: the notes that were spent are gone, and a merged note has come.
unfoldable pub next_wallet :
    StepAction → List SpendableNote → List SpendableNote → ℕ → List SpendableNote
next_wallet (consolidate output) wallet spent commitment =
    remove_spent wallet spent ++ (record { commitment = commitment; amount = output } ∷ [])
next_wallet (final amount change) wallet spent commitment = remove_spent wallet spent

-- The step index stays within the length of the plan, and its addition does not overflow.
unfoldable pub complete_step : ℕ × ℕ → SpendSession → Outcome SpendSessionError SpendSession
complete_step output_commitments s = if is_done s then err complete else do
  planned ← unwrap (get_elem? s.steps s.step_index)
  spent ← from_plan (resolve planned s.wallet)
  ok (record s {
    wallet = next_wallet planned.action s.wallet spent output_commitments.0;
    step_index = s.step_index + 1;
  })
