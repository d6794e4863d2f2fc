-- ===== src/Pool/Transact.antt =====
-- `transact` and `internal_transact`, in the order of the source.
pub mod Checks
pub mod Effects
pub mod Stages
pub mod Settled
pub mod Spending
pub mod Growth
mod Tests
use veil_server_v.Prelude.{
  ℕ, Bool, true, false, not, ◌&&◌, Option, none, some, List, [], ◌∷◌, ◌++◌, ◌==◌, if◌then◌else◌,
  Outcome, ok, err, trap, ◌>>=◌, ◌>>◌, ok_or, ensure, require,
}
use veil_server_v.Prelude.Int.{ℤ, is_negative, is_positive}
use veil_server_v.Admin.{Address}
use veil_server_v.PoolTree
use veil_server_v.PoolTree.{insert_two_leaves}
use veil_server_v.Pool.Types.{
  Error, unknown_root, wrong_ext_hash, wrong_ext_amount, invalid_proof, not_initialized, lift,
  Proof, ExtData, Transfer, new_commitment, State, World,
}
use veil_server_v.Pool.Amount.{zero_sub, i256_to_i128_nonneg, calculate_public_amount}
use veil_server_v.Pool.Nullifiers.{check_nullifiers, mark_nullifiers}
use veil_server_v.Pool.Proofs.{
  hash_ext_data, bytes_eq, get_asp_membership_root, get_asp_non_membership_root, verify_proof,
}

unfoldable pub get_token : State → Outcome Error Address
get_token s = ok_or s.token not_initialized

-- `token_client.transfer(from, to, amount)`: a refusal of the token contract is a trap.
unfoldable pub transfer : World → Address → Address → Address → ℤ → State → Outcome Error State
transfer w token from to amount s =
    let t : Transfer = record { token = token; sender = from; receiver = to; amount = amount } in
    if w.carries_out t s.transfers
    then ok (record s { transfers = s.transfers ++ (t ∷ []) })
    else trap

-- Steps 1 to 5 of `internal_transact`: what is checked before anything is written.
unfoldable pub check_transact : World → Proof → ExtData → State → Outcome Error (Unit {0})
check_transact w proof ext s = do
  known ← lift (PoolTree.is_known_root proof.root s.tree)
  ensure known unknown_root
  check_nullifiers proof.input_nullifiers s
  ensure (bytes_eq (hash_ext_data w ext) proof.ext_data_hash) wrong_ext_hash
  expected ← calculate_public_amount ext.ext_amount
  ensure (proof.public_amount == expected) wrong_ext_amount
  member_root ← get_asp_membership_root w s
  non_member_root ← get_asp_non_membership_root w s
  ensure
      (member_root == proof.asp_membership_root && non_member_root == proof.asp_non_membership_root)
      invalid_proof
  valid ← verify_proof w proof s
  ensure valid invalid_proof

-- Step 7: the withdrawal.
unfoldable pub withdraw : World → ExtData → State → Outcome Error State
withdraw w ext s = do
  token ← get_token s
  if is_negative ext.ext_amount
      then (do
        abs ← zero_sub ext.ext_amount
        amount ← i256_to_i128_nonneg abs
        transfer w token w.this ext.recipient amount s)
      else ok s

-- Steps 9 and 10: the two commitments and their events.
unfoldable pub insert_commitments : World → Proof → ExtData → State → Outcome Error State
insert_commitments w proof ext s = do
  r ← lift (insert_two_leaves w.host proof.output_commitment0 proof.output_commitment1 s.tree)
  ok (record s {
    tree = r.1;
    events =
        s.events
        ++ (new_commitment proof.output_commitment0 (r.0).0 ext.encrypted_output0
            ∷ new_commitment proof.output_commitment1 (r.0).1 ext.encrypted_output1
            ∷ []);
  })

unfoldable pub internal_transact : World → Proof → ExtData → State → Outcome Error State
internal_transact w proof ext s = do
  check_transact w proof ext s
  marked ← mark_nullifiers proof.input_nullifiers s
  paid ← withdraw w ext marked
  insert_commitments w proof ext paid

-- The deposit of `transact`.
unfoldable pub deposit : World → ExtData → Address → State → Outcome Error State
deposit w ext sender s = do
  token ← get_token s
  if is_positive ext.ext_amount
      then (do amount ← i256_to_i128_nonneg ext.ext_amount; transfer w token sender w.this amount s)
      else ok s

unfoldable pub transact : World → Proof → ExtData → Address → State → Outcome Error State
transact w proof ext sender s = do
  require (w.auth sender)
  paid ← deposit w ext sender s
  internal_transact w proof ext paid
