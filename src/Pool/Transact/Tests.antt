-- ===== src/Pool/Transact/Tests.antt =====
-- Runs of the pool, and its theorems at concrete inputs.
use veil_server_v.Prelude.{
  ◌-◌, ◌^◌, ◌≡◌, ◌≢◌, refl, false, [], ◌∷◌, ◌++◌, arith, contains, ok, err, kept, is_set,
}
use veil_server_v.Prelude.Int.{pos, negsuc}
use veil_server_v.Poseidon.{bn256_modulus, poseidon2_compress, get_zeroes}
use veil_server_v.Poseidon.Zeroes.{zero_at}
use veil_server_v.Samples.{host, host-IsPermutation}
use veil_server_v.Merkle.Climb.{climb, climb_step}
use veil_server_v.Merkle.Leaves.{merkle_root}
use veil_server_v.PoolTree
use veil_server_v.PoolTree.{
  Storage, init, init_levels, insert_two_leaves, finish_insert, search_root, slot_holds,
}
use veil_server_v.PoolTree.Tree.{Tree}
use veil_server_v.PoolTree.Init.{init-Tree}
use veil_server_v.Pool.Samples.{world, blank, pool, payment, proof_with, first}
use veil_server_v.Pool.Types.{already_spent_nullifier, lift, Proof, State}
use veil_server_v.Pool.Amount.{
  zero_sub, i256_to_i128_nonneg, calculate_public_amount, calculate_public_amount-ok,
  calculate_public_amount-ne_ok, calculate_public_amount-injective,
}
use veil_server_v.Pool.Nullifiers.{check_nullifiers, mark_spent, mark_ignoring, mark_nullifiers}
use veil_server_v.Pool.Proofs.{
  hash_ext_data, bytes_eq, get_asp_membership_root, get_asp_non_membership_root, verify_proof,
  is_empty, validate_bn256_public_inputs,
}
use veil_server_v.Pool.Transact.{
  transact, deposit, get_token, transfer, internal_transact, check_transact, withdraw,
  insert_commitments,
}
use veil_server_v.Pool.Transact.Checks.{Accepted, check_transact-Accepted, Accepted-check_transact}
use veil_server_v.Pool.Transact.Settled.{published, Settled, transact-Settled}
use veil_server_v.Pool.Transact.Spending.{run, hand_over, no_double_spend}
use veil_server_v.Pool.Transact.Growth.{Grown, transact-appends, run-Grown}
use veil_server_v.Pool.Settings.{get_root}

abbrev second : Proof
second = proof_with (zero_at 2) (13 ∷ 14 ∷ [])

abbrev replay : Proof
replay = proof_with (zero_at 2) (13 ∷ 11 ∷ [])

abbrev after : State
after = kept pool (transact world first payment 7 pool)

abbrev after_second : State
after_second = kept after (transact world second payment 7 after)

first_succeeds : transact world first payment 7 pool ≡ ok after
unfolding transact deposit get_token transfer internal_transact check_transact withdraw
    insert_commitments kept init init_levels is_set get_zeroes zero_at PoolTree.is_known_root
    search_root slot_holds lift check_nullifiers hash_ext_data bytes_eq calculate_public_amount
    zero_sub i256_to_i128_nonneg get_asp_membership_root get_asp_non_membership_root verify_proof
    is_empty validate_bn256_public_inputs mark_nullifiers mark_ignoring mark_spent insert_two_leaves
    finish_insert poseidon2_compress bn256_modulus climb climb_step
first_succeeds = refl

second_succeeds : transact world second payment 7 after ≡ ok after_second
unfolding transact deposit get_token transfer internal_transact check_transact withdraw
    insert_commitments kept init init_levels is_set get_zeroes zero_at PoolTree.is_known_root
    search_root slot_holds lift check_nullifiers hash_ext_data bytes_eq calculate_public_amount
    zero_sub i256_to_i128_nonneg get_asp_membership_root get_asp_non_membership_root verify_proof
    is_empty validate_bn256_public_inputs mark_nullifiers mark_ignoring mark_spent insert_two_leaves
    finish_insert poseidon2_compress bn256_modulus climb climb_step
second_succeeds = refl

replay_is_refused : transact world replay payment 7 after ≡ err already_spent_nullifier
unfolding transact deposit get_token transfer internal_transact check_transact withdraw
    insert_commitments kept init init_levels is_set get_zeroes zero_at PoolTree.is_known_root
    search_root slot_holds lift check_nullifiers hash_ext_data bytes_eq calculate_public_amount
    zero_sub i256_to_i128_nonneg get_asp_membership_root get_asp_non_membership_root verify_proof
    is_empty validate_bn256_public_inputs mark_nullifiers mark_ignoring mark_spent insert_two_leaves
    finish_insert poseidon2_compress bn256_modulus climb climb_step
replay_is_refused = refl

pool_tree : Tree host 2 [] (zero_at 2 ∷ []) pool.tree
unfolding kept
pool_tree =
    let (t, run, tree) = init-Tree host 2 blank (omega arith) (omega arith) refl (λ i. refl) in
    rw run tree

calculate_public_amount-ok_example : calculate_public_amount (negsuc 4) ≡ ok (bn256_modulus - 5)
calculate_public_amount-ok_example = calculate_public_amount-ok (negsuc 4) (omega arith)

calculate_public_amount-ne_ok_case : calculate_public_amount (pos (2 ^ 250)) ≢ ok 0
calculate_public_amount-ne_ok_case = calculate_public_amount-ne_ok (pos (2 ^ 250)) 0 (omega arith)

five_is_five : calculate_public_amount (pos 5) ≡ ok 5
five_is_five = calculate_public_amount-ok (pos 5) (omega arith)

calculate_public_amount-injective_example : pos 5 ≡ pos 5
calculate_public_amount-injective_example =
    calculate_public_amount-injective (pos 5) (pos 5) 5 five_is_five five_is_five

transact-Settled_example : Settled world first payment 7 pool after
transact-Settled_example = transact-Settled world first payment 7 pool after first_succeeds

Accepted-check_transact_example : check_transact world first payment pool ≡ ok tt
Accepted-check_transact_example =
    Accepted-check_transact world first payment pool transact-Settled_example.accepted

check_transact-Accepted_example : Accepted world first payment pool
check_transact-Accepted_example =
    check_transact-Accepted world first payment pool Accepted-check_transact_example

no_double_spend_example : contains 11 (13 ∷ 14 ∷ []) ≡ false
no_double_spend_example =
    no_double_spend world world first second payment payment 7 7 pool after after_second [] 11
      first_succeeds refl (unfold run in second_succeeds)

transact-appends_example :
    Tree host 2 (21 ∷ 22 ∷ []) (merkle_root host 2 (21 ∷ 22 ∷ []) ∷ zero_at 2 ∷ []) after.tree
    × (get_root after ≡ ok (merkle_root host 2 (21 ∷ 22 ∷ [])))
    × (after.events ≡ pool.events ++ published first payment 0 1)
transact-appends_example =
    transact-appends world first payment 7 pool after host-IsPermutation pool_tree first_succeeds

run-Grown_example : Grown host 2 [] (zero_at 2 ∷ []) (run ((world, hand_over 8) ∷ []) pool)
run-Grown_example =
    run-Grown ((world, hand_over 8) ∷ []) pool host-IsPermutation (refl, tt) pool_tree
