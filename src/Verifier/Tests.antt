-- ===== src/Verifier/Tests.antt =====
-- Runs of the verifier over numbers modulo 11 in place of points.
use veil_server_v.Prelude.{
  zero, suc, ◌+◌, ◌-◌, ◌*◌, ◌%◌, ℕ, ◌≡◌, refl, true, some, List, [], ◌∷◌, ◌==◌, arith, length, ok,
  err, kept, is_set, map,
}
use veil_server_v.Poseidon.{bn256_modulus, poseidon2_compress, get_zeroes}
use veil_server_v.Poseidon.Zeroes.{zero_at}
use veil_server_v.Merkle.Climb.{climb, climb_step}
use veil_server_v.PoolTree
use veil_server_v.PoolTree.{init, init_levels, search_root, slot_holds}
use veil_server_v.Pool.Samples.{world, pool, payment, first}
use veil_server_v.Pool.Types.{Bytes, Groth16Proof, World, lift}
use veil_server_v.Pool.Amount.{zero_sub, i256_to_i128_nonneg, calculate_public_amount}
use veil_server_v.Pool.Nullifiers.{check_nullifiers}
use veil_server_v.Pool.Proofs.{
  hash_ext_data, bytes_eq, get_asp_membership_root, get_asp_non_membership_root, verify_proof,
  is_empty, validate_bn256_public_inputs, public_inputs, repeat,
}
use veil_server_v.Pool.Transact.{check_transact}
use veil_server_v.Verifier.{
  invalid_proof, malformed_public_inputs, Curve, VerificationKey, lengths_fit, combine,
  verify_with_vk, proof_from_bytes,
}
use veil_server_v.Verifier.Sound.{Passes, verify_with_vk-Passes, Passes-verify_with_vk}
use veil_server_v.Verifier.InPool.{answer, check_transact-Passes}
use veil_server_v.Verifier.Encoding.{to_bytes, proof_from_bytes-to_bytes}

abbrev value : Bytes → ℕ
value [] = 0
value (b ∷ bs) = b + value bs

abbrev products : List Bytes → List Bytes → ℕ
products [] ys = 0
products (x ∷ xs) [] = 0
products (x ∷ xs) (y ∷ ys) = value x * value y + products xs ys

abbrev modulo_11 : Curve
modulo_11 = record {
  g1_neg = λ a. some ((11 - value a) ∷ []);
  g1_mul = λ v s. some ((value v * value s % 11) ∷ []);
  g1_add = λ v w. some (((value v + value w) % 11) ∷ []);
  pairing_check = λ xs ys. some (products xs ys % 11 == 0);
}

abbrev key : VerificationKey
key = record {
  alpha = 2 ∷ [];
  beta = 3 ∷ [];
  gamma = 1 ∷ [];
  delta = 1 ∷ [];
  ic = (1 ∷ []) ∷ (2 ∷ []) ∷ (3 ∷ []) ∷ [];
}

abbrev proof : Groth16Proof
proof = record { a = 4 ∷ []; b = 5 ∷ []; c = 1 ∷ [] }

abbrev inputs : List Bytes
inputs = (4 ∷ []) ∷ (5 ∷ []) ∷ []

accepted : verify_with_vk modulo_11 key proof inputs ≡ ok true
unfolding verify_with_vk lengths_fit combine
accepted = refl

other_input_is_refused :
    verify_with_vk modulo_11 key proof ((4 ∷ []) ∷ (6 ∷ []) ∷ []) ≡ err invalid_proof
unfolding verify_with_vk lengths_fit combine
other_input_is_refused = refl

missing_input_is_refused :
    verify_with_vk modulo_11 key proof ((4 ∷ []) ∷ []) ≡ err malformed_public_inputs
unfolding verify_with_vk lengths_fit combine
missing_input_is_refused = refl

verify_with_vk-Passes_example :
    (true ≡ true) × (length key.ic ≡ 3) × Passes modulo_11 key proof inputs
verify_with_vk-Passes_example = verify_with_vk-Passes modulo_11 key proof inputs accepted

Passes-verify_with_vk_example : verify_with_vk modulo_11 key proof inputs ≡ ok true
Passes-verify_with_vk_example =
    Passes-verify_with_vk modulo_11 key proof inputs (omega arith) verify_with_vk-Passes_example.2

abbrev bytes_of : ℕ → ℕ → Bytes
bytes_of zero b = []
bytes_of (suc n) b = b ∷ bytes_of n b

proof_from_bytes-to_bytes_example :
    proof_from_bytes
      (to_bytes (record { a = bytes_of 64 1; b = bytes_of 128 2; c = bytes_of 64 3 }))
    ≡ ok (record { a = bytes_of 64 1; b = bytes_of 128 2; c = bytes_of 64 3 })
proof_from_bytes-to_bytes_example =
    proof_from_bytes-to_bytes (record { a = bytes_of 64 1; b = bytes_of 128 2; c = bytes_of 64 3 })
      refl refl refl

-- A key for two nullifiers.
abbrev pool_key : VerificationKey
pool_key = record {
  alpha = 0 ∷ [];
  beta = 3 ∷ [];
  gamma = 0 ∷ [];
  delta = 1 ∷ [];
  ic = map (λ n. n ∷ []) (1 ∷ 2 ∷ 3 ∷ 4 ∷ 5 ∷ 6 ∷ 7 ∷ 8 ∷ 9 ∷ 10 ∷ 1 ∷ 2 ∷ []);
}

abbrev verified_world : World
verified_world = record world {
  verify = λ v p ins. answer (verify_with_vk modulo_11 pool_key p ins);
}

passes_checks : check_transact verified_world first payment pool ≡ ok tt
unfolding check_transact kept init init_levels is_set get_zeroes zero_at PoolTree.is_known_root
    search_root slot_holds lift check_nullifiers hash_ext_data bytes_eq calculate_public_amount
    zero_sub i256_to_i128_nonneg get_asp_membership_root get_asp_non_membership_root verify_proof
    is_empty validate_bn256_public_inputs poseidon2_compress bn256_modulus climb climb_step
    verify_with_vk lengths_fit combine public_inputs repeat
passes_checks = refl

check_transact-Passes_example :
    Passes modulo_11 pool_key first.proof (public_inputs first) × (length pool_key.ic ≡ 12)
check_transact-Passes_example =
    check_transact-Passes verified_world modulo_11 pool_key first payment pool (λ v p ins. refl)
      passes_checks
