-- ===== src/Verifier.antt =====
-- contracts/circom-groth16-verifier/src/lib.rs, and the proof that it takes, contracts/types/src/lib.rs.
-- A point is the bytes that its type wraps. The operations on points are the host's: a parameter.
pub mod Sound
pub mod InPool
pub mod Encoding
mod Tests
use veil_server_v.Prelude.{
  ℕ, suc, ◌+◌, Bool, true, false, Option, none, some, List, [], ◌∷◌, ◌==◌, if◌then◌else◌, length,
  get_elem?, take, drop, Outcome, ok, err, trap, ◌>>=◌, ◌>>◌, ok_or, unwrap, ensure, checked_add,
}
use veil_server_v.Pool.Types.{Bytes, Groth16Proof}

pub data Groth16Error : Type 0 where
  invalid_proof malformed_public_inputs malformed_proof : Groth16Error

-- The host's operations on BN254, which fail on bytes that are no point.
pub record Curve : Type 0 where
  pub g1_neg : Bytes → Option Bytes
  pub g1_mul : Bytes → Bytes → Option Bytes
  pub g1_add : Bytes → Bytes → Option Bytes
  pub pairing_check : List Bytes → List Bytes → Option Bool

pub record VerificationKey : Type 0 where
  pub alpha : Bytes
  pub beta : Bytes
  pub gamma : Bytes
  pub delta : Bytes
  pub ic : List Bytes

-- `pub_inputs.len().checked_add(1) != Some(vk.ic.len())`, the other way round.
unfoldable pub lengths_fit : List Bytes → List Bytes → Bool
lengths_fit pub_inputs ic = elim (checked_add 32 (length pub_inputs) 1) [
  | none ↦ false
  | some n ↦ n == length ic
]

-- `for i in 0..pub_inputs.len()`, on the inputs from the index `i` on.
unfoldable pub combine : Curve → List Bytes → ℕ → List Bytes → Bytes → Outcome Groth16Error Bytes
combine bn ic i [] vk_x = ok vk_x
combine bn ic i (s ∷ rest) vk_x = do
  ic_idx ← ok_or (checked_add 32 i 1) malformed_public_inputs
  v ← ok_or (get_elem? ic ic_idx) malformed_public_inputs
  prod ← unwrap (bn.g1_mul v s)
  sum ← unwrap (bn.g1_add vk_x prod)
  combine bn ic (i + 1) rest sum

unfoldable pub verify_with_vk :
    Curve → VerificationKey → Groth16Proof → List Bytes → Outcome Groth16Error Bool
verify_with_vk bn vk proof pub_inputs = do
  ensure (lengths_fit pub_inputs vk.ic) malformed_public_inputs
  start ← ok_or (get_elem? vk.ic 0) malformed_public_inputs
  vk_x ← combine bn vk.ic 0 pub_inputs start
  neg_a ← unwrap (bn.g1_neg proof.a)
  holds ← unwrap (
      bn.pairing_check (neg_a ∷ vk.alpha ∷ vk_x ∷ proof.c ∷ [])
        (proof.b ∷ vk.beta ∷ vk.gamma ∷ vk.delta ∷ []))
  if holds then ok true else err invalid_proof

abbrev pub g1_size : ℕ
g1_size = 64

abbrev pub g2_size : ℕ
g2_size = 128

abbrev pub proof_size : ℕ
proof_size = 256

-- `BytesN::try_from`
unfoldable pub fixed : ℕ → Bytes → Outcome Groth16Error Bytes
fixed n bytes = if length bytes == n then ok bytes else err malformed_proof

-- `Groth16Proof::try_from`
unfoldable pub proof_from_bytes : Bytes → Outcome Groth16Error Groth16Proof
proof_from_bytes value = do
  ensure (length value == proof_size) malformed_proof
  a ← fixed g1_size (take g1_size value)
  b ← fixed g2_size (take g2_size (drop g1_size value))
  c ← fixed g1_size (drop (g1_size + g2_size) value)
  ok (record { a = a; b = b; c = c })
