-- ===== src/Pool/Proofs.antt =====
-- The checks of a proof: canonical public inputs, their order, the verifier contract, and the hash of
-- the external data.
use veil_server_v.Prelude.{
  ℕ, zero, suc, ◌+◌, ◌*◌, ◌/◌, ◌%◌, ◌≡◌, refl, Bool, true, false, ◌||◌, ◌&&◌, List, [], ◌∷◌, ◌++◌,
  map, arith, ◌==◌, leb, if◌then◌else◌, length, Outcome, ok, err, ◌>>=◌, ◌>>◌, ok_or, unwrap,
}
use mathlib.Core.List.{foldl}
use veil_server_v.Poseidon.{U256, bn256_modulus}
use veil_server_v.Admin.{Address}
use veil_server_v.Pool.Types.{
  Bytes, Error, invalid_proof, non_canonical_public_input, not_initialized, Groth16Proof, Proof,
  ExtData, State, World,
}

unfoldable pub is_empty : Groth16Proof → Bool
is_empty p = length p.a == 0 || length p.b == 0 || length p.c == 0

unfoldable pub validate_bn256_public_input : U256 → U256 → Outcome Error (Unit {0})
validate_bn256_public_input value modulus =
    if leb modulus value then err non_canonical_public_input else ok tt

unfoldable pub validate_each : List U256 → U256 → Outcome Error (Unit {0})
unfolding validate_bn256_public_input
validate_each [] modulus = ok tt
validate_each (v ∷ vs) modulus = do validate_bn256_public_input v modulus; validate_each vs modulus

unfoldable pub validate_bn256_public_inputs : Proof → U256 → Outcome Error (Unit {0})
unfolding validate_bn256_public_input validate_each
validate_bn256_public_inputs p modulus = do
  validate_bn256_public_input p.root modulus
  validate_bn256_public_input p.public_amount modulus
  validate_each p.input_nullifiers modulus
  validate_bn256_public_input p.output_commitment0 modulus
  validate_bn256_public_input p.output_commitment1 modulus
  validate_bn256_public_input p.asp_membership_root modulus
  validate_bn256_public_input p.asp_non_membership_root modulus

-- The last `width` bytes of a number, the most significant first.
unfoldable pub be_bytes : ℕ → ℕ → Bytes
be_bytes zero v = []
be_bytes (suc width) v = be_bytes width (v / 256) ++ (v % 256 ∷ [])

unfoldable pub u256_to_bytes : U256 → Bytes
unfolding be_bytes
u256_to_bytes v = be_bytes 32 v

-- U256::from_be_bytes
unfoldable pub from_be_bytes : Bytes → U256
from_be_bytes bytes = foldl (λ acc b. acc * 256 + b) 0 bytes

unfoldable pub repeat : U256 → List U256 → List Bytes
unfolding u256_to_bytes
repeat v [] = []
repeat v (n ∷ ns) = u256_to_bytes v ∷ repeat v ns

-- The vector that `verify_proof` builds.
unfoldable pub public_inputs : Proof → List Bytes
unfolding u256_to_bytes repeat
public_inputs p =
    u256_to_bytes p.root
    ∷ u256_to_bytes p.public_amount
    ∷ p.ext_data_hash
    ∷ (map u256_to_bytes p.input_nullifiers
        ++ (u256_to_bytes p.output_commitment0
            ∷ u256_to_bytes p.output_commitment1
            ∷ (repeat p.asp_membership_root p.input_nullifiers
                ++ repeat p.asp_non_membership_root p.input_nullifiers)))

unfoldable pub get_verifier : State → Outcome Error Address
get_verifier s = ok_or s.verifier not_initialized

unfoldable pub verify_proof : World → Proof → State → Outcome Error Bool
unfolding get_verifier
verify_proof w p s = if is_empty p.proof then err invalid_proof else do
  verifier ← get_verifier s
  validate_bn256_public_inputs p bn256_modulus
  unwrap (w.verify verifier p.proof (public_inputs p))

unfoldable pub hash_ext_data : World → ExtData → Bytes
unfolding u256_to_bytes from_be_bytes
hash_ext_data w ext = u256_to_bytes (from_be_bytes (w.keccak256 (w.to_xdr ext)) % bn256_modulus)

unfoldable pub bytes_eq : Bytes → Bytes → Bool
bytes_eq [] [] = true
bytes_eq [] (y ∷ ys) = false
bytes_eq (x ∷ xs) [] = false
bytes_eq (x ∷ xs) (y ∷ ys) = x == y && bytes_eq xs ys

unfoldable pub get_asp_membership : State → Outcome Error Address
get_asp_membership s = ok_or s.asp_membership not_initialized

unfoldable pub get_asp_non_membership : State → Outcome Error Address
get_asp_non_membership s = ok_or s.asp_non_membership not_initialized

-- A failing call of the other contract is a trap.
unfoldable pub get_asp_membership_root : World → State → Outcome Error U256
unfolding get_asp_membership
get_asp_membership_root w s = do asp_address ← get_asp_membership s; unwrap (w.root_at asp_address)

unfoldable pub get_asp_non_membership_root : World → State → Outcome Error U256
unfolding get_asp_non_membership
get_asp_non_membership_root w s = do
  asp_address ← get_asp_non_membership s
  unwrap (w.root_at asp_address)

pub bytes_eq_sound : (xs ys : Bytes) → bytes_eq xs ys ≡ true → xs ≡ ys
unfolding bytes_eq
bytes_eq_sound [] [] e = refl
bytes_eq_sound [] (y ∷ ys) e = cc
bytes_eq_sound (x ∷ xs) [] e = cc
bytes_eq_sound (x ∷ xs) (y ∷ ys) e = ground (arith, bytes_eq_sound xs ys)

pub bytes_eq_refl : (xs : Bytes) → bytes_eq xs xs ≡ true
unfolding bytes_eq
bytes_eq_refl [] = refl
bytes_eq_refl (x ∷ xs) = ground (arith, bytes_eq_refl xs)
