-- ===== src/Poseidon/Digest.antt =====
-- What the compression gives on field elements, under the host's contract for the permutation.
use veil_server_v.Prelude.{
  ℕ, ◌+◌, ◌%◌, ◌^◌, ◌<◌, ◌≡◌, arith, leb, lt→leb, lt→ltb, Bool-cases, inl, inr, if◌then◌else◌,
  get_or, length, get_elem?-eq-get_or, ok,
}
use native.Mathlib.Nat.{mod-lt, mod-eq_of_lt}
use veil_server_v.Poseidon.{U256, bn256_modulus, Host, compress_state, poseidon2_compress}

-- Documented of the host: the compression state of two field elements has two field elements.
pub record IsPermutation (h : Host) : Type 0 where
  pub width :
      (l r : U256) → l < bn256_modulus → r < bn256_modulus → length (compress_state h l r) ≡ 2
  pub in_field :
      (l r : U256)
      → l < bn256_modulus
      → r < bn256_modulus
      → get_or (compress_state h l r) 0 0 < bn256_modulus

-- The compression of two field elements, as a number.
unfoldable pub digest : Host → U256 → U256 → U256
digest h l r = (get_or (compress_state h l r) 0 0 + l) % bn256_modulus

pub modulus_bounds : (0 < bn256_modulus) × (bn256_modulus + bn256_modulus < 2 ^ 256)
unfolding bn256_modulus
modulus_bounds = omega arith

pub digest-lt : (h : Host) (l r : U256) → digest h l r < bn256_modulus
unfolding digest
digest-lt h l r = mod-lt _ modulus_bounds.0

reduce-eq-mod : (a : ℕ) → (if leb bn256_modulus a then a % bn256_modulus else a) ≡ a % bn256_modulus
reduce-eq-mod a = elim (Bool-cases (leb bn256_modulus a)) [
  | inl e ↦ rw e
  | inr e ↦ ground (arith, mod-eq_of_lt {n = a} {m = bn256_modulus})
]

pub poseidon2_compress-ok :
    {E : Type 0} {h : Host} (l r : U256)
    → IsPermutation h
    → l < bn256_modulus
    → r < bn256_modulus
    → poseidon2_compress {E = E} h l r ≡ ok (digest h l r)
unfolding poseidon2_compress digest
poseidon2_compress-ok {E} {h} l r law hl hr = rw (
  lt→leb bn256_modulus l hl,
  lt→leb bn256_modulus r hr,
  get_elem?-eq-get_or (compress_state h l r) 0 0 (omega (arith, law.width l r hl hr)),
  lt→ltb (get_or (compress_state h l r) 0 0 + l) (2 ^ 256)
      (omega (arith, law.in_field l r hl hr, modulus_bounds)),
  reduce-eq-mod (get_or (compress_state h l r) 0 0 + l),
)

-- The compression gives a value for field elements alone.
pub poseidon2_compress-inv :
    {E : Type 0} (h : Host) (l r : U256) {x : U256}
    → poseidon2_compress {E = E} h l r ≡ ok x
    → (l < bn256_modulus) × (r < bn256_modulus)
unfolding poseidon2_compress
poseidon2_compress-inv h l r e = elim (Bool-cases (leb bn256_modulus l)) [
  | inl a ↦ cc (rw a at e)
  | inr a ↦ elim (Bool-cases (leb bn256_modulus r)) [
    | inl b ↦ cc (rw (a, b) at e)
    | inr b ↦ (ground arith, ground arith)
  ]
]
