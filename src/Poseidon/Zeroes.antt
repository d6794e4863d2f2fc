-- ===== src/Poseidon/Zeroes.antt =====
-- The table of empty-subtree hashes: its size and the range of its entries.
use veil_server_v.Prelude.{
  ℕ, zero, suc, ◌<◌, ◌≡◌, refl, Bool, true, ◌&&◌, some, List, [], ◌∷◌, arith, ltb, ltb→lt, length,
  get_elem?, get_or, get_elem?-eq-get_or,
}
use veil_server_v.Poseidon.{U256, bn256_modulus, get_zeroes}

unfoldable pub zero_at : ℕ → U256
zero_at i = get_or get_zeroes i 0

within_field : List U256 → Bool
within_field [] = true
within_field (z ∷ zs) = ltb z bn256_modulus && within_field zs

get_or-lt :
    (zs : List U256) (i : ℕ)
    → within_field zs ≡ true
    → i < length zs
    → get_or zs i 0 < bn256_modulus
unfolding within_field
get_or-lt [] i fit lt = absurd (omega arith)
get_or-lt (z ∷ zs) zero fit lt = ltb→lt z bn256_modulus (ground arith)
get_or-lt (z ∷ zs) (suc i) fit lt = get_or-lt zs i (ground arith) (omega arith)

get_zeroes-within_field : within_field get_zeroes ≡ true
unfolding within_field get_zeroes bn256_modulus
get_zeroes-within_field = refl

length-get_zeroes : length get_zeroes ≡ 33
unfolding get_zeroes
length-get_zeroes = refl

pub zero_at-lt : (i : ℕ) → i < 33 → zero_at i < bn256_modulus
unfolding zero_at
zero_at-lt i h = get_or-lt get_zeroes i get_zeroes-within_field (omega (arith, length-get_zeroes))

pub get_zeroes-at : (i : ℕ) → i < 33 → get_elem? get_zeroes i ≡ some (zero_at i)
unfolding zero_at
get_zeroes-at i h = get_elem?-eq-get_or get_zeroes i 0 (omega (arith, length-get_zeroes))
