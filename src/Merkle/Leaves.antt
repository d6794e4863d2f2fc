-- ===== src/Merkle/Leaves.antt =====
-- Lists of leaves: the root over them, and what appending does.
use veil_server_v.Prelude.{
  refl, ℕ, zero, suc, ◌≤◌, ◌<◌, ◌≡◌, List, [], ◌∷◌, ◌++◌, arith, length, get_or,
}
use veil_server_v.Poseidon.{U256, bn256_modulus, Host}
use veil_server_v.Poseidon.Digest.{digest}
use veil_server_v.Poseidon.Zeroes.{zero_at, zero_at-lt}
use veil_server_v.Merkle.Node.{node, node_empty, width}
use veil_server_v.Merkle.Climb.Root.{InField}

abbrev pub leaf_at : List U256 → ℕ → U256
leaf_at leaves k = get_or leaves k 0

-- The root of the tree of `levels` levels over the leaves: unset leaves and the subtrees above
-- them have the values of the zero table.
unfoldable pub merkle_root : Host → ℕ → List U256 → U256
merkle_root h levels leaves = node (digest h) zero_at (leaf_at leaves) (length leaves) levels 0

abbrev pub AllInField : List U256 → Type 0
AllInField leaves = (k : ℕ) → k < length leaves → leaf_at leaves k < bn256_modulus

pub AllInField-cons :
    (a : U256) (leaves : List U256)
    → a < bn256_modulus
    → AllInField leaves
    → AllInField (a ∷ leaves)
AllInField-cons a leaves ha f zero lt = ha
AllInField-cons a leaves ha f (suc k) lt = f k (omega arith)

pub AllInField-append :
    (leaves more : List U256) → AllInField leaves → AllInField more → AllInField (leaves ++ more)
AllInField-append [] more f g = g
AllInField-append (x ∷ xs) more f g =
    AllInField-cons x (xs ++ more) (f 0 (omega arith))
      (AllInField-append xs more (λ k lt. f (suc k) (omega arith)) g)

pub InField-leaves :
    (h : Host) (leaves : List U256) (levels : ℕ)
    → AllInField leaves
    → levels ≤ 32
    → InField h zero_at (leaf_at leaves) (length leaves) levels
InField-leaves h leaves levels f b = record {
  empty_in = λ l le. zero_at-lt l (omega arith);
  leaf_in = f;
}

width-zero : (l : ℕ) → width 0 l ≡ 0
unfolding width
width-zero zero = refl
width-zero (suc l) = omega (arith, width-zero l)

pub merkle_root-nil : (h : Host) (levels : ℕ) → merkle_root h levels [] ≡ zero_at levels
unfolding merkle_root
merkle_root-nil h levels =
    node_empty (digest h) zero_at (leaf_at []) 0 levels 0 (omega (arith, width-zero levels))
