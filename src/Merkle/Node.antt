-- ===== src/Merkle/Node.antt =====
-- The specification of the tree: the value of every node as a function of the leaves.
-- `leaf k` is the k-th leaf, and `n` of them are set. The node at height `l` and position `p` stands
-- above the leaves from `p * 2 ^ l` on; one above no set leaf has the value `zero l`.
use veil_server_v.Prelude.{
  ℕ, zero, suc, ◌+◌, ◌*◌, ◌/◌, ◌^◌, ◌≤◌, ◌<◌, ◌≡◌, refl, ap, ◌∙◌, arith, ltb, lt→ltb, le→ltb,
  if◌then◌else◌,
}
use native.Mathlib.Nat.{pow-suc}

-- The ancestor at height `l` of position `n`: n >> l.
unfoldable pub shift : ℕ → ℕ → ℕ
shift n zero = n
shift n (suc l) = shift n l / 2

-- How many nodes of height `l` stand above `n` leaves.
unfoldable pub width : ℕ → ℕ → ℕ
width n zero = n
width n (suc l) = (width n l + 1) / 2

pub shift-le-width : (n l : ℕ) → (shift n l ≤ width n l) × (width n l ≤ shift n l + 1)
unfolding shift width
shift-le-width n zero = omega arith
shift-le-width n (suc l) = omega (arith, shift-le-width n l)

-- One more node on each level above a level that has one more.
pub width-shift-suc :
    (m n l : ℕ) → width m l ≡ shift n l + 1 → width m (suc l) ≡ shift n (suc l) + 1
unfolding shift width
width-shift-suc m n l h = omega arith

pub width-suc : (n l : ℕ) → width (n + 1) l ≡ shift n l + 1
unfolding shift width
width-suc n zero = refl
width-suc n (suc l) = omega (arith, width-suc n l)

pub shift-zero : (l : ℕ) → shift 0 l ≡ 0
unfolding shift
shift-zero zero = refl
shift-zero (suc l) = omega (arith, shift-zero l)

shift-half : (n l : ℕ) → shift n (suc l) ≡ shift (n / 2) l
unfolding shift
shift-half n zero = refl
shift-half n (suc l) = ap (λ k. k / 2) (shift-half n l)

pub shift-eq-zero : (n l : ℕ) → n < 2 ^ l → shift n l ≡ 0
shift-eq-zero n zero h = unfold shift in omega arith
shift-eq-zero n (suc l) h = shift-half n l ∙ shift-eq-zero (n / 2) l (omega (arith, pow-suc 2 l))

module _ (digest : ℕ → ℕ → ℕ) (leaf : ℕ → ℕ) where
  -- A node all of whose leaves are set.
  unfoldable pub full : ℕ → ℕ → ℕ
  full zero p = leaf p
  full (suc l) p = digest (full l (2 * p)) (full l (2 * p + 1))

module _ (digest : ℕ → ℕ → ℕ) (empty : ℕ → ℕ) (leaf : ℕ → ℕ) (n : ℕ) where
  unfoldable pub node : ℕ → ℕ → ℕ
  node zero p = if ltb p n then leaf p else empty 0
  node (suc l) p =
      let inner = digest (node l (2 * p)) (node l (2 * p + 1)) in
      if ltb p (width n (suc l)) then inner else empty (suc l)

  pub node_empty : (l p : ℕ) → width n l ≤ p → node l p ≡ empty l
  unfolding node
  node_empty zero p h = rw (le→ltb p n (unfold width in h))
  node_empty (suc l) p h = rw (le→ltb p (width n (suc l)) h)

  pub node_inner :
      (l p : ℕ)
      → p < width n (suc l)
      → node (suc l) p ≡ digest (node l (2 * p)) (node l (2 * p + 1))
  unfolding node
  node_inner l p h = rw (lt→ltb p (width n (suc l)) h)

  pub node-eq-full : (l p : ℕ) → p < shift n l → node l p ≡ full digest leaf l p
  unfolding node full
  node-eq-full zero p h = rw (lt→ltb p n (unfold shift in h))
  node-eq-full (suc l) p h =
      node_inner l p (omega (arith, shift-le-width n (suc l)))
      ∙ rw (
        node-eq-full l (2 * p) (unfold shift in omega arith),
        node-eq-full l (2 * p + 1) (unfold shift in omega arith),
      )

-- A full node reads no leaf beyond its own.
pub full-agree :
    (digest : ℕ → ℕ → ℕ) (leaf leaf' : ℕ → ℕ) (n : ℕ)
    → ((k : ℕ) → k < n → leaf' k ≡ leaf k)
    → (l p : ℕ) → p < shift n l
    → full digest leaf' l p ≡ full digest leaf l p
unfolding full shift
full-agree digest leaf leaf' n same zero p h = same p h
full-agree digest leaf leaf' n same (suc l) p h = rw (
  full-agree digest leaf leaf' n same l (2 * p) (omega arith),
  full-agree digest leaf leaf' n same l (2 * p + 1) (omega arith),
)

pub node_leaf :
    (digest : ℕ → ℕ → ℕ) (empty leaf : ℕ → ℕ) (n p : ℕ)
    → p < n
    → node digest empty leaf n 0 p ≡ leaf p
unfolding node
node_leaf digest empty leaf n p h = rw (lt→ltb p n h)
