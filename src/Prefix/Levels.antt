-- ===== src/Prefix/Levels.antt =====
-- The levels that the client builds are those of the tree of the contracts.
use veil_server_v.Prelude.{
  ℕ, zero, suc, ◌+◌, ◌*◌, ◌/◌, ◌≤◌, ◌<◌, ◌≡◌, refl, sym, ◌∙◌, ap, List, [], ◌∷◌, arith, length,
  get_or, lt-or-le, inl, inr, subst,
}
use veil_server_v.Poseidon.{U256, Host}
use veil_server_v.Poseidon.Digest.{digest}
use veil_server_v.Merkle.Node.{node, node_empty, node_inner, width}
use veil_server_v.Prefix.{
  hash_pair, poseidon2_compression, empty_chain, padded, collect, next_level, build_levels,
  root_loop,
}

pub hash_pair-eq-digest : (h : Host) (l r : U256) → hash_pair h l r ≡ digest h l r
unfolding hash_pair poseidon2_compression digest
hash_pair-eq-digest h l r = refl

-- The node of each level above no leaf.
unfoldable pub chain_at : Host → ℕ → U256 → U256
chain_at h zero e = e
chain_at h (suc l) e = chain_at h l (hash_pair h e e)

pub chain_at-suc :
    (h : Host) (l : ℕ) (e : U256)
    → chain_at h (suc l) e ≡ hash_pair h (chain_at h l e) (chain_at h l e)
unfolding chain_at
chain_at-suc h zero e = refl
chain_at-suc h (suc l) e = chain_at-suc h l (hash_pair h e e)

pub empty_chain-at :
    (h : Host) (n l : ℕ) (e : U256) → l ≤ n → get_or (empty_chain h n e) l 0 ≡ chain_at h l e
unfolding empty_chain chain_at
empty_chain-at h zero zero e le = refl
empty_chain-at h zero (suc l) e le = absurd (omega (arith, le))
empty_chain-at h (suc n) zero e le = refl
empty_chain-at h (suc n) (suc l) e le = empty_chain-at h n l (hash_pair h e e) (omega (arith, le))

get_or-collect :
    (f : ℕ → U256) (i n p : ℕ) (d : U256) → p < n → get_or (collect f i n) p d ≡ f (i + p)
unfolding collect
get_or-collect f i zero p d lt = absurd (omega (arith, lt))
get_or-collect f i (suc n) zero d lt = ap f (omega arith)
get_or-collect f i (suc n) (suc p) d lt =
    get_or-collect f (suc i) n p d (omega (arith, lt)) ∙ ap f (omega arith)

length-collect : (f : ℕ → U256) (i n : ℕ) → length (collect f i n) ≡ n
unfolding collect
length-collect f i zero = refl
length-collect f i (suc n) = ap suc (length-collect f (suc i) n)

get_or-beyond : (xs : List U256) (p : ℕ) (d : U256) → length xs ≤ p → get_or xs p d ≡ d
get_or-beyond [] p d le = refl
get_or-beyond (x ∷ xs) zero d le = absurd (omega (arith, le))
get_or-beyond (x ∷ xs) (suc p) d le = get_or-beyond xs p d (omega (arith, le))

module _ (h : Host) (zero_node : U256) (leaf : ℕ → U256) (n : ℕ) where
  abbrev pub node_at : ℕ → ℕ → U256
  node_at l p = node (digest h) (λ k. chain_at h k zero_node) leaf n l p

  -- The nodes are those of the level, from the first on; a node beyond them stands above no leaf.
  pub record IsLevel (l : ℕ) (nodes : List U256) : Type 0 where
    pub nodes_are : (p : ℕ) → get_or nodes p (chain_at h l zero_node) ≡ node_at l p
    pub wide : width n l ≤ length nodes

  pub node-pair :
      (l p : ℕ) → hash_pair h (node_at l (2 * p)) (node_at l (2 * p + 1)) ≡ node_at (suc l) p
  node-pair l p = elim (lt-or-le p (width n (suc l))) [
    | inl within ↦
        hash_pair-eq-digest h (node_at l (2 * p)) (node_at l (2 * p + 1))
        ∙ sym (node_inner (digest h) (λ k. chain_at h k zero_node) leaf n l p within)
    | inr beyond ↦
        let left : node_at l (2 * p) ≡ chain_at h l zero_node =
          node_empty (digest h) (λ k. chain_at h k zero_node) leaf n l (2 * p)
            (unfold width in omega (arith, beyond)) in
        let right : node_at l (2 * p + 1) ≡ chain_at h l zero_node =
          node_empty (digest h) (λ k. chain_at h k zero_node) leaf n l (2 * p + 1)
            (unfold width in omega (arith, beyond)) in
        rw (left, right) (sym (chain_at-suc h l zero_node))
        ∙ sym (node_empty (digest h) (λ k. chain_at h k zero_node) leaf n (suc l) p beyond)
  ]

  pub padded-IsLevel :
      (l : ℕ) (nodes : List U256)
      → IsLevel l nodes
      → IsLevel l (padded (chain_at h l zero_node) nodes)
  unfolding padded
  padded-IsLevel l [] level = record { nodes_are = one; wide = omega (arith, level.wide) }
    where
      one : (p : ℕ) → get_or (chain_at h l zero_node ∷ []) p (chain_at h l zero_node) ≡ node_at l p
      one zero = level.nodes_are 0
      one (suc p) = level.nodes_are (suc p)
  padded-IsLevel l (x ∷ xs) level = level

  pub next_level-IsLevel :
      (l : ℕ) (nodes : List U256)
      → IsLevel l nodes
      → IsLevel (suc l) (next_level h (chain_at h l zero_node) nodes)
  unfolding next_level
  next_level-IsLevel l nodes level =
      let e : U256 = chain_at h l zero_node in
      let f : ℕ → U256 = λ i. hash_pair h (get_or nodes (2 * i) e) (get_or nodes (2 * i + 1) e) in
      let f-node : (p : ℕ) → f p ≡ node_at (suc l) p =
        λ p. rw (level.nodes_are (2 * p), level.nodes_are (2 * p + 1)) (node-pair l p) in
      let len : ℕ = (length nodes + 1) / 2 in
      let size = length-collect f 0 len in
      let beyond_width : width n (suc l) ≤ len = unfold width in omega (arith, level.wide) in
      record {
        nodes_are = λ p. elim (lt-or-le p len) [
          | inl within ↦
              get_or-collect f 0 len p (chain_at h (suc l) zero_node) within
              ∙ ap f (omega arith)
              ∙ f-node p
          | inr beyond ↦
              get_or-beyond (collect f 0 len) p (chain_at h (suc l) zero_node)
                (omega (arith, size, beyond))
              ∙ sym (
                  node_empty (digest h) (λ k. chain_at h k zero_node) leaf n (suc l) p
                    (omega (arith, beyond, beyond_width)))
        ];
        wide = omega (arith, beyond_width, size);
      }

  pub root_loop-IsLevel :
      (m l : ℕ) (nodes empty : List U256)
      → ((k : ℕ) → k < l + m → get_or empty k 0 ≡ chain_at h k zero_node)
      → IsLevel l nodes
      → IsLevel (l + m) (root_loop h empty m l nodes)
  unfolding root_loop
  root_loop-IsLevel zero l nodes empty chain level =
      subst (λ k. IsLevel k nodes) (omega arith) level
  root_loop-IsLevel (suc m) l nodes empty chain level = rw (chain l (omega arith)) (
      subst
        (λ k. IsLevel k (
          root_loop h empty m (suc l)
            (next_level h (chain_at h l zero_node) (padded (chain_at h l zero_node) nodes))))
        (omega arith)
        (root_loop-IsLevel m (suc l)
          (next_level h (chain_at h l zero_node) (padded (chain_at h l zero_node) nodes)) empty
          (λ k lt. chain k (omega (arith, lt)))
          (next_level-IsLevel l (padded (chain_at h l zero_node) nodes)
            (padded-IsLevel l nodes level))))

  pub build_levels-IsLevel :
      (m l : ℕ) (nodes empty : List U256)
      → ((k : ℕ) → k < l + m → get_or empty k 0 ≡ chain_at h k zero_node)
      → IsLevel l nodes
      → (i : ℕ) → i ≤ m
      → IsLevel (l + i) (get_or (build_levels h empty m l nodes) i [])
  unfolding build_levels
  build_levels-IsLevel zero l nodes empty chain level zero le =
      subst (λ k. IsLevel k nodes) (omega arith) level
  build_levels-IsLevel zero l nodes empty chain level (suc i) le = absurd (omega (arith, le))
  build_levels-IsLevel (suc m) l nodes empty chain level zero le = rw (chain l (omega arith)) (
      subst (λ k. IsLevel k (padded (chain_at h l zero_node) nodes)) (omega arith)
        (padded-IsLevel l nodes level))
  build_levels-IsLevel (suc m) l nodes empty chain level (suc i) le = rw (chain l (omega arith)) (
      subst
        (λ k. IsLevel k (
          get_or
            (build_levels h empty m (suc l)
              (next_level h (chain_at h l zero_node) (padded (chain_at h l zero_node) nodes)))
            i []))
        (omega arith)
        (build_levels-IsLevel m (suc l)
          (next_level h (chain_at h l zero_node) (padded (chain_at h l zero_node) nodes)) empty
          (λ k lt. chain k (omega (arith, lt)))
          (next_level-IsLevel l (padded (chain_at h l zero_node) nodes)
            (padded-IsLevel l nodes level))
          i (omega (arith, le))))
