-- ===== src/Prefix/Root.antt =====
-- The root of the client's tree is that of the contracts.
use veil_server_v.Prelude.{
  ℕ, zero, suc, ◌+◌, ◌*◌, ◌≤◌, ◌<◌, ◌≡◌, refl, sym, ◌∙◌, List, [], ◌∷◌, arith, length, get_or,
  subst, ok, ltb, if◌then◌else◌,
}
use veil_server_v.Poseidon.{U256, bn256_modulus, Host, get_zeroes}
use veil_server_v.Poseidon.Digest.{digest}
use veil_server_v.Poseidon.Zeroes.{zero_at}
use veil_server_v.Merkle.Node.{node, width}
use veil_server_v.Merkle.Leaves.{leaf_at, merkle_root}
use veil_server_v.Prefix.{
  zero_leaf, try_from_u256, MerklePrefixTree, MerklePrefixTreeBuilt, empty_chain, new, build_levels,
  build_from_parts, build, root_loop, prefix_root, built_root,
}
use veil_server_v.Prefix.Levels.{
  chain_at, chain_at-suc, empty_chain-at, hash_pair-eq-digest, node_at, IsLevel, root_loop-IsLevel,
  build_levels-IsLevel,
}

zero_leaf-eq-zero_at : zero_leaf ≡ zero_at 0
unfolding zero_leaf zero_at get_zeroes
zero_leaf-eq-zero_at = refl

zero_leaf-small : zero_leaf < bn256_modulus
unfolding zero_leaf bn256_modulus
zero_leaf-small = omega arith

leaves-IsLevel :
    (h : Host) (e : U256) (leaves : List U256)
    → IsLevel h e (leaf_at leaves) (length leaves) 0 leaves
unfolding chain_at width node
leaves-IsLevel h e leaves = record { nodes_are = padded_with leaves; wide = omega arith }
  where
    padded_with :
        (xs : List U256) (p : ℕ) → get_or xs p e ≡ (if ltb p (length xs) then get_or xs p 0 else e)
    padded_with [] p = ground arith
    padded_with (x ∷ xs) zero = ground arith
    padded_with (x ∷ xs) (suc p) =
        let same : ltb (suc p) (suc (length xs)) ≡ ltb p (length xs) = ground arith in
        rw same (padded_with xs p)

-- The zero table of the contracts is the chain of empty nodes from the zero leaf on.
abbrev pub IsZeroChain : Host → ℕ → Type 0
IsZeroChain h depth = (l : ℕ) → l < depth → zero_at (suc l) ≡ digest h (zero_at l) (zero_at l)

chain_at-eq-zero_at :
    (h : Host) (depth l : ℕ) → IsZeroChain h depth → l ≤ depth → chain_at h l zero_leaf ≡ zero_at l
chain_at-eq-zero_at h depth zero chain le = unfold chain_at in zero_leaf-eq-zero_at
chain_at-eq-zero_at h depth (suc l) chain le =
    let below = chain_at-eq-zero_at h depth l chain (omega (arith, le)) in
    chain_at-suc h l zero_leaf
    ∙ hash_pair-eq-digest h (chain_at h l zero_leaf) (chain_at h l zero_leaf)
    ∙ rw below (sym (chain l (omega (arith, le))))

node-agree :
    (d : ℕ → ℕ → ℕ) (a b leaf : ℕ → ℕ) (n l p : ℕ)
    → ((k : ℕ) → k ≤ l → a k ≡ b k)
    → node d a leaf n l p ≡ node d b leaf n l p
unfolding node
node-agree d a b leaf n zero p same = rw (same 0 (omega arith))
node-agree d a b leaf n (suc l) p same = rw (
  node-agree d a b leaf n l (2 * p) (λ k le. same k (omega (arith, le))),
  node-agree d a b leaf n l (2 * p + 1) (λ k le. same k (omega (arith, le))),
  same (suc l) (omega arith),
)

abbrev pub fresh_tree : Host → ℕ → List U256 → MerklePrefixTree
fresh_tree h depth leaves = record {
  depth = depth;
  leaves = leaves;
  empty = empty_chain h depth zero_leaf;
}

pub new-ok :
    (h : Host) (depth : ℕ) (leaves : List U256)
    → 0 < depth
    → depth ≤ 32
    → new h depth leaves ≡ ok (fresh_tree h depth leaves)
unfolding new try_from_u256
new-ok h depth leaves some_level le = ground (arith, zero_leaf-small)

module _ (h : Host) (depth : ℕ) (leaves : List U256) where
  abbrev pub tree_node : ℕ → ℕ → U256
  tree_node = node_at h zero_leaf (leaf_at leaves) (length leaves)

  abbrev pub built : MerklePrefixTreeBuilt
  built = build_from_parts h depth leaves (empty_chain h depth zero_leaf)

  pub chain_is :
      (k : ℕ) → k ≤ depth → get_or (empty_chain h depth zero_leaf) k 0 ≡ chain_at h k zero_leaf
  chain_is k le = empty_chain-at h depth k zero_leaf le

  pub prefix_root-node : prefix_root h (fresh_tree h depth leaves) ≡ tree_node depth 0
  unfolding prefix_root
  prefix_root-node =
      let top : IsLevel h zero_leaf (leaf_at leaves) (length leaves) depth
          (root_loop h (empty_chain h depth zero_leaf) depth 0 leaves) =
        subst
          (λ l.
            IsLevel h zero_leaf (leaf_at leaves) (length leaves) l
              (root_loop h (empty_chain h depth zero_leaf) depth 0 leaves))
          (omega arith)
          (root_loop-IsLevel h zero_leaf (leaf_at leaves) (length leaves) depth 0 leaves
            (empty_chain h depth zero_leaf) (λ k lt. chain_is k (omega (arith, lt)))
            (leaves-IsLevel h zero_leaf leaves)) in
      rw (chain_is depth (omega arith)) (top.nodes_are 0)

  pub IsLevel-built :
      (i : ℕ)
      → i ≤ depth
      → IsLevel h zero_leaf (leaf_at leaves) (length leaves) i (get_or built.levels i [])
  unfolding build_from_parts
  IsLevel-built i le =
      subst
        (λ l.
          IsLevel h zero_leaf (leaf_at leaves) (length leaves) l
            (get_or (build_levels h (empty_chain h depth zero_leaf) depth 0 leaves) i []))
        (omega arith)
        (build_levels-IsLevel h zero_leaf (leaf_at leaves) (length leaves) depth 0 leaves
          (empty_chain h depth zero_leaf) (λ k lt. chain_is k (omega (arith, lt)))
          (leaves-IsLevel h zero_leaf leaves) i le)

  pub built_root-node : built_root built ≡ tree_node depth 0
  unfolding built_root build_from_parts
  built_root-node =
      rw (chain_is depth (omega arith)) ((IsLevel-built depth (omega arith)).nodes_are 0)

  tree_node-merkle_root : IsZeroChain h depth → tree_node depth 0 ≡ merkle_root h depth leaves
  unfolding merkle_root
  tree_node-merkle_root chain =
      node-agree (digest h) (λ k. chain_at h k zero_leaf) zero_at (leaf_at leaves) (length leaves)
        depth 0 (λ k le. chain_at-eq-zero_at h depth k chain le)

  -- For every number of levels that the client accepts, the root of its tree over the leaves, and that
  -- of the tree with its levels kept, is the root of the contracts over the leaves, where the zero table
  -- of the contracts is the chain of hashes from the zero leaf on.
  pub prefix_root-eq-merkle_root :
      0 < depth
      → depth ≤ 32
      → IsZeroChain h depth
      → (t : MerklePrefixTree) × (new h depth leaves ≡ ok t)
        × (prefix_root h t ≡ merkle_root h depth leaves)
        × (built_root (build h t) ≡ merkle_root h depth leaves)
  unfolding build
  prefix_root-eq-merkle_root some_level le chain = (
    fresh_tree h depth leaves,
    new-ok h depth leaves some_level le,
    prefix_root-node ∙ tree_node-merkle_root chain,
    built_root-node ∙ tree_node-merkle_root chain,
  )
