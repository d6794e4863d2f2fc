-- ===== src/Prefix/Path.antt =====
-- The proofs that the client's tree gives.
use veil_server_v.Prelude.{
  ℕ, zero, suc, ◌+◌, ◌-◌, ◌*◌, ◌/◌, ◌%◌, ◌^◌, ◌≤◌, ◌<◌, ◌≡◌, refl, sym, ◌∙◌, ap, List, [], ◌∷◌,
  ◌==◌, arith, length, get_or, inl, inr, ok, if◌then◌else◌, lt→ltb, lt→leb, Bool-cases,
}
use native.Mathlib.Nat.{pow-suc, pow-le-pow_right}
use veil_server_v.Poseidon.{U256, bn256_modulus, Host}
use veil_server_v.Poseidon.Digest.{digest}
use veil_server_v.Merkle.Node.{node_leaf}
use veil_server_v.Merkle.Leaves.{leaf_at}
use veil_server_v.Prefix.{
  hash_pair, zero_leaf, try_from_u256, MerklePrefixTreeBuilt, MerkleProof, empty_chain, padded,
  build_levels, build_from_parts, build, prefix_root, built_root, leaf_count, xor_one, proof_loop,
  proof,
}
use veil_server_v.Prefix.Levels.{chain_at, node-pair}
use veil_server_v.Prefix.Root.{
  tree_node, built, chain_is, IsLevel-built, fresh_tree, built_root-node, prefix_root-node,
}

-- The root that a path of siblings leads to from a node, by the bits of its position.
unfoldable pub fold_path : Host → U256 → List U256 → ℕ → U256
fold_path h here [] position = here
fold_path h here (sibling ∷ siblings) position =
    fold_path h (if position % 2 == 0 then hash_pair h here sibling else hash_pair h sibling here)
      siblings (position / 2)

pair-cases :
    (h : Host) (node_of : ℕ → U256) (up : ℕ → U256) (p : ℕ)
    → ((k : ℕ) → hash_pair h (node_of (2 * k)) (node_of (2 * k + 1)) ≡ up k)
    → (if p % 2 == 0
        then hash_pair h (node_of p) (node_of (xor_one p))
        else hash_pair h (node_of (xor_one p)) (node_of p))
      ≡ up (p / 2)
unfolding xor_one
pair-cases h node_of up p pairs = elim (Bool-cases (p % 2 == 0)) [
  | inl e ↦
      let here : p ≡ 2 * (p / 2) = ground (arith, e) in
      rw (e) (ap (λ k. hash_pair h (node_of k) (node_of (k + 1))) here ∙ pairs (p / 2))
  | inr e ↦
      let here : p ≡ 2 * (p / 2) + 1 = ground (arith, e) in
      let there : p - 1 ≡ 2 * (p / 2) = omega (arith, here) in
      rw (e) (
        ap (λ k. hash_pair h (node_of (p - 1)) (node_of k)) here
        ∙ ap (λ k. hash_pair h (node_of k) (node_of (2 * (p / 2) + 1))) there
        ∙ pairs (p / 2))
]

one_bit :
    (bits w v p : ℕ)
    → v ≡ 2 * w
    → (if p % 2 == 0 then bits else bits + w) + v * (p / 2) ≡ bits + w * p
one_bit bits w v p double = elim (Bool-cases (p % 2 == 0)) [
  | inl e ↦
      let here : p ≡ 2 * (p / 2) = ground (arith, e) in
      let product : w * p ≡ w * (2 * (p / 2)) = ap (λ k. w * k) here in
      rw (e, double) (omega (arith, product))
  | inr e ↦
      let here : p ≡ 2 * (p / 2) + 1 = ground (arith, e) in
      let product : w * p ≡ w * (2 * (p / 2) + 1) = ap (λ k. w * k) here in
      rw (e, double) (omega (arith, product))
]

proof-runs :
    (b : MerklePrefixTreeBuilt) (index : ℕ)
    → index < leaf_count b
    → (proof_loop b b.depth 0 index 0).1 ≡ index
    → index < bn256_modulus
    → proof b index
      ≡ ok (record {
        path_elements = (proof_loop b b.depth 0 index 0).0;
        path_indices = index;
        root = built_root b;
        levels = b.depth;
      })
unfolding proof try_from_u256
proof-runs b index within bits small =
    simp (lt→ltb index (leaf_count b) within, bits, lt→leb bn256_modulus index small)

below_modulus : (depth index : ℕ) → depth ≤ 32 → index < 2 ^ depth → index < bn256_modulus
unfolding bn256_modulus
below_modulus depth index le lt =
    let most : 2 ^ depth ≤ 2 ^ 32 = pow-le-pow_right (omega arith) le in omega (arith, lt, most)

module _ (h : Host) (depth : ℕ) (leaves : List U256) where
  proof_loop-fold :
      (m l position bits : ℕ)
      → l + m ≡ depth
      → position < 2 ^ m
      → fold_path h
          (tree_node h depth leaves l position)
          (proof_loop (built h depth leaves) m l position bits).0
          position
        ≡ tree_node h depth leaves depth 0
  unfolding fold_path proof_loop build_from_parts
  proof_loop-fold zero l position bits ends lt =
      let at_top : l ≡ depth = omega (arith, ends) in
      let first : position ≡ 0 = omega (arith, lt) in rw (at_top, first)
  proof_loop-fold (suc m) l position bits ends lt =
      let sibling : get_or (get_or (built h depth leaves).levels l []) (xor_one position)
            (get_or (built h depth leaves).empty l 0)
          ≡ tree_node h depth leaves l (xor_one position) =
        rw (chain_is h depth leaves l (omega (arith, ends)))
          ((IsLevel-built h depth leaves l (omega (arith, ends))).nodes_are (xor_one position)) in
      let bit_set : ℕ = if position % 2 == 0 then bits else bits + 2 ^ l in
      let rest : List U256 =
        (proof_loop (built h depth leaves) m (suc l) (position / 2) bit_set).0 in
      ap
        (λ x.
          fold_path h
            (if position % 2 == 0
              then hash_pair h (tree_node h depth leaves l position) x
              else hash_pair h x (tree_node h depth leaves l position))
            rest (position / 2))
        sibling
      ∙ ap (λ x. fold_path h x rest (position / 2))
          (pair-cases h (tree_node h depth leaves l) (tree_node h depth leaves (suc l)) position
            (node-pair h zero_leaf (leaf_at leaves) (length leaves) l))
      ∙ proof_loop-fold m (suc l) (position / 2) bit_set (omega (arith, ends))
          (omega (arith, lt, pow-suc 2 m))

  proof_loop-bits :
      (m l position bits : ℕ)
      → position < 2 ^ m
      → (proof_loop (built h depth leaves) m l position bits).1 ≡ bits + 2 ^ l * position
  unfolding proof_loop
  proof_loop-bits zero l position bits lt =
      let first : position ≡ 0 = omega (arith, lt) in rw first (omega arith)
  proof_loop-bits (suc m) l position bits lt =
      proof_loop-bits m (suc l) (position / 2) _ (omega (arith, lt, pow-suc 2 m))
      ∙ one_bit bits (2 ^ l) (2 ^ suc l) position (omega (arith, pow-suc 2 l))

  proof_loop-length :
      (m l position bits : ℕ) → length (proof_loop (built h depth leaves) m l position bits).0 ≡ m
  unfolding proof_loop
  proof_loop-length zero l position bits = refl
  proof_loop-length (suc m) l position bits = ap suc (proof_loop-length m (suc l) (position / 2) _)

  leaf_count-built :
      0 < depth → 0 < length leaves → leaf_count (built h depth leaves) ≡ length leaves
  unfolding leaf_count build_from_parts
  leaf_count-built some_level some_leaf = go depth leaves some_level some_leaf
    where
      go :
          (d : ℕ) (xs : List U256)
          → 0 < d
          → 0 < length xs
          → length (get_or (build_levels h (empty_chain h depth zero_leaf) d 0 xs) 0 []) ≡ length xs
      go zero xs a b = absurd (omega (arith, a))
      go (suc d) [] a b = absurd (omega (arith, b))
      go (suc d) (x ∷ xs) a b = unfold build_levels padded in refl

  -- For every leaf that the client has, if no more leaves are set than the levels have room for, the
  -- proof is given: its indices are the leaf's index, it has a sibling for each level, its root is the
  -- tree's, and its siblings lead from the leaf to that root.
  pub proof-ok :
      (index : ℕ)
      → 0 < depth
      → depth ≤ 32
      → index < length leaves
      → length leaves ≤ 2 ^ depth
      → (p : MerkleProof) × (proof (build h (fresh_tree h depth leaves)) index ≡ ok p)
        × (p.path_indices ≡ index)
        × (p.levels ≡ depth)
        × (length p.path_elements ≡ depth)
        × (p.root ≡ prefix_root h (fresh_tree h depth leaves))
        × (fold_path h (leaf_at leaves index) p.path_elements p.path_indices ≡ p.root)
  unfolding build build_from_parts proof_loop
  proof-ok index some_level le lt room =
      let fits : index < 2 ^ depth = omega (arith, lt, room) in
      let count = leaf_count-built some_level (omega (arith, lt)) in
      let bits = proof_loop-bits depth 0 index 0 fits in
      let lead = proof_loop-fold depth 0 index 0 refl_add fits in
      (
        _,
        proof-runs (built h depth leaves) index (omega (arith, lt, count)) (omega (arith, bits))
            (below_modulus depth index le fits),
        refl,
        refl,
        proof_loop-length depth 0 index 0,
        built_root-node h depth leaves ∙ sym (prefix_root-node h depth leaves),
        ap (λ x. fold_path h x (proof_loop (built h depth leaves) depth 0 index 0).0 index)
              (sym (
                node_leaf (digest h) (λ k. chain_at h k zero_leaf) (leaf_at leaves) (length leaves)
                  index lt))
            ∙ lead
            ∙ sym (built_root-node h depth leaves),
      )
    where
      refl_add : 0 + depth ≡ depth
      refl_add = omega arith
