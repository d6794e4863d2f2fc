-- ===== src/PoolTree/Insert.antt =====
-- `insert_two_leaves` appends its two leaves to the tree, or refuses.
use veil_server_v.Prelude.{
  ℕ, zero, suc, ◌+◌, ◌-◌, ◌*◌, ◌/◌, ◌%◌, ◌^◌, ◌≤◌, ◌<◌, ◌≡◌, refl, true, false, Option, some, List,
  [], ◌∷◌, ◌++◌, arith, length, length-append, get_or-append_lt, get_or-append_add, ap, ◌∙◌, sym,
  ◌==◌, leb, ok, err, update, lt→ltb,
}
use native.Mathlib.Nat.{pow-le-pow_right}
use veil_server_v.Poseidon.{U256, bn256_modulus, Host}
use veil_server_v.Poseidon.Digest.{IsPermutation, digest, poseidon2_compress-ok}
use veil_server_v.Poseidon.Zeroes.{zero_at}
use veil_server_v.Merkle.Node.{
  node, shift, width, width-shift-suc, shift-eq-zero, node_leaf, node_inner,
}
use veil_server_v.Merkle.Climb.{climb}
use veil_server_v.Merkle.Climb.Stored.{Stored, Stored-agree, filled_after, filled_after-Stored}
use veil_server_v.Merkle.Climb.Root.{climb_lem}
use veil_server_v.PoolTree.{
  merkle_tree_full, not_initialized, Storage, root_history_size, finish_insert, insert_two_leaves,
}
use veil_server_v.PoolTree.Ring.{Ring-push}
use veil_server_v.Merkle.Leaves.{
  leaf_at, merkle_root, AllInField, AllInField-cons, AllInField-append, InField-leaves,
}
use veil_server_v.PoolTree.Tree.{Tree}

-- The new width above level 1: one more node than the position of the new pair.
grown : (n l : ℕ) → n % 2 ≡ 0 → width (n + 2) (suc l) ≡ shift n (suc l) + 1
grown n zero e = unfold width shift in omega arith
grown n (suc l) e = width-shift-suc (n + 2) n (suc l) (grown n l e)

grown_from : (n l : ℕ) → n % 2 ≡ 0 → 1 ≤ l → width (n + 2) l ≡ shift n l + 1
grown_from n zero e b = absurd (omega arith)
grown_from n (suc l) e b = grown n l e

module _ (h : Host) (a b : U256) (leaves : List U256) where
  abbrev more : List U256
  more = leaves ++ (a ∷ b ∷ [])

  length-more : length more ≡ length leaves + 2
  length-more = length-append leaves (a ∷ b ∷ [])

  leaf_at-left : leaf_at more (length leaves) ≡ a
  leaf_at-left =
      let e : length leaves ≡ 0 + length leaves = omega arith in
      rw e (get_or-append_add leaves (a ∷ b ∷ []) 0 0)

  leaf_at-right : leaf_at more (length leaves + 1) ≡ b
  leaf_at-right =
      let e : length leaves + 1 ≡ 1 + length leaves = omega arith in
      rw e (get_or-append_add leaves (a ∷ b ∷ []) 1 0)

  -- The hash of the pair is the new node of height 1.
  pair_node :
      length leaves % 2 ≡ 0
      → node (digest h) zero_at (leaf_at more) (length more) 1 (shift (length leaves) 1)
        ≡ digest h a b
  pair_node even =
      let n = length leaves in
      let left : 2 * shift n 1 ≡ n = unfold shift in omega arith in
      node_inner (digest h) zero_at (leaf_at more) (length more) 0 (shift n 1)
        (rw length-more (omega (arith, grown n 0 even)))
      ∙ rw (
        left,
        node_leaf (digest h) zero_at (leaf_at more) (length more) n (omega (arith, length-more)),
        node_leaf (digest h) zero_at (leaf_at more) (length more) (n + 1)
            (omega (arith, length-more)),
        leaf_at-left,
        leaf_at-right,
      )

-- The tail gives the two indices and stores the new root in the next slot.
finish_insert_lem :
    (n c : ℕ) (r : U256) (filled : ℕ → Option U256) (s : Storage)
    → n + 2 ≤ 2 ^ 32
    → c < root_history_size
    → finish_insert n c r filled s
      ≡ ok (
        (n, n + 1),
        record s {
          filled_subtree = filled;
          root = update s.root ((c + 1) % root_history_size) (some r);
          current_root_index = some ((c + 1) % root_history_size);
          next_index = some (n + 2);
        },
      )
unfolding finish_insert
finish_insert_lem n c r filled s b hc = rw (
  lt→ltb (c + 1) (2 ^ 32) (omega arith),
  lt→ltb (n + 2) (2 ^ 64) (omega arith),
  lt→ltb n (2 ^ 32) (omega arith),
  lt→ltb (n + 1) (2 ^ 64) (omega arith),
  lt→ltb (n + 1) (2 ^ 32) (omega arith),
)

module _ {h : Host} (law : IsPermutation h) (a b : U256) {levels : ℕ} {leaves history : List U256}
    {s : Storage} (tree : Tree h levels leaves history s) where
  -- The storage after an insertion that fits.
  pub inserted : Storage
  inserted = record s {
    filled_subtree =
        filled_after (digest h) zero_at (leaf_at (more h a b leaves)) (length (more h a b leaves))
          (length leaves) (levels - 1) s.filled_subtree 1;
    root =
        update s.root ((tree.current + 1) % root_history_size)
          (some (merkle_root h levels (more h a b leaves)));
    current_root_index = some ((tree.current + 1) % root_history_size);
    next_index = some (length leaves + 2);
  }

  module _ (ha : a < bn256_modulus) (hb : b < bn256_modulus)
      (room : length leaves + 2 ≤ 2 ^ levels) where
    more_in : AllInField (more h a b leaves)
    more_in =
        AllInField-append leaves (a ∷ b ∷ []) tree.leaves_in
          (AllInField-cons a (b ∷ []) ha (AllInField-cons b [] hb (λ k lt. absurd (omega arith))))

    same_prefix : (k : ℕ) → k < length leaves → leaf_at (more h a b leaves) k ≡ leaf_at leaves k
    same_prefix k lt = get_or-append_lt leaves (a ∷ b ∷ []) k 0 lt

    siblings_more :
        Stored (digest h) (leaf_at (more h a b leaves)) (length leaves) 1 levels s.filled_subtree
    siblings_more =
        Stored-agree (digest h) (leaf_at leaves) (leaf_at (more h a b leaves)) (length leaves) 1
          levels s.filled_subtree same_prefix tree.siblings

    -- The loop of the insertion ends with the root over all leaves.
    insert_climb :
        climb h not_initialized s.zeroes
          (levels - 1)
          s.filled_subtree
          1
          (digest h a b)
          (length leaves / 2)
        ≡ ok (merkle_root h levels (more h a b leaves), inserted.filled_subtree)
    unfolding merkle_root inserted shift
    insert_climb =
        let m = length (more h a b leaves) in
        let n = length leaves in
        let start : n / 2 ≡ shift n 1 = refl in
        let finish : shift n levels ≡ 0 = shift-eq-zero n levels (omega arith) in
        rw (← pair_node h a b leaves tree.next_even, ← finish)
          (climb_lem h not_initialized s.zeroes zero_at (leaf_at (more h a b leaves)) m n levels law
            (InField-leaves h (more h a b leaves) levels more_in tree.levels_max)
            (λ l lt. tree.table l (omega arith)) (levels - 1) 1 s.filled_subtree
            (omega (arith, tree.levels_pos))
            (rw (length-more h a b leaves) (grown n 0 tree.next_even)) siblings_more)

    inserted-siblings :
        Stored
          (digest h)
          (leaf_at (more h a b leaves))
          (length (more h a b leaves))
          1
          levels
          inserted.filled_subtree
    unfolding inserted
    inserted-siblings =
        filled_after-Stored (digest h) zero_at (leaf_at (more h a b leaves))
          (length (more h a b leaves)) (length leaves) (levels - 1) s.filled_subtree 1 levels
          (omega (arith, tree.levels_pos))
          (λ j le. rw (length-more h a b leaves) (grown_from (length leaves) j tree.next_even le))
          siblings_more

    pub inserted-Tree :
        Tree h levels
          (leaves ++ (a ∷ b ∷ []))
          (merkle_root h levels (leaves ++ (a ∷ b ∷ [])) ∷ history)
          inserted
    unfolding inserted
    inserted-Tree = record {
      levels_set = tree.levels_set;
      levels_pos = tree.levels_pos;
      levels_max = tree.levels_max;
      next_set = ap some (sym (length-more h a b leaves));
      next_even = omega (arith, length-more h a b leaves, tree.next_even);
      next_fits = omega (arith, length-more h a b leaves);
      table = tree.table;
      siblings = inserted-siblings;
      leaves_in = more_in;
      newest = refl;
      current = (tree.current + 1) % root_history_size;
      current_set = refl;
      ring = Ring-push (merkle_root h levels (more h a b leaves)) tree.ring;
    }

    pub insert_two_leaves-ok :
        insert_two_leaves h a b s ≡ ok ((length leaves, length leaves + 1), inserted)
    unfolding insert_two_leaves inserted
    insert_two_leaves-ok =
        let small : 2 ^ levels ≤ 2 ^ 32 = pow-le-pow_right (omega arith) tree.levels_max in
        simp (
          tree.levels_set,
          tree.next_set,
          tree.current_set,
          lt→ltb levels 64 (omega (arith, tree.levels_max)),
          even,
          lt→ltb (length leaves + 2) (2 ^ 64) (omega arith),
          fits,
          poseidon2_compress-ok a b law ha hb,
          insert_climb,
          finish_insert_lem (length leaves) tree.current (merkle_root h levels (more h a b leaves))
              inserted.filled_subtree s (omega arith) (tree.ring).in_range,
        )
      where
        even : (length leaves % 2 == 0) ≡ true
        even = ground (arith, tree.next_even)

        fits : leb (length leaves + 2) (2 ^ levels) ≡ true
        fits = ground arith

-- Into a tree with room for two more leaves, two field elements are inserted at the next two
-- indices, the storage then holds the tree with those leaves appended, and the root of that tree is
-- the newest of the history.
pub insert_two_leaves_refines :
    {h : Host} (a b : U256) {levels : ℕ} {leaves history : List U256} {s : Storage}
    → IsPermutation h
    → Tree h levels leaves history s
    → a < bn256_modulus
    → b < bn256_modulus
    → length leaves + 2 ≤ 2 ^ levels
    → (t : Storage) × (insert_two_leaves h a b s ≡ ok ((length leaves, length leaves + 1), t))
      × Tree h levels
          (leaves ++ (a ∷ b ∷ []))
          (merkle_root h levels (leaves ++ (a ∷ b ∷ [])) ∷ history)
          t
insert_two_leaves_refines a b law tree ha hb room = (
  inserted law a b tree,
  insert_two_leaves-ok law a b tree ha hb room,
  inserted-Tree law a b tree ha hb room,
)

-- A tree with no room for two more leaves refuses any two leaves.
pub insert_two_leaves-full :
    {h : Host} (a b : U256) {levels : ℕ} {leaves history : List U256} {s : Storage}
    → Tree h levels leaves history s
    → 2 ^ levels < length leaves + 2
    → insert_two_leaves h a b s ≡ err merkle_tree_full
unfolding insert_two_leaves
insert_two_leaves-full a b {levels} {leaves} tree none_left =
    let small : 2 ^ levels ≤ 2 ^ 32 = pow-le-pow_right (omega arith) tree.levels_max in
    simp (
      tree.levels_set,
      tree.next_set,
      tree.current_set,
      lt→ltb levels 64 (omega (arith, tree.levels_max)),
      even,
      lt→ltb (length leaves + 2) (2 ^ 64) (omega (arith, tree.next_fits)),
      full_now,
    )
  where
    even : (length leaves % 2 == 0) ≡ true
    even = ground (arith, tree.next_even)

    full_now : leb (length leaves + 2) (2 ^ levels) ≡ false
    full_now = ground arith
