-- ===== src/Membership/Insert.antt =====
-- `insert_leaf` appends its leaf to the tree, or refuses.
use veil_server_v.Prelude.{
  ℕ, ◌+◌, ◌^◌, ◌≤◌, ◌<◌, ◌≡◌, refl, ap, sym, ◌∙◌, some, List, [], ◌∷◌, ◌++◌, arith, length,
  length-append, get_or-append_lt, get_or-append_add, lt→ltb, le→ltb, ok, err,
}
use native.Mathlib.Nat.{pow-le-pow_right}
use veil_server_v.Poseidon.{U256, bn256_modulus, Host}
use veil_server_v.Poseidon.Digest.{IsPermutation, digest}
use veil_server_v.Poseidon.Zeroes.{zero_at}
use veil_server_v.Admin.{Auth}
use veil_server_v.Merkle.Node.{node, node_leaf, width, shift, width-suc, shift-eq-zero}
use veil_server_v.Merkle.Climb.{climb}
use veil_server_v.Merkle.Climb.Stored.{Stored, Stored-agree, filled_after, filled_after-Stored}
use veil_server_v.Merkle.Climb.Root.{climb_lem}
use veil_server_v.Merkle.Leaves.{
  leaf_at, merkle_root, AllInField, AllInField-cons, AllInField-append, InField-leaves,
}
use veil_server_v.Membership.{
  merkle_tree_full, not_initialized, State, check_admin, insert_checked, insert_leaf,
}
use veil_server_v.Membership.Tree.{Tree}

module _ {h : Host} (law : IsPermutation h) (a : U256) {levels : ℕ} {leaves : List U256} {s : State}
    (tree : Tree h levels leaves s) (ha : a < bn256_modulus)
    (room : length leaves < 2 ^ levels) where
  abbrev more : List U256
  more = leaves ++ (a ∷ [])

  length-more : length more ≡ length leaves + 1
  length-more = length-append leaves (a ∷ [])

  more_in : AllInField more
  more_in =
      AllInField-append leaves (a ∷ []) tree.leaves_in
        (AllInField-cons a [] ha (λ k lt. absurd (omega arith)))

  -- The state after an insertion that fits.
  pub inserted : State
  inserted = record s {
    filled_subtrees =
        filled_after (digest h) zero_at (leaf_at more) (length more) (length leaves) levels
          s.filled_subtrees 0;
    root = some (merkle_root h levels more);
    events =
        s.events
        ++ (record { leaf = a; index = length leaves; root = merkle_root h levels more } ∷ []);
    next_index = some (length leaves + 1);
  }

  siblings_more : Stored (digest h) (leaf_at more) (length leaves) 0 levels s.filled_subtrees
  siblings_more =
      Stored-agree (digest h) (leaf_at leaves) (leaf_at more) (length leaves) 0 levels
        s.filled_subtrees (λ k lt. get_or-append_lt leaves (a ∷ []) k 0 lt) tree.siblings

  new_leaf : node (digest h) zero_at (leaf_at more) (length more) 0 (length leaves) ≡ a
  new_leaf =
      let e : length leaves ≡ 0 + length leaves = omega arith in
      node_leaf (digest h) zero_at (leaf_at more) (length more) (length leaves)
        (omega (arith, length-more))
      ∙ rw e (get_or-append_add leaves (a ∷ []) 0 0)

  insert_climb :
      climb h not_initialized s.zeroes levels s.filled_subtrees 0 a (length leaves)
      ≡ ok (merkle_root h levels more, inserted.filled_subtrees)
  unfolding merkle_root inserted shift width
  insert_climb =
      let n = length leaves in
      let filled =
        filled_after (digest h) zero_at (leaf_at more) (length more) n levels s.filled_subtrees 0 in
      ap (λ x. climb h not_initialized s.zeroes levels s.filled_subtrees 0 x n) (sym new_leaf)
      ∙ climb_lem h not_initialized s.zeroes zero_at (leaf_at more) (length more) n levels law
          (InField-leaves h more levels more_in tree.levels_max)
          (λ l lt. tree.table l (omega arith)) levels 0 s.filled_subtrees (omega arith) length-more
          siblings_more
      ∙ ap (λ p. ok (node (digest h) zero_at (leaf_at more) (length more) levels p, filled))
          (shift-eq-zero n levels room)

  pub inserted-Tree : Tree h levels (leaves ++ (a ∷ [])) inserted
  unfolding inserted
  inserted-Tree = record {
    levels_set = tree.levels_set;
    levels_pos = tree.levels_pos;
    levels_max = tree.levels_max;
    next_set = ap some (sym length-more);
    next_fits = omega (arith, length-more);
    table = tree.table;
    siblings =
        filled_after-Stored (digest h) zero_at (leaf_at more) (length more) (length leaves) levels
          s.filled_subtrees 0 levels (omega arith)
          (λ j le. rw length-more (width-suc (length leaves) j)) siblings_more;
    leaves_in = more_in;
    root_set = refl;
  }

  pub insert_checked-ok : insert_checked h a s ≡ ok inserted
  unfolding insert_checked inserted
  insert_checked-ok =
      let small : 2 ^ levels ≤ 2 ^ 32 = pow-le-pow_right (omega arith) tree.levels_max in
      simp (
        tree.levels_set,
        tree.next_set,
        lt→ltb levels 64 (omega (arith, tree.levels_max)),
        lt→ltb (length leaves) (2 ^ levels) room,
        insert_climb,
        lt→ltb (length leaves + 1) (2 ^ 64) (omega arith),
      )

-- Into a tree with room, behind a passed check of the administrator, a field element is inserted at
-- the next index: the state then holds the tree with the leaf appended, and one event more with the
-- leaf, its index and the new root, and the settings of the administrator are as before.
pub insert_leaf_refines :
    {h : Host} (auth : Auth) (a : U256) {levels : ℕ} {leaves : List U256} {s : State}
    → IsPermutation h
    → Tree h levels leaves s
    → check_admin auth s ≡ ok tt
    → a < bn256_modulus
    → length leaves < 2 ^ levels
    → (t : State) × (insert_leaf auth h a s ≡ ok t)
      × Tree h levels (leaves ++ (a ∷ [])) t
      × (t.events
          ≡ s.events
            ++ (record {
              leaf = a;
              index = length leaves;
              root = merkle_root h levels (leaves ++ (a ∷ []));
            }
                ∷ []))
      × (t.admin ≡ s.admin)
      × (t.admin_insert_only ≡ s.admin_insert_only)
unfolding insert_leaf inserted
insert_leaf_refines auth a law tree allowed ha room = (
  inserted law a tree ha room,
  rw (allowed, insert_checked-ok law a tree ha room),
  inserted-Tree law a tree ha room,
  refl,
  refl,
  refl,
)

-- A full tree refuses any leaf, behind a passed check of the administrator.
pub insert_leaf-full :
    {h : Host} (auth : Auth) (a : U256) {levels : ℕ} {leaves : List U256} {s : State}
    → Tree h levels leaves s
    → check_admin auth s ≡ ok tt
    → length leaves ≡ 2 ^ levels
    → insert_leaf auth h a s ≡ err merkle_tree_full
unfolding insert_leaf insert_checked
insert_leaf-full {h} auth a {levels} {leaves} {s} tree allowed full = rw allowed (
    simp (
      tree.levels_set,
      tree.next_set,
      lt→ltb levels 64 (omega (arith, tree.levels_max)),
      le→ltb (length leaves) (2 ^ levels) (omega arith),
    ))
