-- ===== src/PoolTree/Init.antt =====
-- `init` makes an empty tree, or refuses.
use veil_server_v.Prelude.{
  ℕ, zero, suc, ◌+◌, ◌≤◌, ◌<◌, ◌≡◌, ◌≢◌, refl, ◌||◌, false, none, some, List, [], ◌∷◌, ◌∙◌, ap, sym,
  arith, get_elem?, ◌==◌, ltb, ok, update, is_set, is_set-none, is_set-some, Bool-cases, inl, inr,
}
use veil_server_v.Poseidon.{U256, Host}
use veil_server_v.Poseidon.Zeroes.{zero_at, get_zeroes-at}
use veil_server_v.Merkle.Node.{shift-zero}
use veil_server_v.PoolTree.{Storage, root_history_size, init_levels, init}
use veil_server_v.PoolTree.Ring.{back}
use veil_server_v.Merkle.Leaves.{merkle_root-nil}
use veil_server_v.PoolTree.Tree.{Tree}

-- What the loop from level `i` to level `end` has done to the storage.
record Cleared (i end : ℕ) (s t : Storage) : Type 0 where
  at : (l : ℕ) → i ≤ l → l < end → t.zeroes l ≡ some (zero_at l)
  below : (l : ℕ) → l < i → t.zeroes l ≡ s.zeroes l
  same_levels : t.levels ≡ s.levels
  same_root : t.root ≡ s.root

init_levels-Cleared :
    (rounds i end : ℕ) (s : Storage)
    → i + rounds ≡ end
    → end ≤ 33
    → (t : Storage) × (init_levels rounds i s ≡ ok t) × Cleared i end s t
unfolding init_levels
init_levels-Cleared zero i end s e b = (
  s,
  refl,
  record {
    at = λ l a c. absurd (omega arith);
    below = λ l c. refl;
    same_levels = refl;
    same_root = refl;
  },
)
init_levels-Cleared (suc rounds) i end s e b =
    let s' : Storage = record s {
      filled_subtree = update s.filled_subtree i (some (zero_at i));
      zeroes = update s.zeroes i (some (zero_at i));
    } in
    let (t, run, c) = init_levels-Cleared rounds (i + 1) end s' (omega arith) b in
    (
      t,
      rw (get_zeroes-at i (omega arith)) run,
      record {
        at = λ l a lt. elim (Bool-cases (i == l)) [
          | inl q ↦ let p : i ≡ l = ground arith in c.below l (omega arith) ∙ rw (q, p)
          | inr q ↦ c.at l (ground arith) lt
        ];
        below = λ l lt. c.below l (omega arith) ∙ ground arith;
        same_levels = c.same_levels;
        same_root = c.same_root;
      },
    )

-- On a storage with no root, `init` with 1 to 32 levels makes the tree with no leaves, and its
-- history is the root of the empty tree.
pub init-Tree :
    (h : Host) (levels : ℕ) (s : Storage)
    → 0 < levels
    → levels ≤ 32
    → s.current_root_index ≡ none
    → ((i : ℕ) → s.root i ≡ none)
    → (t : Storage) × (init levels s ≡ ok t) × Tree h levels [] (zero_at levels ∷ []) t
unfolding init
init-Tree h levels s pos small unset no_root =
    let s' : Storage = record s { levels = some levels } in
    let (t, run, c) =
      init_levels-Cleared (levels + 1) 0 (levels + 1) s' (omega arith) (omega arith) in
    let u : Storage = record t {
      root = update t.root 0 (some (zero_at levels));
      current_root_index = some 0;
      next_index = some 0;
    } in
    (
      u,
      rw (positive, in_range, free, run, get_zeroes-at levels (omega arith)),
      record {
        levels_set = c.same_levels;
        levels_pos = pos;
        levels_max = small;
        next_set = refl;
        next_even = refl;
        next_fits = omega arith;
        table = λ l le. c.at l (omega arith) (omega arith);
        siblings = λ j a b odd. absurd (omega (arith, shift-zero j));
        leaves_in = λ k lt. absurd (omega arith);
        newest = ap some (sym (merkle_root-nil h levels));
        current = 0;
        current_set = refl;
        ring = record { in_range = omega arith; holds = slot t c.same_root };
      },
    )
  where
    positive : (levels == 0) ≡ false
    positive = ground arith

    in_range : ltb 32 levels ≡ false
    in_range = ground arith

    free : is_set s.current_root_index ≡ false
    free = is_set-none s.current_root_index unset

    slot :
        (t : Storage)
        → t.root ≡ s.root
        → (j : ℕ) → j < root_history_size
        → update t.root 0 (some (zero_at levels)) (back 0 j) ≡ get_elem? (zero_at levels ∷ []) j
    slot t same zero b = refl
    slot t same (suc j) b =
        let other : 0 ≢ back 0 (suc j) = omega arith in
        rw same (ground (arith, other, no_root (back 0 (suc j))))

-- A storage that holds a tree is never initialised again, whatever the level count asked for.
pub init-ne-ok :
    {h : Host} {levels : ℕ} {leaves history : List U256} {s : Storage} (levels' : ℕ) (t : Storage)
    → Tree h levels leaves history s
    → init levels' s ≢ ok t
unfolding init
init-ne-ok {s = s} levels' t tree e = elim (Bool-cases (levels' == 0 || ltb 32 levels')) [
  | inl bad ↦ cc (rw bad at e)
  | inr good ↦ cc (rw (good, is_set-some s.current_root_index tree.current_set) at e)
]
