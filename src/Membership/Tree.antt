-- ===== src/Membership/Tree.antt =====
-- The contract of the membership tree, and that the constructor makes it.
use veil_server_v.Prelude.{
  ℕ, zero, suc, ◌+◌, ◌^◌, ◌≤◌, ◌<◌, ◌≡◌, refl, ap, sym, ◌∙◌, true, false, some, List, [], arith,
  length, ◌==◌, ltb, ok, update, Bool-cases, inl, inr,
}
use veil_server_v.Poseidon.{U256, Host}
use veil_server_v.Poseidon.Digest.{digest}
use veil_server_v.Poseidon.Zeroes.{zero_at, get_zeroes-at}
use veil_server_v.Admin.{Address}
use veil_server_v.Merkle.Node.{shift-zero}
use veil_server_v.Merkle.Climb.Stored.{Stored}
use veil_server_v.Merkle.Leaves.{leaf_at, merkle_root, merkle_root-nil, AllInField}
use veil_server_v.Membership.{State, init_levels, constructor}

-- `levels` levels over these leaves.
pub record Tree (h : Host) (levels : ℕ) (leaves : List U256) (s : State) : Type 0 where
  pub levels_set : s.levels ≡ some levels
  pub levels_pos : 0 < levels
  pub levels_max : levels ≤ 32
  pub next_set : s.next_index ≡ some (length leaves)
  pub next_fits : length leaves ≤ 2 ^ levels
  pub table : (l : ℕ) → l ≤ levels → s.zeroes l ≡ some (zero_at l)
  pub siblings : Stored (digest h) (leaf_at leaves) (length leaves) 0 levels s.filled_subtrees
  pub leaves_in : AllInField leaves
  pub root_set : s.root ≡ some (merkle_root h levels leaves)

-- What the loop of the constructor has done, from level `i` to level `end`.
record Cleared (i end : ℕ) (s t : State) : Type 0 where
  at : (l : ℕ) → i ≤ l → l < end → t.zeroes l ≡ some (zero_at l)
  below : (l : ℕ) → l < i → t.zeroes l ≡ s.zeroes l
  same_levels : t.levels ≡ s.levels
  same_next : t.next_index ≡ s.next_index
  same_admin : t.admin ≡ s.admin
  same_flag : t.admin_insert_only ≡ s.admin_insert_only

init_levels-Cleared :
    (rounds i end : ℕ) (s : State)
    → i + rounds ≡ end
    → end ≤ 33
    → (t : State) × (init_levels rounds i s ≡ ok t) × Cleared i end s t
unfolding init_levels
init_levels-Cleared zero i end s e b = (
  s,
  refl,
  record {
    at = λ l a c. absurd (omega arith);
    below = λ l c. refl;
    same_levels = refl;
    same_next = refl;
    same_admin = refl;
    same_flag = refl;
  },
)
init_levels-Cleared (suc rounds) i end s e b =
    let s' : State = record s {
      filled_subtrees = update s.filled_subtrees i (some (zero_at i));
      zeroes = update s.zeroes i (some (zero_at i));
    } in
    let (t, run, c) = init_levels-Cleared rounds (i + 1) end s' (omega arith) b in
    (
      t,
      rw (get_zeroes-at i (omega arith)) run,
      record {
        at = λ l a lt. elim (Bool-cases (i == l)) [
          | inl q ↦ let p : i ≡ l = ground arith in c.below l (omega arith) ∙ rw (q, p)
          | inr q ↦ c.at l (ground arith) lt
        ];
        below = λ l lt. c.below l (omega arith) ∙ ground arith;
        same_levels = c.same_levels;
        same_next = c.same_next;
        same_admin = c.same_admin;
        same_flag = c.same_flag;
      },
    )

-- The constructor with 1 to 32 levels makes the tree with no leaves, sets the administrator, and
-- lets the administrator alone insert.
pub constructor-Tree :
    (h : Host) (admin : Address) (levels : ℕ) (s : State)
    → 0 < levels
    → levels ≤ 32
    → (t : State) × (constructor admin levels s ≡ ok t)
      × Tree h levels [] t
      × (t.admin ≡ some admin)
      × (t.admin_insert_only ≡ some true)
unfolding constructor
constructor-Tree h admin levels s pos small =
    let s' : State = record s {
      admin = some admin;
      levels = some levels;
      next_index = some 0;
      admin_insert_only = some true;
    } in
    let (t, run, c) =
      init_levels-Cleared (levels + 1) 0 (levels + 1) s' (omega arith) (omega arith) in
    (
      record t { root = some (zero_at levels) },
      rw (positive, in_range, run, get_zeroes-at levels (omega arith)),
      record {
        levels_set = c.same_levels;
        levels_pos = pos;
        levels_max = small;
        next_set = c.same_next;
        next_fits = omega arith;
        table = λ l le. c.at l (omega arith) (omega arith);
        siblings = λ j a b odd. absurd (omega (arith, shift-zero j));
        leaves_in = λ k lt. absurd (omega arith);
        root_set = ap some (sym (merkle_root-nil h levels));
      },
      c.same_admin,
      c.same_flag,
    )
  where
    positive : (levels == 0) ≡ false
    positive = ground arith

    in_range : ltb 32 levels ≡ false
    in_range = ground arith
