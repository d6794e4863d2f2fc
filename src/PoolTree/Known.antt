-- ===== src/PoolTree/Known.antt =====
-- `is_known_root` decides membership in the last 90 roots.
use veil_server_v.Prelude.{
  not, ◌&&◌, contains, contains-take-true, contains-take-false, take, ℕ, zero, suc, ◌+◌, ◌-◌, ◌%◌,
  ◌<◌, ◌≡◌, ◌≢◌, ◌∙◌, ap, true, false, some, List, arith, ◌==◌, get_elem?, Bool-cases, inl, inr, ok,
}
use veil_server_v.Poseidon.{U256, Host}
use veil_server_v.PoolTree.{
  root_history_size, Storage, slot_holds, search_root, is_known_root, get_last_root,
}
use veil_server_v.PoolTree.Ring.{back, Ring}
use veil_server_v.Merkle.Leaves.{merkle_root}
use veil_server_v.PoolTree.Tree.{Tree}

-- The slot that the search visits after `t` rounds.
abbrev visited : ℕ → ℕ → ℕ
visited c t = (c + t) % root_history_size

module _ (s : Storage) (r : U256) (c : ℕ) (in_range : c < root_history_size) where
  hit : (fuel i : ℕ) → slot_holds s r i ≡ true → search_root (suc fuel) s r c i ≡ ok true
  unfolding search_root
  hit fuel i h = ground arith

  last :
      (fuel i : ℕ)
      → slot_holds s r i ≡ false
      → i < root_history_size
      → (i + 1) % root_history_size ≡ c
      → search_root (suc fuel) s r c i ≡ ok false
  unfolding search_root
  last fuel i h b e = ground arith

  next :
      (fuel i j : ℕ)
      → slot_holds s r i ≡ false
      → i < root_history_size
      → (i + 1) % root_history_size ≡ j
      → j ≢ c
      → search_root (suc fuel) s r c i ≡ search_root fuel s r c j
  unfolding search_root
  next fuel i j h b e ne = ground arith

  search-found :
      (k t fuel : ℕ)
      → t + k < root_history_size
      → k < fuel
      → slot_holds s r (visited c (t + k)) ≡ true
      → search_root fuel s r c (visited c t) ≡ ok true
  search-found k t zero b f found = absurd (omega arith)
  search-found zero t (suc fuel) b f found =
      let e : t + 0 ≡ t = omega arith in hit fuel (visited c t) (rw e at found)
  search-found (suc k) t (suc fuel) b f found = elim (Bool-cases (slot_holds s r (visited c t))) [
    | inl e ↦ hit fuel (visited c t) e
    | inr e ↦
        let e' : t + suc k ≡ t + 1 + k = omega arith in
        next fuel (visited c t) (visited c (t + 1)) e (omega arith) (omega arith)
          (omega (arith, in_range))
        ∙ search-found k (t + 1) fuel (omega arith) (omega arith) (rw e' at found)
  ]

  search-none :
      (k t fuel : ℕ)
      → t + suc k ≡ root_history_size
      → k < fuel
      → ((j : ℕ) → j < root_history_size → slot_holds s r (visited c j) ≡ false)
      → search_root fuel s r c (visited c t) ≡ ok false
  search-none k t zero b f miss = absurd (omega arith)
  search-none zero t (suc fuel) b f miss =
      last fuel (visited c t) (miss t (omega arith)) (omega arith) (omega (arith, in_range))
  search-none (suc k) t (suc fuel) b f miss =
      next fuel (visited c t) (visited c (t + 1)) (miss t (omega arith)) (omega arith) (omega arith)
        (omega (arith, in_range))
      ∙ search-none k (t + 1) fuel (omega arith) (omega arith) miss

module _ (s : Storage) {c : ℕ} {history : List U256} (current : s.current_root_index ≡ some c)
    (ring : Ring c s.root history) where
  in_history :
      (r j : ℕ)
      → j < root_history_size
      → get_elem? history j ≡ some r
      → slot_holds s r (visited c (0 + (root_history_size - j) % root_history_size)) ≡ true
  unfolding slot_holds
  in_history r j b e =
      let same : visited c (0 + (root_history_size - j) % root_history_size) ≡ back c j =
        omega (arith, ring.in_range) in
      rw same (ground (arith, ring.holds j b))

  not_in_history :
      (r : ℕ)
      → ((j : ℕ) → j < root_history_size → get_elem? history j ≢ some r)
      → (t : ℕ) → t < root_history_size
      → slot_holds s r (visited c t) ≡ false
  unfolding slot_holds
  not_in_history r absent t b =
      let j = (root_history_size - t) % root_history_size in
      let same : visited c t ≡ back c j = omega (arith, ring.in_range) in
      rw same (ground (arith, ring.holds j (omega arith), absent j (omega arith)))

  search : (r : U256) → (r == 0) ≡ false → is_known_root r s ≡ search_root 91 s r c (visited c 0)
  unfolding is_known_root
  search r nz =
      let start : visited c 0 ≡ c = omega (arith, ring.in_range) in simp (nz, current, start)

  -- A root is known exactly when it is not zero and stands among the last 90 roots of the history.
  is_known_root_lem :
      (r : U256)
      → is_known_root r s ≡ ok (not (r == 0) && contains r (take root_history_size history))
  is_known_root_lem r = elim (Bool-cases (r == 0)) [
    | inl z ↦ unfold is_known_root in rw z
    | inr nz ↦ elim (Bool-cases (contains r (take root_history_size history))) [
      | inl e ↦
          let (j, b, at) = contains-take-true r root_history_size history e in
          rw (nz, e)
            (search r nz
              ∙ search-found s r c ring.in_range ((root_history_size - j) % root_history_size) 0 91
                  (omega arith) (omega arith) (in_history r j b at))
      | inr e ↦
          rw (nz, e)
            (search r nz
              ∙ search-none s r c ring.in_range 89 0 91 (omega arith) (omega arith)
                  (not_in_history r λ j. contains-take-false r root_history_size history j e))
    ]
  ]

-- In a storage that holds the tree, a root is known exactly when it is not zero and stands among the
-- last 90 roots of the history.
pub is_known_root-Tree :
    {h : Host} {levels : ℕ} {leaves history : List U256} {s : Storage} (r : U256)
    → Tree h levels leaves history s
    → is_known_root r s ≡ ok (not (r == 0) && contains r (take root_history_size history))
is_known_root-Tree {s = s} r tree = is_known_root_lem s tree.current_set tree.ring r

-- The last root of a storage that holds the tree is the Merkle root over the tree's leaves.
pub get_last_root-Tree :
    {h : Host} {levels : ℕ} {leaves history : List U256} {s : Storage}
    → Tree h levels leaves history s
    → get_last_root s ≡ ok (merkle_root h levels leaves)
unfolding get_last_root
get_last_root-Tree {h} {levels} {leaves} {history} {s} tree =
    simp (tree.current_set, ap s.root slot ∙ newest)
  where
    slot : tree.current ≡ back tree.current 0
    slot = omega (arith, (tree.ring).in_range)

    newest : s.root (back tree.current 0) ≡ some (merkle_root h levels leaves)
    newest = (tree.ring).holds 0 (omega arith) ∙ tree.newest
