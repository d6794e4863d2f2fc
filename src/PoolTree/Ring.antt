-- ===== src/PoolTree/Ring.antt =====
-- The ring buffer of recent roots as a view of the history of all roots, newest first.
use veil_server_v.Prelude.{
  ℕ, zero, suc, ◌+◌, ◌-◌, ◌%◌, ◌<◌, ◌≡◌, ◌≢◌, Option, some, List, ◌∷◌, arith, get_elem?, update,
}
use veil_server_v.Poseidon.{U256}
use veil_server_v.PoolTree.{root_history_size}

-- The slot of the root that is `j` insertions old, when the newest stands in slot `c`.
abbrev pub back : ℕ → ℕ → ℕ
back c j = (c + root_history_size - j) % root_history_size

-- The slots hold the last `root_history_size` entries of the history, and nothing else is set.
pub record Ring (c : ℕ) (root : ℕ → Option U256) (history : List U256) : Type 0 where
  pub in_range : c < root_history_size
  pub holds : (j : ℕ) → j < root_history_size → root (back c j) ≡ get_elem? history j

-- A new root takes the slot after the newest, and the oldest root of a full ring is lost.
pub Ring-push :
    {c : ℕ} {root : ℕ → Option U256} {history : List U256} (r : U256)
    → Ring c root history
    → Ring
        ((c + 1) % root_history_size)
        (update root ((c + 1) % root_history_size) (some r))
        (r ∷ history)
Ring-push {c} {root} {history} r ring = record {
  in_range = omega (arith, ring.in_range);
  holds = slot;
}
  where
    slot :
        (j : ℕ)
        → j < root_history_size
        → update root ((c + 1) % root_history_size) (some r) (back ((c + 1) % root_history_size) j)
          ≡ get_elem? (r ∷ history) j
    slot zero b = ground (arith, ring.in_range)
    slot (suc j) b =
        let same : back ((c + 1) % root_history_size) (suc j) ≡ back c j =
          omega (arith, ring.in_range) in
        let other : (c + 1) % root_history_size ≢ back c j = omega (arith, ring.in_range) in
        rw same (ground (arith, ring.holds j (omega arith), other))
