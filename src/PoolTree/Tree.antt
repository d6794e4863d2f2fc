-- ===== src/PoolTree/Tree.antt =====
-- The contract of the commitment tree: which leaves and which history of roots a storage holds.
use veil_server_v.Prelude.{ℕ, ◌%◌, ◌^◌, ◌≤◌, ◌<◌, ◌≡◌, some, List, length, get_elem?}
use veil_server_v.Poseidon.{U256, Host}
use veil_server_v.Poseidon.Digest.{digest}
use veil_server_v.Poseidon.Zeroes.{zero_at}
use veil_server_v.Merkle.Climb.Stored.{Stored}
use veil_server_v.Merkle.Leaves.{leaf_at, merkle_root, AllInField}
use veil_server_v.PoolTree.{Storage}
use veil_server_v.PoolTree.Ring.{Ring}

-- `levels` levels, these leaves, and this history of roots, newest first.
pub record Tree (h : Host) (levels : ℕ) (leaves history : List U256) (s : Storage) : Type 0 where
  pub levels_set : s.levels ≡ some levels
  pub levels_pos : 0 < levels
  pub levels_max : levels ≤ 32
  pub next_set : s.next_index ≡ some (length leaves)
  pub next_even : length leaves % 2 ≡ 0
  pub next_fits : length leaves ≤ 2 ^ levels
  pub table : (l : ℕ) → l ≤ levels → s.zeroes l ≡ some (zero_at l)
  pub siblings : Stored (digest h) (leaf_at leaves) (length leaves) 1 levels s.filled_subtree
  pub leaves_in : AllInField leaves
  pub newest : get_elem? history 0 ≡ some (merkle_root h levels leaves)
  pub current : ℕ
  pub current_set : s.current_root_index ≡ some current
  pub ring : Ring current s.root history
