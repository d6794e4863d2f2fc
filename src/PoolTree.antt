-- ===== src/PoolTree.antt =====
-- contracts/pool/src/merkle_with_history.rs: the commitment tree of the pool, with the ring buffer
-- of its recent roots.
pub mod Ring
pub mod Known
pub mod Tree
pub mod Insert
pub mod Init
pub mod Append
pub mod Window
mod Tests
use veil_server_v.Prelude.{
  ℕ, zero, suc, ◌+◌, ◌-◌, ◌/◌, ◌%◌, Bool, true, false, ◌||◌, Option, none, some, List, ltb, leb,
  ◌==◌, if◌then◌else◌, get_elem?, update, Outcome, ok, err, trap, ◌>>=◌, ◌>>◌, ok_or, ensure,
  is_set, checked_add, checked_shl_one, try_from,
}
use veil_server_v.Poseidon.{U256, Host, poseidon2_compress, get_zeroes}
use veil_server_v.Merkle.Climb.{climb}

abbrev pub root_history_size : ℕ
root_history_size = 90

pub data Error : Type 0 where
  already_initialized wrong_levels merkle_tree_full next_index_not_even not_initialized overflow :
      Error

-- The persistent storage: a field for each constructor of MerkleDataKey. `none` is an absent key.
pub record Storage : Type 0 where
  pub levels : Option ℕ
  pub current_root_index : Option ℕ
  pub next_index : Option ℕ
  pub filled_subtree : ℕ → Option U256
  pub zeroes : ℕ → Option U256
  pub root : ℕ → Option U256

-- `for i in 0..=levels` of `init`, with the rounds left.
unfoldable pub init_levels : ℕ → ℕ → Storage → Outcome Error Storage
init_levels zero i s = ok s
init_levels (suc rounds) i s = ok_or (get_elem? get_zeroes i) not_initialized >>= λ z.
    init_levels rounds (i + 1) (record s {
      filled_subtree = update s.filled_subtree i (some z);
      zeroes = update s.zeroes i (some z);
    })

unfoldable pub init : ℕ → Storage → Outcome Error Storage
init levels s =
    if levels == 0 || ltb 32 levels
    then err wrong_levels
    else if is_set s.current_root_index
    then err already_initialized
    else do
      t ← init_levels (levels + 1) 0 (record s { levels = some levels })
      root_0 ← ok_or (get_elem? get_zeroes levels) not_initialized
      ok (record t {
        root = update t.root 0 (some root_0);
        current_root_index = some 0;
        next_index = some 0;
      })

-- The tail of `insert_two_leaves`, from the new root on: the keys Root, CurrentRootIndex and
-- NextIndex, and the two indices of the result.
unfoldable pub finish_insert :
    ℕ → ℕ → U256 → (ℕ → Option U256) → Storage → Outcome Error ((ℕ × ℕ) × Storage)
finish_insert next_index root_index current_hash filled s = do
  root_next ← ok_or (checked_add 32 root_index 1) overflow
  let slot = root_next % root_history_size
  index_next ← ok_or (checked_add 64 next_index 2) overflow
  left ← ok_or (try_from 32 next_index) merkle_tree_full
  second ← ok_or (checked_add 64 next_index 1) overflow
  right ← ok_or (try_from 32 second) merkle_tree_full
  ok (
    (left, right),
    record s {
      filled_subtree = filled;
      root = update s.root slot (some current_hash);
      current_root_index = some slot;
      next_index = some index_next;
    },
  )

unfoldable pub insert_two_leaves : Host → U256 → U256 → Storage → Outcome Error ((ℕ × ℕ) × Storage)
insert_two_leaves h leaf_1 leaf_2 s = do
  levels ← ok_or s.levels not_initialized
  next_index ← ok_or s.next_index not_initialized
  root_index ← ok_or s.current_root_index not_initialized
  max_leaves ← ok_or (checked_shl_one levels) wrong_levels
  ensure (next_index % 2 == 0) next_index_not_even
  end ← ok_or (checked_add 64 next_index 2) overflow
  ensure (leb end max_leaves) merkle_tree_full
  pair_hash ← poseidon2_compress h leaf_1 leaf_2
  top ← climb h not_initialized s.zeroes (levels - 1) s.filled_subtree 1 pair_hash (next_index / 2)
  finish_insert next_index root_index top.0 top.1 s

-- Whether slot `i` holds the root.
unfoldable pub slot_holds : Storage → U256 → ℕ → Bool
slot_holds s r i = elim (s.root i) [ none ↦ false | some x ↦ x == r ]

-- The `loop` of `is_known_root`. From a start below 90 it ends within 90 rounds; from any other it
-- sees every slot within 91 and then runs until the host stops the call.
unfoldable pub search_root : ℕ → Storage → U256 → ℕ → ℕ → Outcome Error Bool
search_root zero s r start i = trap
search_root (suc fuel) s r start i = elim (slot_holds s r i) [
  | true ↦ ok true
  | false ↦ elim (checked_add 32 i 1) [
    | none ↦ err overflow
    | some k ↦ elim (k % root_history_size == start) [
      | true ↦ ok false
      | false ↦ search_root fuel s r start (k % root_history_size)
    ]
  ]
]

unfoldable pub is_known_root : U256 → Storage → Outcome Error Bool
is_known_root r s = if r == 0 then ok false else do
  start ← ok_or s.current_root_index not_initialized
  search_root (root_history_size + 1) s r start start

unfoldable pub get_last_root : Storage → Outcome Error U256
get_last_root s = do
  i ← ok_or s.current_root_index not_initialized
  ok_or (s.root i) not_initialized
