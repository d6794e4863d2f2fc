-- ===== src/PoolTree/Tests.antt =====
-- Runs of the commitment tree, and its theorems at concrete inputs.
use veil_server_v.Prelude.{
  ℕ, ◌≡◌, ◌≢◌, refl, true, ◌&&◌, not, none, [], ◌∷◌, arith, Outcome, ok, err, ◌==◌, contains, take,
  is_set, ◌>>=◌, ◌<◌,
}
use veil_server_v.Poseidon.{bn256_modulus, poseidon2_compress, get_zeroes}
use veil_server_v.Poseidon.Zeroes.{zero_at}
use veil_server_v.Samples.{host, host-IsPermutation}
use veil_server_v.Merkle.Climb.{climb, climb_step}
use veil_server_v.PoolTree.{
  Error, merkle_tree_full, Storage, root_history_size, init, init_levels, insert_two_leaves,
  finish_insert, is_known_root, get_last_root,
}
use veil_server_v.Merkle.Leaves.{merkle_root, merkle_root-nil}
use veil_server_v.PoolTree.Tree.{Tree}
use veil_server_v.PoolTree.Init.{init-Tree, init-ne-ok}
use veil_server_v.PoolTree.Insert.{insert_two_leaves_refines, insert_two_leaves-full}
use veil_server_v.PoolTree.Known.{is_known_root-Tree, get_last_root-Tree}
use veil_server_v.PoolTree.Window.{insert_pairs, known_for_89_insertions}

-- A storage with no key set.
abbrev blank : Storage
blank = record {
  levels = none;
  current_root_index = none;
  next_index = none;
  filled_subtree = λ l. none;
  zeroes = λ l. none;
  root = λ i. none;
}

field_size : 100 < bn256_modulus
unfolding bn256_modulus
field_size = omega arith

-- Two insertions at height 2, then a third that does not fit.
abbrev three_insertions : Outcome Error ((ℕ × ℕ) × Storage)
three_insertions = do
  s ← init 2 blank
  r ← insert_two_leaves host 5 6 s
  q ← insert_two_leaves host 7 8 r.1
  insert_two_leaves host 9 10 q.1

third_is_refused : three_insertions ≡ err merkle_tree_full
unfolding init init_levels is_set get_zeroes insert_two_leaves finish_insert poseidon2_compress
    bn256_modulus climb climb_step
third_is_refused = refl

abbrev second_indices : Outcome Error (ℕ × ℕ)
second_indices = do
  s ← init 2 blank
  r ← insert_two_leaves host 5 6 s
  q ← insert_two_leaves host 7 8 r.1
  ok q.0

second_indices_are_2_3 : second_indices ≡ ok (2, 3)
unfolding init init_levels is_set get_zeroes insert_two_leaves finish_insert poseidon2_compress
    bn256_modulus climb climb_step
second_indices_are_2_3 = refl

init-Tree_case : (t : Storage) × (init 1 blank ≡ ok t) × Tree host 1 [] (zero_at 1 ∷ []) t
init-Tree_case = init-Tree host 1 blank (omega arith) (omega arith) refl (λ i. refl)

abbrev empty_one : Storage
empty_one = init-Tree_case.0

insert_two_leaves_refines_example :
    (t : Storage) × (insert_two_leaves host 5 6 empty_one ≡ ok ((0, 1), t))
    × Tree host 1 (5 ∷ 6 ∷ []) (merkle_root host 1 (5 ∷ 6 ∷ []) ∷ zero_at 1 ∷ []) t
insert_two_leaves_refines_example =
    insert_two_leaves_refines 5 6 host-IsPermutation init-Tree_case.2 (omega (arith, field_size))
      (omega (arith, field_size)) (omega arith)

abbrev full_one : Storage
full_one = insert_two_leaves_refines_example.0

insert_two_leaves-full_case : insert_two_leaves host 7 8 full_one ≡ err merkle_tree_full
insert_two_leaves-full_case =
    insert_two_leaves-full 7 8 insert_two_leaves_refines_example.2 (omega arith)

is_known_root-Tree_example :
    is_known_root 3 full_one
    ≡ ok (
        not (3 == 0)
        && contains 3 (take root_history_size (merkle_root host 1 (5 ∷ 6 ∷ []) ∷ zero_at 1 ∷ [])))
is_known_root-Tree_example = is_known_root-Tree 3 insert_two_leaves_refines_example.2

last_root_of_full_one : get_last_root full_one ≡ ok (merkle_root host 1 (5 ∷ 6 ∷ []))
last_root_of_full_one = get_last_root-Tree insert_two_leaves_refines_example.2

init-ne-ok_case : init 20 full_one ≢ ok blank
init-ne-ok_case = init-ne-ok 20 blank insert_two_leaves_refines_example.2

zero_at_1-ne-zero : zero_at 1 ≢ 0
unfolding zero_at get_zeroes
zero_at_1-ne-zero = omega arith

known_for_89_insertions_example :
    (t : Storage) × (insert_pairs host ((5, 6) ∷ []) empty_one ≡ ok t)
    × (is_known_root (merkle_root host 1 []) t ≡ ok true)
known_for_89_insertions_example =
    known_for_89_insertions ((5, 6) ∷ []) host-IsPermutation tree
      (omega (arith, field_size), omega (arith, field_size), tt) (omega arith) (omega arith)
      (rw (merkle_root-nil host 1) zero_at_1-ne-zero)
  where
    tree : Tree host 1 [] (zero_at 1 ∷ []) empty_one
    tree = init-Tree_case.2
