-- ===== src/Membership/Tests.antt =====
-- Runs of the membership contract, and its theorems at concrete inputs.
use veil_server_v.Prelude.{
  ◌≡◌, refl, true, false, none, some, List, [], ◌∷◌, ◌++◌, arith, ok, err, trap, ◌==◌, ◌>>=◌, inl,
  ◌⊎◌, ◌<◌, is_set,
}
use veil_server_v.Poseidon.{U256, bn256_modulus, poseidon2_compress, get_zeroes}
use veil_server_v.Samples.{host, host-IsPermutation}
use veil_server_v.Admin
use veil_server_v.Admin.{Address, Auth}
use veil_server_v.Merkle.Climb.{climb, climb_step}
use veil_server_v.Merkle.Leaves.{merkle_root}
use veil_server_v.Membership.{
  merkle_tree_full, State, constructor, init_levels, check_admin, insert_checked, insert_leaf,
  update_admin,
}
use veil_server_v.Membership.Tree.{Tree, constructor-Tree}
use veil_server_v.Membership.Insert.{insert_leaf_refines, insert_leaf-full}
use veil_server_v.Membership.Access.{
  insert_leaf-authorised, settings-authorised, add, hand_over, open_to, run, run-append_only,
}

abbrev blank : State
blank = record {
  admin = none;
  filled_subtrees = λ l. none;
  zeroes = λ l. none;
  levels = none;
  next_index = none;
  root = none;
  admin_insert_only = none;
  events = [];
}

-- Address 1 is the administrator of the samples.
abbrev by_admin : Auth
by_admin a = a == 1

abbrev by_other : Auth
by_other a = a == 2

field_size : 100 < bn256_modulus
unfolding bn256_modulus
field_size = omega arith

stranger_is_stopped : (constructor 1 2 blank >>= λ s. insert_leaf by_other host 5 s) ≡ trap
unfolding constructor init_levels get_zeroes insert_leaf check_admin
stranger_is_stopped = refl

third_leaf_is_refused :
    (do
      s ← constructor 1 1 blank
      t ← insert_leaf by_admin host 5 s
      u ← insert_leaf by_admin host 6 t
      insert_leaf by_admin host 7 u)
    ≡ err merkle_tree_full
unfolding constructor init_levels get_zeroes insert_leaf check_admin insert_checked climb climb_step
    poseidon2_compress bn256_modulus
third_leaf_is_refused = refl

constructor-Tree_case :
    (t : State) × (constructor 1 1 blank ≡ ok t)
    × Tree host 1 [] t
    × (t.admin ≡ some 1)
    × (t.admin_insert_only ≡ some true)
constructor-Tree_case = constructor-Tree host 1 1 blank (omega arith) (omega arith)

abbrev fresh : State
fresh = constructor-Tree_case.0

may_insert : check_admin by_admin fresh ≡ ok tt
unfolding check_admin
may_insert = simp (constructor-Tree_case.3, constructor-Tree_case.4)

insert_leaf_refines_example :
    (t : State) × (insert_leaf by_admin host 5 fresh ≡ ok t)
    × Tree host 1 (5 ∷ []) t
    × (t.events
        ≡ fresh.events ++ (record { leaf = 5; index = 0; root = merkle_root host 1 (5 ∷ []) } ∷ []))
    × (t.admin ≡ fresh.admin)
    × (t.admin_insert_only ≡ fresh.admin_insert_only)
insert_leaf_refines_example =
    insert_leaf_refines by_admin 5 host-IsPermutation constructor-Tree_case.2 may_insert
      (omega (arith, field_size)) (omega arith)

abbrev half : State
half = insert_leaf_refines_example.0

may_insert_again : check_admin by_admin half ≡ ok tt
unfolding check_admin
may_insert_again = simp (
  insert_leaf_refines_example.4, insert_leaf_refines_example.5, constructor-Tree_case.3,
  constructor-Tree_case.4,
)

abbrev second_insertion :
    (t : State) × (insert_leaf by_admin host 6 half ≡ ok t)
    × Tree host 1 (5 ∷ 6 ∷ []) t
    × (t.events
        ≡ half.events
          ++ (record { leaf = 6; index = 1; root = merkle_root host 1 (5 ∷ 6 ∷ []) } ∷ []))
    × (t.admin ≡ half.admin)
    × (t.admin_insert_only ≡ half.admin_insert_only)
second_insertion =
    insert_leaf_refines by_admin 6 host-IsPermutation insert_leaf_refines_example.2 may_insert_again
      (omega (arith, field_size)) (omega arith)

may_insert_thrice : check_admin by_admin second_insertion.0 ≡ ok tt
unfolding check_admin
may_insert_thrice = simp (
  second_insertion.4, second_insertion.5, insert_leaf_refines_example.4,
  insert_leaf_refines_example.5, constructor-Tree_case.3, constructor-Tree_case.4,
)

insert_leaf-full_example : insert_leaf by_admin host 7 second_insertion.0 ≡ err merkle_tree_full
insert_leaf-full_example = insert_leaf-full by_admin 7 second_insertion.2 may_insert_thrice refl

-- A contract open to all.
abbrev open_state : State
open_state = record {
  admin = some 1;
  filled_subtrees = λ l. some 5;
  zeroes = λ l. some 0;
  levels = some 1;
  next_index = some 2;
  root = some 9;
  admin_insert_only = some false;
  events = [];
}

insert_leaf-authorised_case :
    (fresh.admin_insert_only ≡ some false)
    ⊎ ((a : Address) × (fresh.admin ≡ some a) × (by_admin a ≡ true))
insert_leaf-authorised_case =
    insert_leaf-authorised by_admin host 5 fresh insert_leaf_refines_example.0
      insert_leaf_refines_example.1

settings-authorised_case : (a : Address) × (open_state.admin ≡ some a) × (by_admin a ≡ true)
settings-authorised_case =
    settings-authorised by_admin open_state (record open_state { admin = some 4 }) 4 true
      (inl handed_over)
  where
    handed_over : update_admin by_admin 4 open_state ≡ ok (record open_state { admin = some 4 })
    handed_over = unfold update_admin Admin.update_admin is_set in refl

run-append_only_example :
    (more : List U256) × Tree host 1 ([] ++ more) (
      run host ((by_admin, add 5) ∷ (by_other, hand_over 2) ∷ (by_admin, open_to false) ∷ []) fresh)
run-append_only_example =
    run-append_only []
      ((by_admin, add 5) ∷ (by_other, hand_over 2) ∷ (by_admin, open_to false) ∷ []) fresh
      host-IsPermutation constructor-Tree_case.2
