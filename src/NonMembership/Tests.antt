-- ===== src/NonMembership/Tests.antt =====
-- Runs of the non-membership contract, and its theorems at concrete inputs.
use veil_server_v.Prelude.{
  ◌⊎◌, ℕ, ◌<◌, ◌≡◌, ◌≢◌, refl, true, false, none, some, [], ◌∷◌, ◌++◌, arith, ok, err, ◌==◌, ◌>>=◌,
  if◌then◌else◌, inl,
}
use native.Mathlib.Nat.{mod-lt}
use veil_server_v.Poseidon.{U256, bn256_modulus, poseidon2_hash2}
use veil_server_v.Poseidon.Digest.{digest, modulus_bounds}
use veil_server_v.Samples.{host, host-IsPermutation}
use veil_server_v.Admin.{Address, Auth}
use veil_server_v.NonMembership.{
  State, key_already_exists, leaf_inserted, FindResult, find_key, low_bits, split_bits,
  find_key_internal, root_or_zero, view, leaf_result, hash_leaf,
}
use veil_server_v.NonMembership.Insert.{bits_eq, insert_leaf}
use veil_server_v.NonMembership.Delete.{
  delete_leaf, delete_found, delete_climb, promoted, last?, pop_back,
}
use veil_server_v.NonMembership.Verify.{
  verify_non_membership, same_siblings, proof_bottom, rebuild_root,
}
use veil_server_v.NonMembership.Tree.{
  Smt, empty, entry, fork, leaf_hash, root_of, Keys, Decodes, Has, join, insert, Holds, search,
}
use veil_server_v.NonMembership.Access.{changes-authorised}
use veil_server_v.NonMembership.Tree.Hashes.{IsHash}
use veil_server_v.NonMembership.Tree.Refines.{found_in}
use veil_server_v.NonMembership.Tree.Accepts.{insert_leaf-Holds, insert_leaf-duplicate}
use veil_server_v.NonMembership.Tree.Proofs.{
  verify_non_membership_sound, verify_non_membership_complete, verify_non_membership-zero_value,
}
use veil_server_v.NonMembership.Tree.Roundtrip.{
  Finds, Misses, Unchanged, insert_leaf-find_key, find_key_correct,
}

host-IsHash : IsHash host
unfolding leaf_hash
host-IsHash = record {
  permutes = host-IsPermutation;
  width = λ key value hk hv. omega arith;
  in_field = λ key value hk hv. mod-lt _ modulus_bounds.0;
}

abbrev two_entries : Smt
two_entries = fork (entry 2 7) (entry 1 5)

-- The nodes of the samples by their hashes.
abbrev read : U256 → Smt
read x =
    if x == 12
    then entry 1 5
    else if x == 17
    then entry 2 7
    else if x == 59
    then two_entries
    else empty

abbrev by_admin : Auth
by_admin a = a == 1

abbrev one_leaf : State
one_leaf = record {
  admin = some 1;
  root = some 12;
  nodes = λ x. if x == 12 then some (1 ∷ 1 ∷ 5 ∷ []) else none;
  events = [];
}

field_size : 100 < bn256_modulus
unfolding bn256_modulus
field_size = omega arith

one_leaf-Holds : Holds host read (entry 1 5) one_leaf
unfolding leaf_hash bn256_modulus
one_leaf-Holds = record {
  root_set = refl;
  placed = tt;
  proper = tt;
  fits = (omega arith, omega arith);
  reads = refl;
  stored = refl;
}

inserted : insert 256 (λ k. k) 2 7 (entry 1 5) ≡ two_entries
unfolding insert join bits_eq
inserted = refl

new_reads : Decodes host read (insert 256 (λ k. k) 2 7 (entry 1 5))
unfolding insert join bits_eq leaf_hash digest bn256_modulus
new_reads = (refl, refl, refl)

apart : ◌≢◌ {A = ℕ} 1 2
apart e = omega (arith, e)

insert_leaf-Holds_example :
    (s' : State) × (insert_leaf by_admin host 2 7 one_leaf ≡ ok s')
    × Holds host read (insert 256 (λ k. k) 2 7 (entry 1 5)) s'
    × (s'.events
        ≡ [] ++ (leaf_inserted 2 7 (root_of host (insert 256 (λ k. k) 2 7 (entry 1 5))) ∷ []))
    × (s'.admin ≡ some 1)
insert_leaf-Holds_example =
    insert_leaf-Holds by_admin 2 7 host-IsHash refl one_leaf-Holds refl refl
      (omega (arith, field_size)) (omega (arith, field_size)) apart new_reads

insert_leaf-find_key_example :
    (s' : State) × (insert_leaf by_admin host 2 7 one_leaf ≡ ok s')
    × Finds 2 7 s'
    × Unchanged 1 2 (entry 1 5) s'
insert_leaf-find_key_example =
    insert_leaf-find_key by_admin 2 7 1 host-IsHash refl one_leaf-Holds refl refl
      (omega (arith, field_size)) (omega (arith, field_size)) apart new_reads

abbrev two_leaves : State
two_leaves = insert_leaf-Holds_example.0

insert_leaf-duplicate_case : insert_leaf by_admin host 1 9 one_leaf ≡ err key_already_exists
insert_leaf-duplicate_case =
    insert_leaf-duplicate by_admin 1 9 5 refl one_leaf-Holds refl refl (refl, refl)

find_key_correct_example :
    ((value : U256) × Has 1 value (insert 256 (λ k. k) 2 7 (entry 1 5)) × Finds 1 value two_leaves)
    ⊎ (Keys (λ k. k ≢ 1) (insert 256 (λ k. k) 2 7 (entry 1 5)) × Misses 1 two_leaves)
find_key_correct_example = find_key_correct 1 refl insert_leaf-Holds_example.2

ends_at_five :
    (found_in host 2 (entry 1 5)).is_old0 ≡ false
    → (found_in host 2 (entry 1 5)).not_found_value ≢ 0
unfolding search leaf_result
ends_at_five ends e = omega (arith, e)

verify_non_membership_complete_example :
    (r : FindResult) × (find_key 2 one_leaf ≡ ok r)
    × (verify_non_membership host 2 r.siblings r.not_found_key r.not_found_value one_leaf ≡ ok true)
verify_non_membership_complete_example =
    verify_non_membership_complete 2 host-IsHash refl one_leaf-Holds apart ends_at_five

accepted_proof : verify_non_membership host 2 [] 1 5 one_leaf ≡ ok true
unfolding verify_non_membership split_bits low_bits find_key_internal root_or_zero view leaf_result
    same_siblings proof_bottom hash_leaf poseidon2_hash2 rebuild_root bn256_modulus
accepted_proof = refl

verify_non_membership_sound_example : Keys (λ k. k ≢ 2) (entry 1 5)
verify_non_membership_sound_example =
    verify_non_membership_sound 2 [] 1 5 refl one_leaf-Holds accepted_proof

abbrev read_zero : U256 → Smt
read_zero x = if x == 2 then entry 1 0 else empty

abbrev zero_leaf : State
zero_leaf = record {
  admin = some 1;
  root = some 2;
  nodes = λ x. if x == 2 then some (1 ∷ 1 ∷ 0 ∷ []) else none;
  events = [];
}

zero_leaf-Holds : Holds host read_zero (entry 1 0) zero_leaf
unfolding leaf_hash bn256_modulus
zero_leaf-Holds = record {
  root_set = refl;
  placed = tt;
  proper = tt;
  fits = (omega arith, omega arith);
  reads = refl;
  stored = refl;
}

verify_non_membership-zero_value_example : verify_non_membership host 2 [] 1 0 zero_leaf ≢ ok true
verify_non_membership-zero_value_example =
    verify_non_membership-zero_value 2 1 [] 1 0 refl zero_leaf-Holds apart

changes-authorised_example : (a : Address) × (one_leaf.admin ≡ some a) × (by_admin a ≡ true)
changes-authorised_example =
    changes-authorised by_admin host 2 7 3 one_leaf two_leaves (inl insert_leaf-Holds_example.1)

-- The root of the tree that a deletion leaves behind stays among the nodes when the last sibling is a
-- leaf.
old_root_stays :
    (do
      s ← delete_leaf by_admin host 2 (record one_leaf {
        root = some 59;
        nodes = λ x.
            if x == 12
            then some (1 ∷ 1 ∷ 5 ∷ [])
            else if x == 17
            then some (1 ∷ 2 ∷ 7 ∷ [])
            else if x == 59
            then some (17 ∷ 12 ∷ [])
            else none;
      })
      ok (s.nodes 59))
    ≡ ok (some (17 ∷ 12 ∷ []))
unfolding delete_leaf delete_found delete_climb promoted last? pop_back split_bits low_bits
    find_key_internal view leaf_result hash_leaf poseidon2_hash2 bn256_modulus
old_root_stays = refl
