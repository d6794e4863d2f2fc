-- ===== src/NonMembership/Tree/Proofs.antt =====
-- The contract's search, and its check of a proof that a key is not in the tree.
use veil_server_v.Prelude.{
  ℕ, zero, suc, ◌<◌, ◌≡◌, ◌≢◌, refl, sym, ◌∙◌, ap, Bool, true, false, not, ◌&&◌, List, [], ◌∷◌,
  arith, length, ok, inl, inr, ne→==, ◌==◌, if◌then◌else◌,
}
use veil_server_v.Poseidon.{U256, bn256_modulus, Host}
use veil_server_v.NonMembership.{
  FindResult, State, low_bits, split_bits, hash_leaf, find_key_internal, root_or_zero, find_key,
  empty_result, leaf_result,
}
use veil_server_v.NonMembership.Verify.{
  same_siblings, rebuild_root, proof_bottom, verify_non_membership,
}
use veil_server_v.NonMembership.Tree.{
  Smt, empty, entry, fork, leaf_hash, root_of, Keys, InField, IsPlaced, odd, half, search, Has,
  Holds,
}
use veil_server_v.NonMembership.Tree.Hashes.{
  IsHash, hash_leaf-ok, hash_internal-ok, root_of-lt, root_of-nonzero,
}
use veil_server_v.NonMembership.Tree.Climb.{bottom}
use veil_server_v.NonMembership.Tree.Lookup.{search-Has, search-absent, Has-or-not}
use veil_server_v.NonMembership.Tree.Refines.{found_in, find_key-eq-search}
use veil_server_v.NonMembership.Tree.Accepts.{search-InField}

-- A search without success ends at the key itself or at another.
search-ends :
    (h : Host) (key : U256) (bits : List Bool) (t : Smt)
    → Keys (λ k. k ≢ key) t
    → ((search h key bits t).is_old0 ≡ true → (search h key bits t).not_found_key ≡ key)
      × ((search h key bits t).is_old0 ≡ false → (search h key bits t).not_found_key ≢ key)
unfolding search leaf_result empty_result
search-ends h key bits empty absent = (λ _. refl, λ e. cc)
search-ends h key bits (entry k v) absent =
    (ground (arith, ne→== k key absent), ground (arith, ne→== k key absent, absent))
search-ends h key [] (fork l r) absent = (λ _. refl, λ e. cc)
search-ends h key (true ∷ bits) (fork l r) (_, absent) = search-ends h key bits r absent
search-ends h key (false ∷ bits) (fork l r) (absent, _) = search-ends h key bits l absent

-- The siblings of a search without success hash to the root.
rebuild_root-search :
    {h : Host} (key : U256) (m : ℕ) (f : U256 → ℕ) (t : Smt)
    → IsHash h
    → IsPlaced m f t
    → InField t
    → Keys (λ k. k ≢ key) t
    → rebuild_root h
        (search h key (low_bits m (f key)) t).siblings
        (low_bits m (f key))
        (bottom h (search h key (low_bits m (f key)) t))
      ≡ ok (root_of h t)
unfolding search low_bits bottom rebuild_root leaf_result empty_result
rebuild_root-search key m f empty law placed fits absent = refl
rebuild_root-search key m f (entry k v) law placed fits absent = rw (ne→== k key absent)
rebuild_root-search key zero f (fork l r) law placed fits absent = absurd placed
rebuild_root-search {h} key (suc m) f (fork l r) law (_, _, placed_l, placed_r) (in_l, in_r)
      (absent_l, absent_r) =
    elim (odd (f key))
      as (λ b.
        rebuild_root h (search h key (b ∷ low_bits m (half f key)) (fork l r)).siblings
          (b ∷ low_bits m (half f key))
          (bottom h (search h key (b ∷ low_bits m (half f key)) (fork l r)))
        ≡ ok (root_of h (fork l r))) [
          | true ↦ simp (
            rebuild_root-search key m (half f) r law placed_r in_r absent_r,
            hash_internal-ok (root_of h l) (root_of h r) law (root_of-lt l law in_l)
                (root_of-lt r law in_r),
          )
          | false ↦ simp (
            rebuild_root-search key m (half f) l law placed_l in_l absent_l,
            hash_internal-ok (root_of h l) (root_of h r) law (root_of-lt l law in_l)
                (root_of-lt r law in_r),
          )
        ]

==_refl : (y : ℕ) → (y == y) ≡ true
==_refl y = ground arith

same_siblings_refl : (xs : List U256) → same_siblings xs xs ≡ ok tt
unfolding same_siblings
same_siblings_refl [] = refl
same_siblings_refl (x ∷ xs) = simp (==_refl x, same_siblings_refl xs)

proof_bottom-eq-bottom :
    {h : Host} (law : IsHash h) (key : U256) (r : FindResult)
    → (r.is_old0 ≡ true → r.not_found_key ≡ key)
    → (r.is_old0 ≡ false → r.not_found_key ≢ key)
    → (r.is_old0 ≡ false → (r.not_found_key < bn256_modulus) × (r.not_found_value < bn256_modulus))
    → (r.is_old0 ≡ false → r.not_found_value ≢ 0)
    → proof_bottom h key r.not_found_key r.not_found_value ≡ ok (bottom h r)
unfolding proof_bottom bottom
proof_bottom-eq-bottom {h} law key r same other fits set = go r.is_old0 same other fits set
  where
    go :
        (old0 : Bool)
        → (old0 ≡ true → r.not_found_key ≡ key)
        → (old0 ≡ false → r.not_found_key ≢ key)
        → (old0 ≡ false → (r.not_found_key < bn256_modulus) × (r.not_found_value < bn256_modulus))
        → (old0 ≡ false → r.not_found_value ≢ 0)
        → (if not (r.not_found_key == key) && not (r.not_found_value == 0)
            then hash_leaf h r.not_found_key r.not_found_value
            else ok 0)
          ≡ ok (if old0 then 0 else leaf_hash h r.not_found_key r.not_found_value)
    go true same other fits set = ground (arith, same refl)
    go false same other fits set = simp (
      ne→== r.not_found_key key (other refl),
      ne→== r.not_found_value 0 (set refl),
      hash_leaf-ok r.not_found_key r.not_found_value law (fits refl).0 (fits refl).1,
    )

-- What the check wants of a proof that the search gives.
accepts :
    (h : Host) (key : U256) (s : State) (r : FindResult) (start : U256)
    → find_key_internal s.nodes key (split_bits key) (root_or_zero s) ≡ ok r
    → r.found ≡ false
    → proof_bottom h key r.not_found_key r.not_found_value ≡ ok start
    → rebuild_root h r.siblings (split_bits key) start ≡ ok (root_or_zero s)
    → verify_non_membership h key r.siblings r.not_found_key r.not_found_value s ≡ ok true
unfolding verify_non_membership
accepts h key s r start found lost starts rebuilds = simp (
  found,
  lost,
  ==_refl (length r.siblings),
  same_siblings_refl r.siblings,
  ==_refl r.not_found_key,
  ==_refl r.not_found_value,
  starts,
  rebuilds,
  ==_refl (root_or_zero s),
)

root_or_zero-Holds :
    {h : Host} {read : U256 → Smt} {t : Smt} {s : State}
    → Holds h read t s
    → root_or_zero s ≡ root_of h t
unfolding root_or_zero
root_or_zero-Holds holds = rw holds.root_set

-- What the search gives, by whether the tree has an entry for the key.
pub find_key_answer :
    {h : Host} {read : U256 → Smt} {t : Smt} {s : State} (key : U256)
    → read 0 ≡ empty
    → Holds h read t s
    → (r : FindResult) × (find_key key s ≡ ok r)
      × ((value : U256) → Has key value t → (r.found ≡ true) × (r.found_value ≡ value))
      × (Keys (λ k. k ≢ key) t → r.found ≡ false)
unfolding find_key split_bits
find_key_answer {h} {read} {t} {s} key none_is_zero holds = (
  found_in h key t,
  find_key-eq-search key none_is_zero holds,
  λ value has. search-Has h key value 256 (λ k. k) t holds.placed has,
  λ absent. search-absent h key (split_bits key) t absent,
)

-- A proof that the check accepts is of a key that the tree has no entry for.
pub verify_non_membership_sound :
    {h : Host} {read : U256 → Smt} {t : Smt} {s : State} (key : U256) (siblings : List U256)
    (not_found_key not_found_value : U256)
    → read 0 ≡ empty
    → Holds h read t s
    → verify_non_membership h key siblings not_found_key not_found_value s ≡ ok true
    → Keys (λ k. k ≢ key) t
unfolding verify_non_membership split_bits
verify_non_membership_sound {h} {read} {t} {s} key siblings not_found_key not_found_value
      none_is_zero holds accepted =
    elim (Has-or-not key t) [
      | inl absent ↦ absent
      | inr (value, has) ↦
          let hit = search-Has h key value 256 (λ k. k) t holds.placed has in
          let found = find_key-eq-search key none_is_zero holds in
          cc (simp (found, hit.0) at accepted)
    ]

-- For a key that the tree has no entry for, the check accepts the proof that the search gives, where
-- the search ends at an empty place or at a leaf whose value is not zero.
pub verify_non_membership_complete :
    {h : Host} {read : U256 → Smt} {t : Smt} {s : State} (key : U256)
    → IsHash h
    → read 0 ≡ empty
    → Holds h read t s
    → Keys (λ k. k ≢ key) t
    → ((found_in h key t).is_old0 ≡ false → (found_in h key t).not_found_value ≢ 0)
    → (r : FindResult) × (find_key key s ≡ ok r)
      × (verify_non_membership h key r.siblings r.not_found_key r.not_found_value s ≡ ok true)
unfolding find_key split_bits
verify_non_membership_complete {h} {read} {t} {s} key law none_is_zero holds absent set =
    let r : FindResult = found_in h key t in
    let lost = search-absent h key (split_bits key) t absent in
    let ends = search-ends h key (split_bits key) t absent in
    let start =
      proof_bottom-eq-bottom law key r ends.0 ends.1
        (search-InField h key (split_bits key) t holds.fits lost) set in
    (
      r,
      find_key-eq-search key none_is_zero holds,
      accepts h key s r (bottom h r) (find_key-eq-search key none_is_zero holds) lost start (
          rebuild_root-search key 256 (λ k. k) t law holds.placed holds.fits absent
          ∙ ap ok (sym (root_or_zero-Holds holds))),
    )

-- Where the tree is one entry of value zero, no proof is accepted for any other key, although the
-- tree has no entry for it.
pub verify_non_membership-zero_value :
    {h : Host} {read : U256 → Smt} {s : State} (key k : U256) (siblings : List U256)
    (not_found_key not_found_value : U256)
    → read 0 ≡ empty
    → Holds h read (entry k 0) s
    → k ≢ key
    → verify_non_membership h key siblings not_found_key not_found_value s ≢ ok true
unfolding verify_non_membership same_siblings proof_bottom rebuild_root search leaf_result
verify_non_membership-zero_value {h} {read} {s} key k [] not_found_key not_found_value none_is_zero
      holds other accepted =
    let found = find_key-eq-search key none_is_zero holds in
    let set = root_of-nonzero h read none_is_zero (entry k 0) holds.reads (λ e. cc) in
    ground (arith, found, accepted, set, other, root_or_zero-Holds holds)
verify_non_membership-zero_value key k (x ∷ xs) not_found_key not_found_value none_is_zero holds
      other accepted =
    let found = find_key-eq-search key none_is_zero holds in ground (arith, found, accepted, other)
