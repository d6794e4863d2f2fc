-- ===== src/NonMembership/Tree/Hashes.antt =====
-- The contract's two hashes as numbers, under the host's contract for the permutation, and the
-- searches of stored nodes.
use veil_server_v.Prelude.{
  ℕ, zero, suc, ◌<◌, ◌≡◌, ◌≢◌, refl, ◌∙◌, Bool, true, false, some, List, [], ◌∷◌, if◌then◌else◌,
  arith, ne→==, lt→leb, length, get_elem?-eq-get_or, ok, ◌>>=◌,
}
use veil_server_v.Poseidon.{U256, bn256_modulus, Host, hash2_state, poseidon2_hash2}
use veil_server_v.Poseidon.Digest.{
  IsPermutation, digest, digest-lt, modulus_bounds, poseidon2_compress-ok,
}
use veil_server_v.NonMembership.{
  Nodes, hash_leaf, hash_internal, low_bits, view, empty_result, leaf_result, push_sibling,
  find_key_internal,
}
use veil_server_v.NonMembership.Tree.{
  Smt, empty, entry, fork, leaf_hash, root_of, InField, IsPlaced, Stored, Decodes, search, odd,
  half,
}

-- Documented of the host: the hashing state of field elements has a first field element too.
pub record IsHash (h : Host) : Type 0 where
  pub permutes : IsPermutation h
  pub width :
      (key value : U256)
      → key < bn256_modulus
      → value < bn256_modulus
      → 0 < length (hash2_state h key value 1)
  pub in_field :
      (key value : U256)
      → key < bn256_modulus
      → value < bn256_modulus
      → leaf_hash h key value < bn256_modulus

one_is_small : 1 < bn256_modulus
unfolding bn256_modulus
one_is_small = omega arith

pub hash_leaf-ok :
    {h : Host} (key value : U256)
    → IsHash h
    → key < bn256_modulus
    → value < bn256_modulus
    → hash_leaf h key value ≡ ok (leaf_hash h key value)
unfolding hash_leaf poseidon2_hash2 leaf_hash
hash_leaf-ok {h} key value law hk hv = rw (
  lt→leb bn256_modulus key hk,
  lt→leb bn256_modulus value hv,
  lt→leb bn256_modulus 1 one_is_small,
  get_elem?-eq-get_or (hash2_state h key value 1) 0 0 (law.width key value hk hv),
)

pub hash_internal-ok :
    {h : Host} (l r : U256)
    → IsHash h
    → l < bn256_modulus
    → r < bn256_modulus
    → hash_internal h l r ≡ ok (digest h l r)
unfolding hash_internal
hash_internal-ok l r law hl hr = poseidon2_compress-ok l r law.permutes hl hr

pub root_of-lt : {h : Host} (t : Smt) → IsHash h → InField t → root_of h t < bn256_modulus
root_of-lt empty law fits = modulus_bounds.0
root_of-lt (entry key value) law fits = law.in_field key value fits.0 fits.1
root_of-lt {h} (fork l r) law fits = digest-lt h (root_of h l) (root_of h r)

module _ (nodes : Nodes) (key : U256) where
  find-empty : (bits : List Bool) → find_key_internal nodes key bits 0 ≡ ok (empty_result key)
  unfolding find_key_internal
  find-empty [] = refl
  find-empty (b ∷ bits) = refl

  find-entry :
      (bits : List Bool) (root k v : U256)
      → root ≢ 0
      → nodes root ≡ some (1 ∷ k ∷ v ∷ [])
      → find_key_internal nodes key bits root ≡ ok (leaf_result key k v)
  unfolding find_key_internal view
  find-entry [] root k v set here = ground (arith, ne→== root 0 set, here)
  find-entry (b ∷ bits) root k v set here = ground (arith, ne→== root 0 set, here)

  find-fork :
      (b : Bool) (bits : List Bool) (root l r : U256)
      → root ≢ 0
      → nodes root ≡ some (l ∷ r ∷ [])
      → find_key_internal nodes key (b ∷ bits) root ≡ (
          find_key_internal nodes key bits (if b then r else l) >>= λ result.
          ok (push_sibling (if b then l else r) result))
  unfolding find_key_internal view
  find-fork b bits root l r set here = ground (arith, ne→== root 0 set, here)

module _ (h : Host) (read : U256 → Smt) (none_is_zero : read 0 ≡ empty) where
  pub root_of-nonzero : (t : Smt) → Decodes h read t → t ≢ empty → root_of h t ≢ 0
  root_of-nonzero empty reads set e = set refl
  root_of-nonzero (entry key value) reads set e = cc
  root_of-nonzero (fork l r) (here, on_left, on_right) set e = cc

  -- The search of the nodes stored for a tree is the search of the tree.
  pub find_key_internal-eq-search :
      (nodes : Nodes) (key : U256) (m : ℕ) (f : U256 → ℕ) (t : Smt)
      → Stored h nodes t
      → Decodes h read t
      → IsPlaced m f t
      → find_key_internal nodes key (low_bits m (f key)) (root_of h t)
        ≡ ok (search h key (low_bits m (f key)) t)
  unfolding search low_bits
  find_key_internal-eq-search nodes key m f empty stored reads placed =
      find-empty nodes key (low_bits m (f key))
  find_key_internal-eq-search nodes key m f (entry k v) stored reads placed =
      find-entry nodes key (low_bits m (f key)) (leaf_hash h k v) k v
        (root_of-nonzero (entry k v) reads (λ e. cc)) stored
  find_key_internal-eq-search nodes key zero f (fork l r) stored reads placed = absurd placed
  find_key_internal-eq-search nodes key (suc m) f (fork l r) (here, on_left, on_right)
        (read_here, read_left, read_right) (_, _, left, right) =
      let step =
        find-fork nodes key (odd (f key)) (low_bits m (half f key)) (root_of h (fork l r))
          (root_of h l) (root_of h r)
          (root_of-nonzero (fork l r) (read_here, read_left, read_right) (λ e. cc)) here in
      step
      ∙ (elim (odd (f key))
          as (λ b.
            ((find_key_internal nodes key (low_bits m (half f key))
                (if b then root_of h r else root_of h l))
              >>= λ result. ok (push_sibling (if b then root_of h l else root_of h r) result))
            ≡ ok (search h key (b ∷ low_bits m (half f key)) (fork l r))) [
              | true ↦
                  simp
                    (find_key_internal-eq-search nodes key m (half f) r on_right read_right right)
              | false ↦
                  simp (find_key_internal-eq-search nodes key m (half f) l on_left read_left left)
            ])
