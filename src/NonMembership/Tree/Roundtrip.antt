-- ===== src/NonMembership/Tree/Roundtrip.antt =====
-- A search after an insertion.
use veil_server_v.Prelude.{
  ◌<◌, ◌≡◌, ◌≢◌, true, false, some, ok, inl, inr, ◌⊎◌, Bool-cases, ◌==◌, arith,
}
use veil_server_v.Poseidon.{U256, bn256_modulus, Host}
use veil_server_v.Admin.{Address, Auth}
use veil_server_v.NonMembership.{FindResult, State, find_key}
use veil_server_v.NonMembership.Insert.{insert_leaf}
use veil_server_v.NonMembership.Tree.{Smt, empty, Keys, Decodes, insert, Has, Holds}
use veil_server_v.NonMembership.Tree.Hashes.{IsHash}
use veil_server_v.NonMembership.Tree.Insert.{insert-Inserted}
use veil_server_v.NonMembership.Tree.Lookup.{insert-Adds, Has-or-not}
use veil_server_v.NonMembership.Tree.Accepts.{insert_leaf-Holds}
use veil_server_v.NonMembership.Tree.Proofs.{find_key_answer}

-- The search for the key in the state gives the value.
abbrev pub Finds : U256 → U256 → State → Type 0
Finds key value s =
    (r : FindResult) × (find_key key s ≡ ok r) × (r.found ≡ true) × (r.found_value ≡ value)

abbrev pub Misses : U256 → State → Type 0
Misses key s = (r : FindResult) × (find_key key s ≡ ok r) × (r.found ≡ false)

-- On a state that holds a tree, either the tree has an entry for the key and the search for the key
-- gives the value of that entry, or the tree has no entry for it and the search misses it.
pub find_key_correct :
    {h : Host} {read : U256 → Smt} {t : Smt} {s : State} (key : U256)
    → read 0 ≡ empty
    → Holds h read t s
    → ((value : U256) × Has key value t × Finds key value s)
      ⊎ (Keys (λ k. k ≢ key) t × Misses key s)
find_key_correct {t = t} key none_is_zero holds =
    let (r, found, hit, miss) = find_key_answer key none_is_zero holds in
    elim (Has-or-not key t) [
      | inl absent ↦ inr (absent, (r, found, miss absent))
      | inr (value, has) ↦ inl (value, has, (r, found, (hit value has).0, (hit value has).1))
    ]

-- What a search for any key gives in a state after an insertion of a key into the tree.
abbrev pub Unchanged : U256 → U256 → Smt → State → Type 0
Unchanged query key t s =
    (query ≡ key)
    ⊎ ((value : U256) × Has query value t × Finds query value s)
    ⊎ (Keys (λ k. k ≢ query) t × Misses query s)

-- After an insertion by the administrator of a key that was not in the tree, the search for the key
-- gives its value. For any other key the search gives what the tree had before: the value of its entry
-- if there was one, and a miss if not. The key and the value are field elements, and the hashes of the
-- two trees are taken not to collide.
pub insert_leaf-find_key :
    {h : Host} {read : U256 → Smt} {t : Smt} {s : State} {admin : Address} (auth : Auth)
    (key value query : U256)
    → IsHash h
    → read 0 ≡ empty
    → Holds h read t s
    → s.admin ≡ some admin
    → auth admin ≡ true
    → key < bn256_modulus
    → value < bn256_modulus
    → Keys (λ k. k ≢ key) t
    → Decodes h read (insert 256 (λ k. k) key value t)
    → (s' : State) × (insert_leaf auth h key value s ≡ ok s')
      × Finds key value s'
      × Unchanged query key t s'
insert_leaf-find_key {t = t} auth key value query law none_is_zero holds by_admin signed key_in
      value_in absent reads_new =
    let (s', run, after, _, _) =
      insert_leaf-Holds auth key value law none_is_zero holds by_admin signed key_in value_in absent
        reads_new in
    let adds = insert-Adds key value 256 (λ k. k) t holds.placed in
    let inserted = insert-Inserted key value 256 (λ k. k) t holds.placed in
    (
      s',
      run,
      (let (r, found, hit, _) = find_key_answer key none_is_zero after in
          (r, found, (hit value adds.added).0, (hit value adds.added).1)),
      (let (r, found, hit, miss) = find_key_answer query none_is_zero after in
          elim (Has-or-not query t) [
            | inr (v, has) ↦
                let kept = hit v (adds.kept query v has) in
                inr (inl (v, has, (r, found, kept.0, kept.1)))
            | inl without ↦ elim (Bool-cases (query == key)) [
              | inl same ↦ inl (ground (arith, same))
              | inr apart ↦ inr (
                  inr (
                    without,
                    (
                      r,
                      found,
                      miss (inserted.keys (λ k. k ≢ query) without (ground (arith, apart))),
                    ),
                  ))
            ]
          ]),
    )
