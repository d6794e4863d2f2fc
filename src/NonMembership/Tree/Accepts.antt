-- ===== src/NonMembership/Tree/Accepts.antt =====
-- `insert_leaf` on a state that holds a tree.
use veil_server_v.Prelude.{
  ℕ, zero, suc, ◌<◌, ◌≡◌, ◌≢◌, refl, sym, ◌∙◌, ap, Bool, true, false, not, some, List, [], ◌∷◌,
  ◌++◌, arith, update, Outcome, ok, err, subst,
}
use veil_server_v.Poseidon.{U256, bn256_modulus, Host}
use veil_server_v.Admin.{Address, Auth}
use veil_server_v.NonMembership.{
  Error, key_already_exists, leaf_inserted, Nodes, FindResult, State, low_bits, split_bits,
  hash_leaf, empty_result, leaf_result,
}
use veil_server_v.NonMembership.Insert.{
  Climb, is_nil, insert_climb, new_siblings, insert_found, insert_leaf,
}
use veil_server_v.NonMembership.Tree.{
  Smt, empty, entry, fork, leaf_hash, root_of, Keys, InField, IsPlaced, Stored, Decodes, search,
  insert, Has, Holds,
}
use veil_server_v.NonMembership.Tree.Hashes.{IsHash, hash_leaf-ok}
use veil_server_v.NonMembership.Tree.Apart.{update_self, Stored-update, Avoids-Keys}
use veil_server_v.NonMembership.Tree.Insert.{insert-Inserted}
use veil_server_v.NonMembership.Tree.Fresh.{insert-Decodes-entry}
use veil_server_v.NonMembership.Tree.Climb.{path, bottom, begin, Made}
use veil_server_v.NonMembership.Tree.Descent.{Before, descend}
use veil_server_v.NonMembership.Tree.Lookup.{search-Has, search-absent}
use veil_server_v.NonMembership.Tree.Refines.{found_in, find_key-eq-search, all_differ}

search-siblings :
    (h : Host) (key m : ℕ) (f : U256 → ℕ) (t : Smt)
    → IsPlaced m f t
    → t ≢ empty
    → (search h key (low_bits m (f key)) t).is_old0 ≡ true
    → is_nil (search h key (low_bits m (f key)) t).siblings ≡ false
unfolding search low_bits leaf_result
search-siblings h key m f empty placed set old0 = absurd (set refl)
search-siblings h key m f (entry k v) placed set old0 = ground (arith, old0)
search-siblings h key zero f (fork l r) placed set old0 = absurd placed
search-siblings h key (suc m) f (fork l r) placed set old0 = ground arith

-- The leaf that a search without success ends at is of field elements.
pub search-InField :
    (h : Host) (key : U256) (bits : List Bool) (t : Smt)
    → InField t
    → (search h key bits t).found ≡ false
    → (search h key bits t).is_old0 ≡ false
    → ((search h key bits t).not_found_key < bn256_modulus)
      × ((search h key bits t).not_found_value < bn256_modulus)
unfolding search leaf_result empty_result
search-InField h key bits empty fits lost old0 = cc
search-InField h key bits (entry k v) (hk, hv) lost old0 =
    (ground (arith, hk, lost), ground (arith, hv, lost))
search-InField h key [] (fork l r) fits lost old0 = cc
search-InField h key (true ∷ bits) (fork l r) (_, fits) lost old0 =
    search-InField h key bits r fits lost old0
search-InField h key (false ∷ bits) (fork l r) (fits, _) lost old0 =
    search-InField h key bits l fits lost old0

new_siblings-ok :
    {h : Host} (law : IsHash h) (bits : List Bool) (r : FindResult)
    → (r.is_old0 ≡ true → is_nil r.siblings ≡ false)
    → (r.is_old0 ≡ false → (r.not_found_key < bn256_modulus) × (r.not_found_value < bn256_modulus))
    → new_siblings h bits r ≡ ok (path h 256 (λ k. k) bits r, r.is_old0, bottom h r)
unfolding new_siblings path bottom split_bits
new_siblings-ok {h} law bits r more fits = go r.is_old0 more fits
  where
    go :
        (old0 : Bool)
        → (old0 ≡ true → is_nil r.siblings ≡ false)
        → (old0 ≡ false → (r.not_found_key < bn256_modulus) × (r.not_found_value < bn256_modulus))
        → new_siblings h bits (record r { is_old0 = old0 })
          ≡ ok (
            path h 256 (λ k. k) bits (record r { is_old0 = old0 }),
            old0,
            bottom h (record r { is_old0 = old0 }),
          )
    go true more fits = simp (more refl)
    go false more fits =
        simp (hash_leaf-ok r.not_found_key r.not_found_value law (fits refl).0 (fits refl).1)

insert_found-ok :
    (h : Host) (key value : U256) (bits : List Bool) (r : FindResult) (s : State)
    (siblings : List U256) (mixed : Bool) (rt_old leaf : U256) (c : Climb)
    → r.found ≡ false
    → new_siblings h bits r ≡ ok (siblings, mixed, rt_old)
    → hash_leaf h key value ≡ ok leaf
    → insert_climb h (not r.is_old0) siblings bits r.siblings (record {
      mixed = mixed;
      rt_old = rt_old;
      rt = leaf;
      nodes = update s.nodes leaf (some (1 ∷ key ∷ value ∷ []));
    })
      ≡ ok c
    → insert_found h key value bits r s
      ≡ ok (record s {
        root = some c.rt;
        nodes = c.nodes;
        events = s.events ++ (leaf_inserted key value c.rt ∷ []);
      })
unfolding insert_found
insert_found-ok h key value bits r s siblings mixed rt_old leaf c lost path_made leaf_made run =
    simp (lost, path_made, leaf_made, run)

module _ {h : Host} (law : IsHash h) {read : U256 → Smt} (none_is_zero : read 0 ≡ empty) {t : Smt}
    {s : State} (key value : U256) (holds : Holds h read t s) (key_in : key < bn256_modulus)
    (value_in : value < bn256_modulus) (absent : Keys (λ k. k ≢ key) t)
    (reads_new : Decodes h read (insert 256 (λ k. k) key value t)) where
  with_leaf : Nodes
  with_leaf = update s.nodes (leaf_hash h key value) (some (1 ∷ key ∷ value ∷ []))

  leaf_stored : Stored h with_leaf (entry key value)
  unfolding with_leaf
  leaf_stored = update_self s.nodes (leaf_hash h key value) _

  before : Before h read with_leaf key value 256 (λ k. k) t
  unfolding with_leaf
  before = record {
    placed = holds.placed;
    absent = absent;
    differs = all_differ key t key_in holds.fits absent;
    proper = holds.proper;
    fits = holds.fits;
    reads = holds.reads;
    reads_new = reads_new;
    stored = Stored-update h s.nodes (leaf_hash h key value) _ t holds.stored (
        Avoids-Keys h read (leaf_hash h key value) (entry key value) t (λ k same other. other same)
          (insert-Decodes-entry h read key value 256 (λ k. k) t holds.placed reads_new) refl
          (omega arith) holds.reads absent);
  }

  -- The state after the insertion holds the new tree.
  Accepted : Outcome Error State → Type 0
  Accepted o =
      (s' : State) × (o ≡ ok s')
      × Holds h read (insert 256 (λ k. k) key value t) s'
      × (s'.events
          ≡ s.events
            ++ (leaf_inserted key value (root_of h (insert 256 (λ k. k) key value t)) ∷ []))
      × (s'.admin ≡ s.admin)

  accepted :
      (c : Climb)
      → insert_found h key value (split_bits key) (found_in h key t) s
        ≡ ok (record s {
          root = some c.rt;
          nodes = c.nodes;
          events = s.events ++ (leaf_inserted key value c.rt ∷ []);
        })
      → c.rt ≡ root_of h (insert 256 (λ k. k) key value t)
      → Stored h c.nodes (insert 256 (λ k. k) key value t)
      → Accepted (insert_found h key value (split_bits key) (found_in h key t) s)
  unfolding Accepted
  accepted c run new stored =
      let inserted = insert-Inserted key value 256 (λ k. k) t holds.placed in
      (
        _,
        run,
        record {
          root_set = ap some new;
          placed = inserted.placed before.differs;
          proper = inserted.proper holds.proper;
          fits = inserted.fits holds.fits key_in value_in;
          reads = reads_new;
          stored = stored;
        },
        ap (λ x. s.events ++ (leaf_inserted key value x ∷ [])) new,
        refl,
      )

  nonempty-Accepted :
      t ≢ empty → Accepted (insert_found h key value (split_bits key) (found_in h key t) s)
  unfolding split_bits begin Made with_leaf
  nonempty-Accepted set =
      let r : FindResult = found_in h key t in
      let lost = search-absent h key (split_bits key) t absent in
      let (c, run, made) =
        descend law read none_is_zero key value key_in value_in with_leaf leaf_stored 256 (λ k. k) t
          before in
      accepted c
        (insert_found-ok h key value (split_bits key) r s (path h 256 (λ k. k) (split_bits key) r)
          r.is_old0 (bottom h r) (leaf_hash h key value) c lost
          (new_siblings-ok law (split_bits key) r
            (search-siblings h key 256 (λ k. k) t holds.placed set)
            (search-InField h key (split_bits key) t holds.fits lost))
          (hash_leaf-ok key value law key_in value_in) run)
        made.new made.stored

empty-Accepted :
    {h : Host} (law : IsHash h) {read : U256 → Smt} (none_is_zero : read 0 ≡ empty) {s : State}
    (key value : U256) (holds : Holds h read empty s) (key_in : key < bn256_modulus)
    (value_in : value < bn256_modulus)
    (reads_new : Decodes h read (insert 256 (λ k. k) key value empty))
    → Accepted law none_is_zero key value holds key_in value_in tt reads_new
        (insert_found h key value (split_bits key) (found_in h key empty) s)
unfolding new_siblings insert_climb search empty_result insert
empty-Accepted {h} law {read} none_is_zero {s} key value holds key_in value_in reads_new =
    accepted law none_is_zero key value holds key_in value_in tt reads_new
      (record {
        mixed = false;
        rt_old = 0;
        rt = leaf_hash h key value;
        nodes = update s.nodes (leaf_hash h key value) (some (1 ∷ key ∷ value ∷ []));
      })
      (insert_found-ok h key value (split_bits key) (found_in h key empty) s [] false 0
        (leaf_hash h key value) _ refl refl (hash_leaf-ok key value law key_in value_in) refl)
      refl (update_self s.nodes (leaf_hash h key value) _)

insert_found-Accepted :
    {h : Host} (law : IsHash h) {read : U256 → Smt} (none_is_zero : read 0 ≡ empty) (t : Smt)
    {s : State} (key value : U256) (holds : Holds h read t s) (key_in : key < bn256_modulus)
    (value_in : value < bn256_modulus) (absent : Keys (λ k. k ≢ key) t)
    (reads_new : Decodes h read (insert 256 (λ k. k) key value t))
    → Accepted law none_is_zero key value holds key_in value_in absent reads_new
        (insert_found h key value (split_bits key) (found_in h key t) s)
insert_found-Accepted law none_is_zero empty key value holds key_in value_in absent reads_new =
    empty-Accepted law none_is_zero key value holds key_in value_in reads_new
insert_found-Accepted law none_is_zero (entry k v) key value holds key_in value_in absent
      reads_new =
    nonempty-Accepted law none_is_zero key value holds key_in value_in absent reads_new (λ e. cc)
insert_found-Accepted law none_is_zero (fork l r) key value holds key_in value_in absent reads_new =
    nonempty-Accepted law none_is_zero key value holds key_in value_in absent reads_new (λ e. cc)

insert_leaf-eq-found :
    {h : Host} {read : U256 → Smt} {t : Smt} {s : State} {admin : Address} (auth : Auth)
    (key value : U256)
    → read 0 ≡ empty
    → Holds h read t s
    → s.admin ≡ some admin
    → auth admin ≡ true
    → insert_leaf auth h key value s
      ≡ insert_found h key value (split_bits key) (found_in h key t) s
unfolding insert_leaf
insert_leaf-eq-found auth key value none_is_zero holds by_admin signed =
    simp (by_admin, signed, find_key-eq-search key none_is_zero holds)

-- An insertion by the administrator of a key that is not in the tree, and of a value, both field
-- elements, succeeds: the new state holds the tree with the entry added, publishes the entry with
-- the new root and keeps the administrator. The hashes of the two trees are taken not to collide.
pub insert_leaf-Holds :
    {h : Host} {read : U256 → Smt} {t : Smt} {s : State} {admin : Address} (auth : Auth)
    (key value : U256)
    → IsHash h
    → read 0 ≡ empty
    → Holds h read t s
    → s.admin ≡ some admin
    → auth admin ≡ true
    → key < bn256_modulus
    → value < bn256_modulus
    → Keys (λ k. k ≢ key) t
    → Decodes h read (insert 256 (λ k. k) key value t)
    → (s' : State) × (insert_leaf auth h key value s ≡ ok s')
      × Holds h read (insert 256 (λ k. k) key value t) s'
      × (s'.events
          ≡ s.events
            ++ (leaf_inserted key value (root_of h (insert 256 (λ k. k) key value t)) ∷ []))
      × (s'.admin ≡ s.admin)
unfolding Accepted
insert_leaf-Holds {h} {read} {t} {s} auth key value law none_is_zero holds by_admin signed key_in
      value_in absent reads_new =
    subst (Accepted law none_is_zero key value holds key_in value_in absent reads_new)
      (sym (insert_leaf-eq-found auth key value none_is_zero holds by_admin signed))
      (insert_found-Accepted law none_is_zero t key value holds key_in value_in absent reads_new)

-- An insertion by the administrator of a key that the tree has an entry for is refused.
pub insert_leaf-duplicate :
    {h : Host} {read : U256 → Smt} {t : Smt} {s : State} {admin : Address} (auth : Auth)
    (key value held : U256)
    → read 0 ≡ empty
    → Holds h read t s
    → s.admin ≡ some admin
    → auth admin ≡ true
    → Has key held t
    → insert_leaf auth h key value s ≡ err key_already_exists
unfolding insert_found split_bits
insert_leaf-duplicate {h} {read} {t} {s} auth key value held none_is_zero holds by_admin signed
      has =
    let hit = search-Has h key held 256 (λ k. k) t holds.placed has in
    insert_leaf-eq-found auth key value none_is_zero holds by_admin signed ∙ simp (hit.0)
