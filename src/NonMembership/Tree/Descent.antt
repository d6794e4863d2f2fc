-- ===== src/NonMembership/Tree/Descent.antt =====
-- The loop of `insert_leaf`, by induction on the tree.
use veil_server_v.Prelude.{
  ℕ, zero, suc, ◌<◌, ◌≡◌, ◌≢◌, refl, Bool, true, false, [], ◌∷◌, arith, ne→==, inl, inr,
}
use veil_server_v.Poseidon.{U256, bn256_modulus, Host}
use veil_server_v.NonMembership.{Nodes, FindResult, low_bits, empty_result, leaf_result}
use veil_server_v.NonMembership.Insert.{Climb, insert_climb}
use veil_server_v.NonMembership.Tree.{
  Smt, empty, entry, fork, leaf_hash, root_of, Keys, InField, IsProper, IsPlaced, Stored, Decodes,
  odd, half, search, insert, Differs,
}
use veil_server_v.NonMembership.Tree.Hashes.{IsHash}
use veil_server_v.NonMembership.Tree.Apart.{Stored-frame, Avoids-smaller}
use veil_server_v.NonMembership.Tree.Insert.{insert-Inserted, Differs-deeper, Keys-map}
use veil_server_v.NonMembership.Tree.Fresh.{insert-Avoids}
use veil_server_v.NonMembership.Tree.JoinClimb.{Run, join_climb}
use veil_server_v.NonMembership.Tree.Climb.{path, bottom, begin, Made, Ready, fork_right, fork_left}

-- What an insertion finds at a level: a tree without the key, whose nodes are stored.
pub record Before (h : Host) (read : U256 → Smt) (nodes : Nodes) (key value : U256) (m : ℕ)
    (f : U256 → ℕ) (t : Smt) : Type 0 where
  pub placed : IsPlaced m f t
  pub absent : Keys (λ k. k ≢ key) t
  pub differs : Keys (λ k. Differs m (f k) (f key)) t
  pub proper : IsProper t
  pub fits : InField t
  pub reads : Decodes h read t
  pub reads_new : Decodes h read (insert m f key value t)
  pub stored : Stored h nodes t

other_leaf : U256 → U256 → FindResult
other_leaf k v = record {
  found = false;
  siblings = [];
  found_value = 0;
  not_found_key = k;
  not_found_value = v;
  is_old0 = false;
}

leaf_result-other : (key k v : U256) → k ≢ key → leaf_result key k v ≡ other_leaf k v
unfolding leaf_result other_leaf
leaf_result-other key k v other = rw (ne→== k key other)

module _ {h : Host} (law : IsHash h) (read : U256 → Smt) (none_is_zero : read 0 ≡ empty)
    (key value : U256) (key_in : key < bn256_modulus) (value_in : value < bn256_modulus)
    (nodes : Nodes) (leaf_stored : Stored h nodes (entry key value)) where
  at_entry :
      (m : ℕ) (f : U256 → ℕ) (k v : U256)
      → Before h read nodes key value m f (entry k v)
      → Made law read none_is_zero key value key_in value_in nodes leaf_stored m f
          (low_bits m (f key))
          (leaf_result key k v)
          (entry k v)
          (insert m f key value (entry k v))
  unfolding Made begin bottom path Run other_leaf insert
  at_entry m f k v before =
      let start : Climb = record {
        mixed = false;
        rt_old = leaf_hash h k v;
        rt = leaf_hash h key value;
        nodes = nodes;
      } in
      let (c, run, joined) =
        join_climb law read k v key value start refl refl before.fits (key_in, value_in)
          before.stored leaf_stored m f before.differs before.reads_new in
      rw (leaf_result-other key k v before.absent) (
        c,
        run,
        record {
          mixed = inr (refl, refl);
          old = joined.old;
          new = joined.new;
          stored = joined.stored;
          frame = λ x _ away. joined.frame x away;
        },
      )

  Ready-right :
      (m : ℕ) (f : U256 → ℕ) (s t : Smt)
      → odd (f key) ≡ true
      → Before h read nodes key value m (half f) t
      → IsPlaced (suc m) f (fork s t)
      → IsProper (fork s t)
      → InField s
      → Keys (λ k. k ≢ key) s
      → Decodes h read (fork s t)
      → Decodes h read (fork s (insert m (half f) key value t))
      → Stored h nodes s
      → Ready law read none_is_zero key value key_in value_in nodes leaf_stored s t
          (insert m (half f) key value t)
          (fork s t)
          (fork s (insert m (half f) key value t))
  Ready-right m f s t e before (on_s, on_t, _, _) (two, proper_s, _) in_s without (here, reads_s, _)
        (here_new, _, reads_u) stored_s =
      let inserted = insert-Inserted key value m (half f) t before.placed in
      let u : Smt = insert m (half f) key value t in
      let old : U256 = root_of h (fork s t) in
      let new : U256 = root_of h (fork s u) in
      record {
        sibling_in = in_s;
        old_in = before.fits;
        new_in = inserted.fits before.fits key_in value_in;
        two = two;
        reads_sibling = reads_s;
        old_apart = (
          Avoids-smaller h read old (fork s t) s here reads_s (omega arith),
          insert-Avoids h read key value old (fork s t) here (without, before.absent) m (half f) t
              before.placed reads_u (omega arith),
        );
        new_apart = (
          Avoids-smaller h read new (fork s u) s here_new reads_s (omega arith),
          Avoids-smaller h read new (fork s u) u here_new reads_u (omega arith),
        );
        keeps = λ after same.
            Stored-frame h read nodes after t u s (λ k even odd_. cc) same before.reads reads_u
              reads_s on_t (inserted.keys (λ k. odd (f k) ≡ true) on_t e) on_s proper_s stored_s;
      }

  Ready-left :
      (m : ℕ) (f : U256 → ℕ) (s t : Smt)
      → odd (f key) ≡ false
      → Before h read nodes key value m (half f) t
      → IsPlaced (suc m) f (fork t s)
      → IsProper (fork t s)
      → InField s
      → Keys (λ k. k ≢ key) s
      → Decodes h read (fork t s)
      → Decodes h read (fork (insert m (half f) key value t) s)
      → Stored h nodes s
      → Ready law read none_is_zero key value key_in value_in nodes leaf_stored s t
          (insert m (half f) key value t)
          (fork t s)
          (fork (insert m (half f) key value t) s)
  Ready-left m f s t e before (on_t, on_s, _, _) (two, _, proper_s) in_s without (here, _, reads_s)
        (here_new, reads_u, _) stored_s =
      let inserted = insert-Inserted key value m (half f) t before.placed in
      let u : Smt = insert m (half f) key value t in
      let old : U256 = root_of h (fork t s) in
      let new : U256 = root_of h (fork u s) in
      record {
        sibling_in = in_s;
        old_in = before.fits;
        new_in = inserted.fits before.fits key_in value_in;
        two = omega (arith, two);
        reads_sibling = reads_s;
        old_apart = (
          Avoids-smaller h read old (fork t s) s here reads_s (omega arith),
          insert-Avoids h read key value old (fork t s) here (before.absent, without) m (half f) t
              before.placed reads_u (omega arith),
        );
        new_apart = (
          Avoids-smaller h read new (fork u s) s here_new reads_s (omega arith),
          Avoids-smaller h read new (fork u s) u here_new reads_u (omega arith),
        );
        keeps = λ after same.
            Stored-frame h read nodes after t u s (λ k odd_ even. cc) same before.reads reads_u
              reads_s on_t (inserted.keys (λ k. odd (f k) ≡ false) on_t e) on_s proper_s stored_s;
      }

  Step : ℕ → (U256 → ℕ) → Smt → Type 0
  Step m f t =
      Before h read nodes key value m f t
      → Made law read none_is_zero key value key_in value_in nodes leaf_stored m f
          (low_bits m (f key)) (search h key (low_bits m (f key)) t) t (insert m f key value t)

  pub descend :
      (m : ℕ) (f : U256 → ℕ) (t : Smt)
      → Before h read nodes key value m f t
      → Made law read none_is_zero key value key_in value_in nodes leaf_stored m f
          (low_bits m (f key))
          (search h key (low_bits m (f key)) t)
          t
          (insert m f key value t)
  unfolding Step Made begin bottom path low_bits search insert insert_climb empty_result
  descend m f empty before = (
    _,
    refl,
    record {
      mixed = inl refl;
      old = refl;
      new = refl;
      stored = leaf_stored;
      frame = λ x _ _. refl;
    },
  )
  descend m f (entry k v) before = at_entry m f k v before
  descend zero f (fork l r) before = absurd before.placed
  descend (suc m) f (fork l r) before =
      go (odd (f key)) refl before.reads_new (descend m (half f) l) (descend m (half f) r)
    where
      go :
          (b : Bool)
          → odd (f key) ≡ b
          → Decodes h read (elim b [
            | true ↦ fork l (insert m (half f) key value r)
            | false ↦ fork (insert m (half f) key value l) r
          ])
          → Step m (half f) l
          → Step m (half f) r
          → Made law read none_is_zero key value key_in value_in nodes leaf_stored
              (suc m)
              f
              (b ∷ low_bits m (half f key))
              (search h key (b ∷ low_bits m (half f key)) (fork l r))
              (fork l r)
              (elim b [
                | true ↦ fork l (insert m (half f) key value r)
                | false ↦ fork (insert m (half f) key value l) r
              ])
      go true e reads_new step_l step_r =
          let on_right : Before h read nodes key value m (half f) r = record {
            placed = before.placed.3;
            absent = before.absent.1;
            differs =
                Keys-map r (λ k bit. Differs-deeper m (f k) (f key) true bit e) before.placed.1
                  before.differs.1;
            proper = before.proper.2;
            fits = before.fits.1;
            reads = before.reads.2;
            reads_new = reads_new.2;
            stored = before.stored.2;
          } in
          fork_right law read none_is_zero key value key_in value_in nodes leaf_stored m f
            (low_bits m (half f key)) (search h key (low_bits m (half f key)) r) l r
            (insert m (half f) key value r)
            (Ready-right m f l r e on_right before.placed before.proper before.fits.0
              before.absent.0 before.reads reads_new before.stored.1)
            (step_r on_right)
      go false e reads_new step_l step_r =
          let on_left : Before h read nodes key value m (half f) l = record {
            placed = before.placed.2;
            absent = before.absent.0;
            differs =
                Keys-map l (λ k bit. Differs-deeper m (f k) (f key) false bit e) before.placed.0
                  before.differs.0;
            proper = before.proper.1;
            fits = before.fits.0;
            reads = before.reads.1;
            reads_new = reads_new.1;
            stored = before.stored.1;
          } in
          fork_left law read none_is_zero key value key_in value_in nodes leaf_stored m f
            (low_bits m (half f key)) (search h key (low_bits m (half f key)) l) r l
            (insert m (half f) key value l)
            (Ready-left m f r l e on_left before.placed before.proper before.fits.1 before.absent.1
              before.reads reads_new before.stored.2)
            (step_l on_left)
