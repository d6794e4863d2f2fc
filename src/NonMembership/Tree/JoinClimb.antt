-- ===== src/NonMembership/Tree/JoinClimb.antt =====
-- The loop of `insert_leaf` below the path that was found, where a new key meets the leaf of another.
use veil_server_v.Prelude.{
  ℕ, ◌<◌, ◌≡◌, refl, sym, ◌∙◌, ap, Bool, true, false, not, none, some, List, [], ◌∷◌, ◌++◌, arith,
  update, ok, ◌>>=◌, subst,
}
use veil_server_v.Poseidon.{U256, bn256_modulus, Host}
use veil_server_v.Poseidon.Digest.{digest, modulus_bounds}
use veil_server_v.NonMembership.{low_bits}
use veil_server_v.NonMembership.Insert.{
  Climb, bits_eq, common_zeros, is_nil, insert_round, insert_climb,
}
use veil_server_v.NonMembership.Tree.{
  Smt, empty, entry, fork, leaf_hash, root_of, InField, Stored, Decodes, Avoids, odd, join, Differs,
}
use veil_server_v.NonMembership.Tree.Hashes.{IsHash, root_of-lt}
use veil_server_v.NonMembership.Tree.Apart.{
  update-other, update_self, Stored-update, Avoids-smaller,
}
use veil_server_v.NonMembership.Tree.Insert.{join-induction, Differs-deeper}
use veil_server_v.NonMembership.Tree.Round.{insert_round-plain, plain_round}

common_zeros-same :
    (a b : Bool) (as_ bs : List Bool)
    → a ≡ b
    → common_zeros (a ∷ as_) (b ∷ bs) ≡ 0 ∷ common_zeros as_ bs
unfolding common_zeros bits_eq
common_zeros-same true b as_ bs e = ground (arith, e)
common_zeros-same false b as_ bs e = ground (arith, e)

common_zeros-parted :
    (a b : Bool) (as_ bs : List Bool) → a ≡ not b → common_zeros (a ∷ as_) (b ∷ bs) ≡ []
unfolding common_zeros bits_eq
common_zeros-parted true b as_ bs e = ground (arith, e)
common_zeros-parted false b as_ bs e = ground (arith, e)

pub is_nil-append : (xs : List U256) (x : U256) → is_nil (xs ++ (x ∷ [])) ≡ false
is_nil-append [] x = refl
is_nil-append (y ∷ xs) x = refl

module _ {h : Host} (law : IsHash h) (read : U256 → Smt) (k v key value : U256) (start : Climb)
    (start_plain : start.mixed ≡ false) (start_new : start.rt ≡ leaf_hash h key value)
    (old_in : InField (entry k v)) (new_in : InField (entry key value))
    (old_stored : Stored h start.nodes (entry k v))
    (new_stored : Stored h start.nodes (entry key value)) where
  pub record Joined (u : Smt) (c : Climb) : Type 0 where
    pub plain : c.mixed ≡ false
    pub old : c.rt_old ≡ start.rt_old
    pub new : c.rt ≡ root_of h u
    pub stored : Stored h c.nodes u
    pub frame : (x : U256) → Avoids h x u → c.nodes x ≡ start.nodes x
    pub fits : InField u

  -- A round of the loop over the sibling of a joined part.
  last_round :
      (b : Bool) (bits : List Bool)
      → insert_climb h true (leaf_hash h k v ∷ []) (b ∷ bits) [] start
        ≡ ok (plain_round h b (leaf_hash h k v) start)
  unfolding insert_climb
  last_round b bits =
      insert_round-plain law true true b (leaf_hash h k v) start start_plain refl
        (root_of-lt (entry k v) law old_in)
        (subst (λ x. x < bn256_modulus) (sym start_new) (root_of-lt (entry key value) law new_in))

  zero_round :
      (b : Bool) (bits : List Bool) (rest : List U256) (u : Smt) (c : Climb)
      → is_nil rest ≡ false
      → insert_climb h true rest bits [] start ≡ ok c
      → Joined u c
      → insert_climb h true (0 ∷ rest) (b ∷ bits) [] start ≡ ok (plain_round h b 0 c)
  unfolding insert_climb
  zero_round b bits rest u c more run below =
      ap (λ o. o >>= insert_round h true (is_nil rest) 0 (some b) none) run
      ∙ insert_round-plain law true (is_nil rest) b 0 c below.plain (simp more) modulus_bounds.0
          (subst (λ x. x < bn256_modulus) (sym below.new) (root_of-lt u law below.fits))

  Joined-fork :
      (l r : Smt) (c : Climb)
      → c.mixed ≡ false
      → c.rt_old ≡ start.rt_old
      → Stored h c.nodes l
      → Stored h c.nodes r
      → ((x : U256) → Avoids h x l → Avoids h x r → c.nodes x ≡ start.nodes x)
      → InField l
      → InField r
      → Decodes h read (fork l r)
      → Joined (fork l r) (record {
        mixed = false;
        rt_old = c.rt_old;
        rt = digest h (root_of h l) (root_of h r);
        nodes =
            update c.nodes
              (digest h (root_of h l) (root_of h r))
              (some (root_of h l ∷ root_of h r ∷ []));
      })
  Joined-fork l r c plain old on_l on_r frame in_l in_r (here, reads_l, reads_r) =
      let x : U256 = digest h (root_of h l) (root_of h r) in
      record {
        plain = refl;
        old = old;
        new = refl;
        stored = (
          update_self c.nodes x _,
          Stored-update h c.nodes x _ l on_l
              (Avoids-smaller h read x (fork l r) l here reads_l (omega arith)),
          Stored-update h c.nodes x _ r on_r
              (Avoids-smaller h read x (fork l r) r here reads_r (omega arith)),
        );
        frame = λ y (away, from_l, from_r).
            update-other c.nodes x y _ (λ e. away (sym e)) ∙ frame y from_l from_r;
        fits = (in_l, in_r);
      }

  unfoldable pub Run : ℕ → (U256 → ℕ) → Smt → Type 0
  Run m f u =
      Differs m (f k) (f key)
      → Decodes h read u
      → (c : Climb) × (insert_climb h true
            (common_zeros (low_bits m (f k)) (low_bits m (f key)) ++ (leaf_hash h k v ∷ []))
            (low_bits m (f key)) [] start
          ≡ ok c)
        × Joined u c

  -- Over the common zeros and the old leaf, the loop makes the join of the two entries.
  pub join_climb : (m : ℕ) (f : U256 → ℕ) → Run m f (join m f k v key value)
  unfolding Run low_bits
  join_climb =
      join-induction Run k v key value (λ f differs. absurd differs)
        (λ m f u step ek ekey differs (here, none_left, reads).
          let (c, run, below) = step (Differs-deeper m (f k) (f key) true ek ekey differs) reads in
          (
            plain_round h true 0 c,
            rw (common_zeros-same (odd (f k)) (odd (f key)) _ _ (ek ∙ sym ekey), ekey)
                (zero_round true _ _ u c (is_nil-append _ _) run below),
            subst (λ x. Joined (fork empty u) (plain_round h true 0 (record c { rt = x })))
                (sym below.new)
                (Joined-fork empty u c below.plain below.old tt below.stored (λ y _. below.frame y)
                  tt below.fits (here, none_left, reads)),
          ))
        (λ m f u step ek ekey differs (here, reads, none_right).
          let (c, run, below) = step (Differs-deeper m (f k) (f key) false ek ekey differs) reads in
          (
            plain_round h false 0 c,
            rw (common_zeros-same (odd (f k)) (odd (f key)) _ _ (ek ∙ sym ekey), ekey)
                (zero_round false _ _ u c (is_nil-append _ _) run below),
            subst (λ x. Joined (fork u empty) (plain_round h false 0 (record c { rt = x })))
                (sym below.new)
                (Joined-fork u empty c below.plain below.old below.stored tt
                  (λ y away _. below.frame y away) below.fits tt (here, reads, none_right)),
          ))
        (λ m f ek ekey differs reads. (
          plain_round h true (leaf_hash h k v) start,
          rw (common_zeros-parted (odd (f k)) (odd (f key)) _ _ (ek ∙ ap not (sym ekey)), ekey)
              (last_round true _),
          subst
              (λ x.
                Joined (fork (entry k v) (entry key value))
                  (plain_round h true (leaf_hash h k v) (record start { rt = x })))
              (sym start_new)
              (Joined-fork (entry k v) (entry key value) start start_plain refl old_stored
                new_stored (λ y _ _. refl) old_in new_in reads),
        ))
        (λ m f ek ekey differs reads. (
          plain_round h false (leaf_hash h k v) start,
          rw (common_zeros-parted (odd (f k)) (odd (f key)) _ _ (ek ∙ ap not (sym ekey)), ekey)
              (last_round false _),
          subst
              (λ x.
                Joined (fork (entry key value) (entry k v))
                  (plain_round h false (leaf_hash h k v) (record start { rt = x })))
              (sym start_new)
              (Joined-fork (entry key value) (entry k v) start start_plain refl new_stored
                old_stored (λ y _ _. refl) new_in old_in reads),
        ))
