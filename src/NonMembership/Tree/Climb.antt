-- ===== src/NonMembership/Tree/Climb.antt =====
-- The loop of `insert_leaf` over the siblings of the new path makes the specification's insertion.
use veil_server_v.Prelude.{
  drop, ℕ, suc, ◌+◌, ◌/◌, ◌≤◌, ◌<◌, ◌≡◌, ◌≢◌, refl, sym, ◌∙◌, ap, Bool, true, false, not, ◌&&◌,
  ◌||◌, none, List, [], ◌∷◌, ◌++◌, ◌==◌, arith, if◌then◌else◌, length, ne→==, update, ok, subst,
  inl, inr,
}
use veil_server_v.Poseidon.{U256, bn256_modulus, Host}
use veil_server_v.NonMembership.{Nodes, FindResult, low_bits, push_sibling}
use veil_server_v.NonMembership.Insert.{Climb, common_zeros, is_nil, insert_climb}
use veil_server_v.NonMembership.Tree.{
  Smt, empty, entry, fork, leaf_hash, root_of, count, InField, Stored, Decodes, Avoids, half,
}
use veil_server_v.NonMembership.Tree.Hashes.{IsHash, root_of-lt, root_of-nonzero}
use veil_server_v.NonMembership.Tree.Apart.{update_self, update-other, Stored-update}
use veil_server_v.NonMembership.Tree.JoinClimb.{is_nil-append}
use veil_server_v.NonMembership.Tree.Round.{Climbed, mixed_round, replaced, insert_round-mixed}

-- The siblings of the new path of a key with the bits, below a search with the result.
unfoldable pub path : Host → ℕ → (U256 → ℕ) → List Bool → FindResult → List U256
path h m f bits r =
    if r.is_old0
    then r.siblings
    else r.siblings
      ++ (common_zeros (drop (length r.siblings) (low_bits m (f r.not_found_key)))
            (drop (length r.siblings) bits)
          ++ (leaf_hash h r.not_found_key r.not_found_value ∷ []))

unfoldable pub bottom : Host → FindResult → U256
bottom h r = if r.is_old0 then 0 else leaf_hash h r.not_found_key r.not_found_value

pub path-push :
    (h : Host) (m : ℕ) (f : U256 → ℕ) (b : Bool) (bits : List Bool) (x : U256) (r : FindResult)
    → path h (suc m) f (b ∷ bits) (push_sibling x r) ≡ x ∷ path h m (half f) bits r
unfolding path low_bits
path-push h m f b bits x r = go r.is_old0
  where
    go :
        (old0 : Bool)
        → (if old0
            then x ∷ r.siblings
            else x
              ∷ (r.siblings
                  ++ (common_zeros
                        (drop (length r.siblings) (low_bits m (f r.not_found_key / 2)))
                        (drop (length r.siblings) bits)
                      ++ (leaf_hash h r.not_found_key r.not_found_value ∷ []))))
          ≡ x
            ∷ (if old0
                then r.siblings
                else r.siblings
                  ++ (common_zeros
                        (drop (length r.siblings) (low_bits m (f r.not_found_key / 2)))
                        (drop (length r.siblings) bits)
                      ++ (leaf_hash h r.not_found_key r.not_found_value ∷ [])))
    go true = refl
    go false = refl

path-is_nil :
    (h : Host) (m : ℕ) (f : U256 → ℕ) (bits : List Bool) (r : FindResult)
    → r.is_old0 ≡ false
    → is_nil (path h m f bits r) ≡ false
unfolding path
path-is_nil h m f bits r e = rw e (longer r.siblings _ _)
  where
    longer : (xs ys : List U256) (x : U256) → is_nil (xs ++ (ys ++ (x ∷ []))) ≡ false
    longer [] ys x = is_nil-append ys x
    longer (y ∷ xs) ys x = refl

not_both : (a b : Bool) → (a ≡ false → b ≡ false) → (not a && b) ≡ false
not_both true b only = refl
not_both false b only = only refl

nonempty : (t : Smt) → 0 < count t → t ≢ empty
nonempty t some_entry e = let none_there = ap count e in omega (arith, some_entry, none_there)

module _ {h : Host} (law : IsHash h) (read : U256 → Smt) (none_is_zero : read 0 ≡ empty)
    (key value : U256) (key_in : key < bn256_modulus) (value_in : value < bn256_modulus)
    (nodes : Nodes) (leaf_stored : Stored h nodes (entry key value)) where
  unfoldable pub begin : FindResult → Climb
  begin r = record {
    mixed = r.is_old0;
    rt_old = bottom h r;
    rt = leaf_hash h key value;
    nodes = nodes;
  }

  -- The loop over the path below a search of `t` makes `u` of it.
  unfoldable pub Made : ℕ → (U256 → ℕ) → List Bool → FindResult → Smt → Smt → Type 0
  Made m f bits r t u =
      (c : Climb) × (insert_climb h (not r.is_old0) (path h m f bits r) bits r.siblings (begin r)
        ≡ ok c)
      × Climbed h (not r.is_old0) nodes t u c

  -- What a fork's round needs of the new part and its sibling.
  pub record Ready (s t u old new : Smt) : Type 0 where
    pub sibling_in : InField s
    pub old_in : InField t
    pub new_in : InField u
    pub two : 2 ≤ count s + count t
    pub reads_sibling : Decodes h read s
    pub old_apart : Avoids h (root_of h old) s × Avoids h (root_of h old) u
    pub new_apart : Avoids h (root_of h new) s × Avoids h (root_of h new) u
    pub keeps :
        (after : Nodes)
        → ((x : U256) → Avoids h x t → Avoids h x u → after x ≡ nodes x)
        → Stored h after s

  sibling_is_set :
      (s t u old new : Smt) → Ready s t u old new → count t ≡ 1 → (root_of h s == 0) ≡ false
  sibling_is_set s t u old new ready one = ne→== (root_of h s) 0 (
      root_of-nonzero h read none_is_zero s ready.reads_sibling
        (nonempty s (omega (arith, ready.two, one))))

  round_is_mixed :
      (xs : List U256) (r : FindResult) (s t u old new : Smt) (c : Climb)
      → Ready s t u old new
      → (r.is_old0 ≡ false → is_nil xs ≡ false)
      → Climbed h (not r.is_old0) nodes t u c
      → (c.mixed || (not (is_nil xs) && not (root_of h s == 0))) ≡ true
  round_is_mixed xs r s t u old new c ready more below = elim below.mixed [
    | inl e ↦ simp e
    | inr (one, added) ↦
        rw (more (ground (arith, added)), sibling_is_set s t u old new ready one) (or-true c.mixed)
  ]
    where
      or-true : (b : Bool) → (b || true) ≡ true
      or-true true = refl
      or-true false = refl

  round_runs :
      (m : ℕ) (f : U256 → ℕ) (b : Bool) (bits : List Bool) (r : FindResult) (s t u old new : Smt)
      (c : Climb)
      → Ready s t u old new
      → insert_climb h (not r.is_old0) (path h m (half f) bits r) bits r.siblings (begin r) ≡ ok c
      → Climbed h (not r.is_old0) nodes t u c
      → insert_climb h
          (not r.is_old0)
          (path h (suc m) f (b ∷ bits) (push_sibling (root_of h s) r))
          (b ∷ bits)
          (root_of h s ∷ r.siblings)
          (begin r)
        ≡ ok (mixed_round h b (root_of h s) c)
  unfolding insert_climb
  round_runs m f b bits r s t u old new c ready run below =
      rw (path-push h m f b bits (root_of h s) r, run)
        (insert_round-mixed law (not r.is_old0) (is_nil (path h m (half f) bits r)) b (root_of h s)
          c
          (round_is_mixed (path h m (half f) bits r) r s t u old new c ready
            (path-is_nil h m (half f) bits r) below)
          (not_both r.is_old0 (is_nil (path h m (half f) bits r)) (path-is_nil h m (half f) bits r))
          (root_of-lt s law ready.sibling_in)
          (subst (λ x. x < bn256_modulus) (sym below.old) (root_of-lt t law ready.old_in))
          (subst (λ x. x < bn256_modulus) (sym below.new) (root_of-lt u law ready.new_in)))

  after-round :
      (added : Bool) (s t u old new : Smt) (c : Climb) (left right : U256)
      → Ready s t u old new
      → Climbed h added nodes t u c
      → Stored h (replaced c.nodes (root_of h old) (root_of h new) left right) s
        × Stored h (replaced c.nodes (root_of h old) (root_of h new) left right) u
        × ((x : U256)
            → root_of h old ≢ x
            → root_of h new ≢ x
            → Avoids h x t
            → Avoids h x u
            → replaced c.nodes (root_of h old) (root_of h new) left right x ≡ nodes x)
  after-round added s t u old new c left right ready below = (
    Stored-update h (update c.nodes (root_of h old) none) (root_of h new) _ s
        (Stored-update h c.nodes (root_of h old) none s (ready.keeps c.nodes below.frame)
          ready.old_apart.0)
        ready.new_apart.0,
    Stored-update h (update c.nodes (root_of h old) none) (root_of h new) _ u
        (Stored-update h c.nodes (root_of h old) none u below.stored ready.old_apart.1)
        ready.new_apart.1,
    λ x not_old not_new from_t from_u.
        update-other (update c.nodes (root_of h old) none) (root_of h new) x _
          (λ e. not_new (sym e))
        ∙ update-other c.nodes (root_of h old) x none (λ e. not_old (sym e))
        ∙ below.frame x from_t from_u,
  )

  pub fork_right :
      (m : ℕ) (f : U256 → ℕ) (bits : List Bool) (r : FindResult) (s t u : Smt)
      → Ready s t u (fork s t) (fork s u)
      → Made m (half f) bits r t u
      → Made (suc m) f (true ∷ bits) (push_sibling (root_of h s) r) (fork s t) (fork s u)
  unfolding Made begin bottom
  fork_right m f bits r s t u ready (c, run, below) =
      let (on_s, on_u, frame) =
        after-round (not r.is_old0) s t u (fork s t) (fork s u) c (root_of h s) (root_of h u) ready
          below in
      (
        mixed_round h true (root_of h s) c,
        round_runs m f true bits r s t u (fork s t) (fork s u) c ready run below,
        subst
            (λ (p : U256 × U256).
              Climbed h (not r.is_old0) nodes (fork s t) (fork s u)
                (mixed_round h true (root_of h s) (record c { rt_old = p.0; rt = p.1 })))
            {x = (root_of h t, root_of h u)} (λ i. (sym below.old i, sym below.new i))
            (record {
              mixed = inl refl;
              old = refl;
              new = refl;
              stored = (
                update_self (update c.nodes (root_of h (fork s t)) none) (root_of h (fork s u)) _,
                on_s,
                on_u,
              );
              frame = λ x (not_old, _, from_t) (not_new, _, from_u).
                  frame x not_old not_new from_t from_u;
            }),
      )

  pub fork_left :
      (m : ℕ) (f : U256 → ℕ) (bits : List Bool) (r : FindResult) (s t u : Smt)
      → Ready s t u (fork t s) (fork u s)
      → Made m (half f) bits r t u
      → Made (suc m) f (false ∷ bits) (push_sibling (root_of h s) r) (fork t s) (fork u s)
  unfolding Made begin bottom
  fork_left m f bits r s t u ready (c, run, below) =
      let (on_s, on_u, frame) =
        after-round (not r.is_old0) s t u (fork t s) (fork u s) c (root_of h u) (root_of h s) ready
          below in
      (
        mixed_round h false (root_of h s) c,
        round_runs m f false bits r s t u (fork t s) (fork u s) c ready run below,
        subst
            (λ (p : U256 × U256).
              Climbed h (not r.is_old0) nodes (fork t s) (fork u s)
                (mixed_round h false (root_of h s) (record c { rt_old = p.0; rt = p.1 })))
            {x = (root_of h t, root_of h u)} (λ i. (sym below.old i, sym below.new i))
            (record {
              mixed = inl refl;
              old = refl;
              new = refl;
              stored = (
                update_self (update c.nodes (root_of h (fork t s)) none) (root_of h (fork u s)) _,
                on_u,
                on_s,
              );
              frame = λ x (not_old, from_t, _) (not_new, from_u, _).
                  frame x not_old not_new from_t from_u;
            }),
      )
