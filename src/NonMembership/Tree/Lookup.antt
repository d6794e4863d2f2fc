-- ===== src/NonMembership/Tree/Lookup.antt =====
-- What the search for a key tells of the tree, and of the tree after an insertion.
use veil_server_v.Prelude.{
  ℕ, zero, suc, ◌/◌, ◌^◌, ◌<◌, ◌≡◌, ◌≢◌, refl, Bool, true, false, List, [], ◌∷◌, ◌==◌, arith, ne→==,
  subst, Bool-cases, inl, inr, ◌⊎◌,
}
use veil_server_v.Poseidon.{U256, Host}
use veil_server_v.NonMembership.{low_bits, empty_result, leaf_result}
use veil_server_v.NonMembership.Insert.{bits_eq}
use veil_server_v.NonMembership.Tree.{
  Smt, empty, entry, fork, Keys, IsPlaced, odd, half, search, insert, Differs, Has,
}
use veil_server_v.NonMembership.Tree.Insert.{join-induction, insert-induction}

Has-Keys : (P : U256 → Type 0) (key value : U256) (t : Smt) → Keys P t → Has key value t → P key
Has-Keys P key value empty on_t has = absurd has
Has-Keys P key value (entry k v) on_t (same, _) = subst P same on_t
Has-Keys P key value (fork l r) (on_l, on_r) (inl a) = Has-Keys P key value l on_l a
Has-Keys P key value (fork l r) (on_l, on_r) (inr a) = Has-Keys P key value r on_r a

-- The search finds an entry of the tree.
pub search-Has :
    (h : Host) (key value : U256) (m : ℕ) (f : U256 → ℕ) (t : Smt)
    → IsPlaced m f t
    → Has key value t
    → ((search h key (low_bits m (f key)) t).found ≡ true)
      × ((search h key (low_bits m (f key)) t).found_value ≡ value)
unfolding search low_bits leaf_result
search-Has h key value m f empty placed has = absurd has
search-Has h key value m f (entry k v) placed (same, held) =
    (ground (arith, same), ground (arith, same, held))
search-Has h key value zero f (fork l r) placed has = absurd placed
search-Has h key value (suc m) f (fork l r) (on_l, on_r, placed_l, placed_r) (inl has) =
    rw (Has-Keys (λ k. odd (f k) ≡ false) key value l on_l has)
      (search-Has h key value m (half f) l placed_l has)
search-Has h key value (suc m) f (fork l r) (on_l, on_r, placed_l, placed_r) (inr has) =
    rw (Has-Keys (λ k. odd (f k) ≡ true) key value r on_r has)
      (search-Has h key value m (half f) r placed_r has)

-- It finds no other key.
pub search-absent :
    (h : Host) (key : U256) (bits : List Bool) (t : Smt)
    → Keys (λ k. k ≢ key) t
    → (search h key bits t).found ≡ false
unfolding search leaf_result empty_result
search-absent h key bits empty without = refl
search-absent h key bits (entry k v) without = ground (arith, ne→== k key without)
search-absent h key [] (fork l r) without = refl
search-absent h key (true ∷ bits) (fork l r) (_, without) = search-absent h key bits r without
search-absent h key (false ∷ bits) (fork l r) (without, _) = search-absent h key bits l without

-- A tree has a key or not.
pub Has-or-not : (key : U256) (t : Smt) → Keys (λ k. k ≢ key) t ⊎ ((value : U256) × Has key value t)
Has-or-not key empty = inl tt
Has-or-not key (entry k v) = elim (Bool-cases (k == key)) [
  | inl e ↦ inr (v, (ground (arith, e), refl))
  | inr e ↦ inl (ground (arith, e))
]
Has-or-not key (fork l r) = elim (Has-or-not key l) [
  | inl a ↦ elim (Has-or-not key r) [ inl b ↦ inl (a, b) | inr (v, b) ↦ inr (v, inr b) ]
  | inr (v, a) ↦ inr (v, inl a)
]

-- An insertion keeps the entries and adds its own.
pub record Adds (key value : U256) (t u : Smt) : Type 0 where
  pub added : Has key value u
  pub kept : (k v : U256) → Has k v t → Has k v u
  pub only : (k v : U256) → Has k v u → ((key ≡ k) × (value ≡ v)) ⊎ Has k v t

pub insert-Adds :
    (key value : U256) (m : ℕ) (f : U256 → ℕ) (t : Smt)
    → IsPlaced m f t
    → Adds key value t (insert m f key value t)
insert-Adds key value =
    insert-induction (λ m f t u. IsPlaced m f t → Adds key value t u) key value
      (λ m f _. record {
        added = (refl, refl);
        kept = λ k v has. absurd has;
        only = λ k v has. inl has;
      })
      (λ m f k v _.
        join-induction (λ m f u. Adds key value (entry k v) u) k v key value
          (λ f. record {
            added = inr (refl, refl);
            kept = λ k v has. inl has;
            only = λ k' v' has. elim has [ inl a ↦ inr a | inr b ↦ inl b ];
          })
          (λ m f t below _ _. record {
            added = inr below.added;
            kept = λ k v has. inr (below.kept k v has);
            only = λ k' v' has. elim has [ inl a ↦ absurd a | inr b ↦ below.only k' v' b ];
          })
          (λ m f t below _ _. record {
            added = inl below.added;
            kept = λ k v has. inl (below.kept k v has);
            only = λ k' v' has. elim has [ inl a ↦ below.only k' v' a | inr b ↦ absurd b ];
          })
          (λ m f _ _. record {
            added = inr (refl, refl);
            kept = λ k v has. inl has;
            only = λ k' v' has. elim has [ inl a ↦ inr a | inr b ↦ inl b ];
          })
          (λ m f _ _. record {
            added = inl (refl, refl);
            kept = λ k v has. inr has;
            only = λ k' v' has. has;
          })
          m f)
      (λ f l r placed. absurd placed)
      (λ m f s t u step e (_, _, _, placed).
        let below = step placed in
        record {
          added = inr below.added;
          kept = λ k v has. elim has [ inl a ↦ inl a | inr b ↦ inr (below.kept k v b) ];
          only = λ k v has. elim has [
            | inl a ↦ inr (inl a)
            | inr b ↦ elim (below.only k v b) [ inl same ↦ inl same | inr old ↦ inr (inr old) ]
          ];
        })
      (λ m f s t u step e (_, _, placed, _).
        let below = step placed in
        record {
          added = inl below.added;
          kept = λ k v has. elim has [ inl a ↦ inl (below.kept k v a) | inr b ↦ inr b ];
          only = λ k v has. elim has [
            | inl a ↦ elim (below.only k v a) [ inl same ↦ inl same | inr old ↦ inr (inl old) ]
            | inr b ↦ inr (inr b)
          ];
        })

Differs-parted : (m x y : ℕ) → bits_eq (odd x) (odd y) ≡ false → Differs (suc m) x y
Differs-parted m x y e = rw e tt

halves-ne : (x y : ℕ) → bits_eq (odd x) (odd y) ≡ true → x ≢ y → x / 2 ≢ y / 2
unfolding bits_eq
halves-ne x y e other same = ground (arith, e, other, same)

-- Different numbers differ in a bit.
pub Differs-ne : (m x y : ℕ) → x ≢ y → x < 2 ^ m → y < 2 ^ m → Differs m x y
Differs-ne zero x y other hx hy = other (omega (arith, hx, hy))
Differs-ne (suc m) x y other hx hy = elim (Bool-cases (bits_eq (odd x) (odd y))) [
  | inl e ↦
      rw e (
        Differs-ne m (x / 2) (y / 2) (halves-ne x y e other) (omega (arith, hx))
          (omega (arith, hy)))
  | inr e ↦ Differs-parted m x y e
]
