-- ===== src/NonMembership/Tree/Insert.antt =====
-- What the insertion into the specification's tree keeps.
use veil_server_v.Prelude.{
  ℕ, zero, suc, ◌+◌, ◌/◌, ◌<◌, ◌≡◌, refl, Bool, true, false, arith, if◌then◌else◌,
}
use veil_server_v.Poseidon.{U256, bn256_modulus}
use veil_server_v.NonMembership.Insert.{bits_eq}
use veil_server_v.NonMembership.Tree.{
  Smt, empty, entry, fork, Keys, count, size, IsProper, InField, IsPlaced, odd, half, join, insert,
  Differs,
}

-- A property of trees that holds where the last bits part two entries and above every join for
-- which it holds, holds of their join.
pub join-induction {ℓ} :
    (P : ℕ → (U256 → ℕ) → Smt → Type ℓ) (k v key value : U256)
    → ((f : U256 → ℕ) → P zero f (fork (entry k v) (entry key value)))
    → ((m : ℕ) (f : U256 → ℕ) (t : Smt)
        → P m (half f) t
        → odd (f k) ≡ true
        → odd (f key) ≡ true
        → P (suc m) f (fork empty t))
    → ((m : ℕ) (f : U256 → ℕ) (t : Smt)
        → P m (half f) t
        → odd (f k) ≡ false
        → odd (f key) ≡ false
        → P (suc m) f (fork t empty))
    → ((m : ℕ) (f : U256 → ℕ)
        → odd (f k) ≡ false
        → odd (f key) ≡ true
        → P (suc m) f (fork (entry k v) (entry key value)))
    → ((m : ℕ) (f : U256 → ℕ)
        → odd (f k) ≡ true
        → odd (f key) ≡ false
        → P (suc m) f (fork (entry key value) (entry k v)))
    → (m : ℕ) (f : U256 → ℕ) → P m f (join m f k v key value)
unfolding join bits_eq
join-induction P k v key value bottom right left up down zero f = bottom f
join-induction P k v key value bottom right left up down (suc m) f =
    go (odd (f k)) (odd (f key)) refl refl (join m (half f) k v key value)
      (join-induction P k v key value bottom right left up down m (half f))
  where
    go :
        (a b : Bool)
        → odd (f k) ≡ a
        → odd (f key) ≡ b
        → (t : Smt) → P m (half f) t
        → P (suc m) f (
            if bits_eq a b
            then (if b then fork empty t else fork t empty)
            else if b
            then fork (entry k v) (entry key value)
            else fork (entry key value) (entry k v))
    go true true ea eb t below = right m f t below ea eb
    go false false ea eb t below = left m f t below ea eb
    go true false ea eb t below = down m f ea eb
    go false true ea eb t below = up m f ea eb

-- The same for an insertion, from its cases at an empty tree, at an entry, and at a fork.
pub insert-induction {ℓ} :
    (P : ℕ → (U256 → ℕ) → Smt → Smt → Type ℓ) (key value : U256)
    → ((m : ℕ) (f : U256 → ℕ) → P m f empty (entry key value))
    → ((m : ℕ) (f : U256 → ℕ) (k v : U256) → P m f (entry k v) (join m f k v key value))
    → ((f : U256 → ℕ) (l r : Smt) → P zero f (fork l r) (fork l r))
    → ((m : ℕ) (f : U256 → ℕ) (s t u : Smt)
        → P m (half f) t u
        → odd (f key) ≡ true
        → P (suc m) f (fork s t) (fork s u))
    → ((m : ℕ) (f : U256 → ℕ) (s t u : Smt)
        → P m (half f) t u
        → odd (f key) ≡ false
        → P (suc m) f (fork t s) (fork u s))
    → (m : ℕ) (f : U256 → ℕ) (t : Smt) → P m f t (insert m f key value t)
unfolding insert
insert-induction P key value at_empty at_entry at_zero right left m f empty = at_empty m f
insert-induction P key value at_empty at_entry at_zero right left m f (entry k v) = at_entry m f k v
insert-induction P key value at_empty at_entry at_zero right left zero f (fork l r) = at_zero f l r
insert-induction P key value at_empty at_entry at_zero right left (suc m) f (fork l r) =
    go (odd (f key)) refl
      (insert-induction P key value at_empty at_entry at_zero right left m (half f) l)
      (insert-induction P key value at_empty at_entry at_zero right left m (half f) r)
  where
    go :
        (b : Bool)
        → odd (f key) ≡ b
        → P m (half f) l (insert m (half f) key value l)
        → P m (half f) r (insert m (half f) key value r)
        → P (suc m) f (fork l r) (elim b [
          | true ↦ fork l (insert m (half f) key value r)
          | false ↦ fork (insert m (half f) key value l) r
        ])
    go true e on_l on_r = right m f l r (insert m (half f) key value r) on_r e
    go false e on_l on_r = left m f r l (insert m (half f) key value l) on_l e

pub Keys-map :
    {P Q R : U256 → Type 0} (t : Smt)
    → ((k : U256) → P k → Q k → R k)
    → Keys P t
    → Keys Q t
    → Keys R t
Keys-map empty both on_p on_q = tt
Keys-map (entry k v) both on_p on_q = both k on_p on_q
Keys-map (fork l r) both (pl, pr) (ql, qr) = (Keys-map l both pl ql, Keys-map r both pr qr)

-- What holds of an insertion at every level.
pub record Inserted (key value : U256) (m : ℕ) (f : U256 → ℕ) (t u : Smt) : Type 1 where
  pub keys : (P : U256 → Type 0) → Keys P t → P key → Keys P u
  pub placed : Keys (λ k. Differs m (f k) (f key)) t → IsPlaced m f u
  pub count_more : count u ≡ count t + 1
  pub size_more : size t < size u
  pub proper : IsProper t → IsProper u
  pub fits : InField t → key < bn256_modulus → value < bn256_modulus → InField u

pub Differs-deeper :
    (m x y : ℕ) (b : Bool) → odd x ≡ b → odd y ≡ b → Differs (suc m) x y → Differs m (x / 2) (y / 2)
unfolding bits_eq
Differs-deeper m x y b ex ey = go (odd x) (odd y) b ex ey
  where
    go :
        (c d b : Bool)
        → c ≡ b
        → d ≡ b
        → (if bits_eq c d then Differs m (x / 2) (y / 2) else Unit)
        → Differs m (x / 2) (y / 2)
    go true true b ec ed differs = differs
    go false false b ec ed differs = differs
    go true false b ec ed differs = cc
    go false true b ec ed differs = cc

join-Inserted :
    (k v key value : U256) (m : ℕ) (f : U256 → ℕ)
    → Inserted key value m f (entry k v) (join m f k v key value)
join-Inserted k v key value =
    join-induction (λ m f t. Inserted key value m f (entry k v) t) k v key value
      (λ f. record {
        keys = λ P old new. (old, new);
        placed = λ differs. absurd differs;
        count_more = refl;
        size_more = omega arith;
        proper = λ _. (omega arith, tt, tt);
        fits = λ old hk hv. (old, (hk, hv));
      })
      (λ m f t below ek ekey. record {
        keys = λ P old new. (tt, below.keys P old new);
        placed = λ differs. (
          tt,
          below.keys (λ k. odd (f k) ≡ true) ek ekey,
          tt,
          below.placed (Differs-deeper m (f k) (f key) true ek ekey differs),
        );
        count_more = omega (arith, below.count_more);
        size_more = omega (arith, below.size_more);
        proper = λ old. (omega (arith, below.count_more), tt, below.proper old);
        fits = λ old hk hv. (tt, below.fits old hk hv);
      })
      (λ m f t below ek ekey. record {
        keys = λ P old new. (below.keys P old new, tt);
        placed = λ differs. (
          below.keys (λ k. odd (f k) ≡ false) ek ekey,
          tt,
          below.placed (Differs-deeper m (f k) (f key) false ek ekey differs),
          tt,
        );
        count_more = omega (arith, below.count_more);
        size_more = omega (arith, below.size_more);
        proper = λ old. (omega (arith, below.count_more), below.proper old, tt);
        fits = λ old hk hv. (below.fits old hk hv, tt);
      })
      (λ m f ek ekey. record {
        keys = λ P old new. (old, new);
        placed = λ differs. (ek, ekey, tt, tt);
        count_more = refl;
        size_more = omega arith;
        proper = λ old. (omega arith, tt, tt);
        fits = λ old hk hv. (old, (hk, hv));
      })
      (λ m f ek ekey. record {
        keys = λ P old new. (new, old);
        placed = λ differs. (ekey, ek, tt, tt);
        count_more = refl;
        size_more = omega arith;
        proper = λ old. (omega arith, tt, tt);
        fits = λ old hk hv. ((hk, hv), old);
      })

pub insert-Inserted :
    (key value : U256) (m : ℕ) (f : U256 → ℕ) (t : Smt)
    → IsPlaced m f t
    → Inserted key value m f t (insert m f key value t)
insert-Inserted key value =
    insert-induction (λ m f t u. IsPlaced m f t → Inserted key value m f t u) key value
      (λ m f _. record {
        keys = λ P old new. new;
        placed = λ _. tt;
        count_more = refl;
        size_more = omega arith;
        proper = λ _. tt;
        fits = λ old hk hv. (hk, hv);
      })
      (λ m f k v _. join-Inserted k v key value m f) (λ f l r placed. absurd placed)
      (λ m f s t u step e (on_s, on_t, placed_s, placed_t).
        let below = step placed_t in
        record {
          keys = λ P (old_s, old_t) new. (old_s, below.keys P old_t new);
          placed = λ (differs_s, differs_t). (
            on_s,
            below.keys (λ k. odd (f k) ≡ true) on_t e,
            placed_s,
            below.placed
                (Keys-map t (λ k bit. Differs-deeper m (f k) (f key) true bit e) on_t differs_t),
          );
          count_more = omega (arith, below.count_more);
          size_more = omega (arith, below.size_more);
          proper = λ (two, proper_s, proper_t).
              (omega (arith, two, below.count_more), proper_s, below.proper proper_t);
          fits = λ (in_s, in_t) hk hv. (in_s, below.fits in_t hk hv);
        })
      (λ m f s t u step e (on_t, on_s, placed_t, placed_s).
        let below = step placed_t in
        record {
          keys = λ P (old_t, old_s) new. (below.keys P old_t new, old_s);
          placed = λ (differs_t, differs_s). (
            below.keys (λ k. odd (f k) ≡ false) on_t e,
            on_s,
            below.placed
                (Keys-map t (λ k bit. Differs-deeper m (f k) (f key) false bit e) on_t differs_t),
            placed_s,
          );
          count_more = omega (arith, below.count_more);
          size_more = omega (arith, below.size_more);
          proper = λ (two, proper_t, proper_s).
              (omega (arith, two, below.count_more), below.proper proper_t, proper_s);
          fits = λ (in_t, in_s) hk hv. (below.fits in_t hk hv, in_s);
        })
