-- ===== src/NonMembership/Tree/Fresh.antt =====
-- The nodes that an insertion makes are not those of a tree without the key.
use veil_server_v.Prelude.{ℕ, ◌<◌, ◌≡◌, ◌≢◌, sym, ◌∙◌, ap, refl, arith, subst}
use veil_server_v.Poseidon.{U256, Host}
use veil_server_v.NonMembership.Tree.{
  Smt, empty, entry, fork, leaf_hash, Keys, size, IsPlaced, Decodes, Avoids, join, insert,
}
use veil_server_v.NonMembership.Tree.Apart.{Avoids-smaller}
use veil_server_v.NonMembership.Tree.Insert.{join-induction, insert-induction}

pub insert-Decodes-entry :
    (h : Host) (read : U256 → Smt) (key value : U256) (m : ℕ) (f : U256 → ℕ) (t : Smt)
    → IsPlaced m f t
    → Decodes h read (insert m f key value t)
    → read (leaf_hash h key value) ≡ entry key value
insert-Decodes-entry h read key value =
    insert-induction
      (λ m f t u.
        IsPlaced m f t → Decodes h read u → read (leaf_hash h key value) ≡ entry key value)
      key value (λ m f _ reads. reads)
      (λ m f k v _.
        join-induction (λ m f u. Decodes h read u → read (leaf_hash h key value) ≡ entry key value)
          k v key value (λ f (_, _, new). new) (λ m f t below ek ekey (_, _, right). below right)
          (λ m f t below ek ekey (_, left, _). below left) (λ m f ek ekey (_, _, new). new)
          (λ m f ek ekey (_, new, _). new) m f)
      (λ f l r placed. absurd placed)
      (λ m f s t u step e (_, _, _, placed) (_, _, right). step placed right)
      (λ m f s t u step e (_, _, placed, _) (_, left, _). step placed left)

module _ (h : Host) (read : U256 → Smt) (key value x : U256) (w : Smt) (known : read x ≡ w)
    (without : Keys (λ k. k ≢ key) w) where
  New : Smt → Type 0
  New u = (Keys (λ k. k ≢ key) u → ⊥) × (Decodes h read u → 1 < size w → Avoids h x u)

  new_node : (y : U256) (u : Smt) → (Keys (λ k. k ≢ key) u → ⊥) → read y ≡ u → y ≢ x
  new_node y u has reads e =
      has (subst (Keys (λ k. k ≢ key)) (sym known ∙ ap read (sym e) ∙ reads) without)

  join-New : (k v : U256) (m : ℕ) (f : U256 → ℕ) → New (join m f k v key value)
  unfolding New
  join-New k v =
      join-induction (λ m f u. New u) k v key value
        (λ f. (
          λ (_, new). new refl,
          λ (here, old, new) small. (
            new_node _ (fork (entry k v) (entry key value)) (λ (_, new). new refl) here,
            Avoids-smaller h read x w (entry k v) known old small,
            new_node _ (entry key value) (λ new. new refl) new,
          ),
        ))
        (λ m f t (has, away) ek ekey. (
          λ (_, on_t). has on_t,
          λ (here, _, reads) small.
              (new_node _ (fork empty t) (λ (_, on_t). has on_t) here, tt, away reads small),
        ))
        (λ m f t (has, away) ek ekey. (
          λ (on_t, _). has on_t,
          λ (here, reads, _) small.
              (new_node _ (fork t empty) (λ (on_t, _). has on_t) here, away reads small, tt),
        ))
        (λ m f ek ekey. (
          λ (_, new). new refl,
          λ (here, old, new) small. (
            new_node _ (fork (entry k v) (entry key value)) (λ (_, new). new refl) here,
            Avoids-smaller h read x w (entry k v) known old small,
            new_node _ (entry key value) (λ new. new refl) new,
          ),
        ))
        (λ m f ek ekey. (
          λ (new, _). new refl,
          λ (here, new, old) small. (
            new_node _ (fork (entry key value) (entry k v)) (λ (new, _). new refl) here,
            new_node _ (entry key value) (λ new. new refl) new,
            Avoids-smaller h read x w (entry k v) known old small,
          ),
        ))

  insert-New :
      (m : ℕ) (f : U256 → ℕ) (t : Smt)
      → IsPlaced m f t
      → (Keys (λ k. k ≢ key) (insert m f key value t) → ⊥)
        × (Decodes h read (insert m f key value t)
            → size t < size w
            → Avoids h x (insert m f key value t))
  unfolding New
  insert-New =
      insert-induction
        (λ m f t u.
          IsPlaced m f t
          → (Keys (λ k. k ≢ key) u → ⊥) × (Decodes h read u → size t < size w → Avoids h x u))
        key value
        (λ m f _.
          (λ new. new refl, λ new small. new_node _ (entry key value) (λ new. new refl) new))
        (λ m f k v _. join-New k v m f) (λ f l r placed. absurd placed)
        (λ m f s t u step e (_, _, _, placed).
          let (has, away) = step placed in
          (
            λ (_, on_u). has on_u,
            λ (here, on_s, on_u) small. (
              new_node _ (fork s u) (λ (_, on_u). has on_u) here,
              Avoids-smaller h read x w s known on_s (omega (arith, small)),
              away on_u (omega (arith, small)),
            ),
          ))
        (λ m f s t u step e (_, _, placed, _).
          let (has, away) = step placed in
          (
            λ (on_u, _). has on_u,
            λ (here, on_u, on_s) small. (
              new_node _ (fork u s) (λ (on_u, _). has on_u) here,
              away on_u (omega (arith, small)),
              Avoids-smaller h read x w s known on_s (omega (arith, small)),
            ),
          ))

  pub insert-Avoids :
      (m : ℕ) (f : U256 → ℕ) (t : Smt)
      → IsPlaced m f t
      → Decodes h read (insert m f key value t)
      → size t < size w
      → Avoids h x (insert m f key value t)
  insert-Avoids m f t placed = (insert-New m f t placed).1
