-- ===== src/Merkle/Climb/Stored.antt =====
-- The keys FilledSubtree: what a round of the loop leaves there, and what an insertion needs there.
use veil_server_v.Prelude.{
  ℕ, zero, suc, ◌+◌, ◌-◌, ◌%◌, ◌≤◌, ◌<◌, ◌≡◌, ◌≢◌, refl, ap, ◌∙◌, some, arith, ◌==◌, Bool-cases,
  inl, inr, if◌then◌else◌, update,
}
use veil_server_v.Merkle.Node.{shift, width, full, node, shift-le-width, node-eq-full, full-agree}
use veil_server_v.Merkle.Climb.{Filled}

-- Left siblings on the way up from leaf `n`: whenever the ancestor of `n` at height `j` is a right
-- child, the key of height `j` holds its left sibling. From height `from` on, below height `top`.
abbrev pub Stored : (ℕ → ℕ → ℕ) → (ℕ → ℕ) → ℕ → ℕ → ℕ → Filled → Type 0
Stored digest leaf n from top filled =
    (j : ℕ)
    → from ≤ j
    → j < top
    → shift n j % 2 ≡ 1
    → filled j ≡ some (full digest leaf j (shift n j - 1))

-- The leaves below `n` are those that count.
pub Stored-agree :
    (digest : ℕ → ℕ → ℕ) (leaf leaf' : ℕ → ℕ) (n from top : ℕ) (filled : Filled)
    → ((k : ℕ) → k < n → leaf' k ≡ leaf k)
    → Stored digest leaf n from top filled
    → Stored digest leaf' n from top filled
Stored-agree digest leaf leaf' n from top filled same st j a b odd =
    rw (full-agree digest leaf leaf' n same j (shift n j - 1) (omega arith)) (st j a b odd)

-- `leaf` and `m` are the leaves after the insertion, of the ones from `n` on.
module _ (digest : ℕ → ℕ → ℕ) (empty leaf : ℕ → ℕ) (m n : ℕ) where
  abbrev pub on_path : ℕ → ℕ
  on_path j = node digest empty leaf m j (shift n j)

  unfoldable pub filled_step : Filled → ℕ → Filled
  filled_step filled j = if shift n j % 2 == 1 then filled else update filled j (some (on_path j))

  unfoldable pub filled_after : ℕ → Filled → ℕ → Filled
  filled_after zero filled j = filled
  filled_after (suc r) filled j = filled_after r (filled_step filled j) (j + 1)

  pub filled_step-ne : (filled : Filled) (i j : ℕ) → i ≢ j → filled_step filled i j ≡ filled j
  unfolding filled_step
  filled_step-ne filled i j h = ground arith

  filled_step-odd :
      (filled : Filled) (i j : ℕ) → shift n j % 2 ≡ 1 → filled_step filled i j ≡ filled j
  unfolding filled_step
  filled_step-odd filled i j h = ground arith

  filled_step-even :
      (filled : Filled) (j : ℕ) → shift n j % 2 ≢ 1 → filled_step filled j j ≡ some (on_path j)
  unfolding filled_step
  filled_step-even filled j h = ground arith

  filled_after-below :
      (r : ℕ) (filled : Filled) (i j : ℕ) → j < i → filled_after r filled i j ≡ filled j
  unfolding filled_after
  filled_after-below zero filled i j h = refl
  filled_after-below (suc r) filled i j h =
      filled_after-below r (filled_step filled i) (i + 1) j (omega arith)
      ∙ filled_step-ne filled i j (omega arith)

  filled_after-odd :
      (r : ℕ) (filled : Filled) (i j : ℕ) → shift n j % 2 ≡ 1 → filled_after r filled i j ≡ filled j
  unfolding filled_after
  filled_after-odd zero filled i j h = refl
  filled_after-odd (suc r) filled i j h =
      filled_after-odd r (filled_step filled i) (i + 1) j h ∙ filled_step-odd filled i j h

  filled_after-even :
      (r : ℕ) (filled : Filled) (i j : ℕ)
      → i ≤ j
      → j < i + r
      → shift n j % 2 ≢ 1
      → filled_after r filled i j ≡ some (on_path j)
  unfolding filled_after
  filled_after-even zero filled i j a b h = absurd (omega arith)
  filled_after-even (suc r) filled i j a b h = elim (Bool-cases (i == j)) [
    | inl e ↦
        let p : j ≡ i = ground arith in
        rw p (
          filled_after-below r (filled_step filled i) (i + 1) i (omega arith)
          ∙ filled_step-even filled i (rw (← p) h))
    | inr e ↦ filled_after-even r (filled_step filled i) (i + 1) j (ground arith) (omega arith) h
  ]

  -- After the loop the keys fit the next insertion.
  pub filled_after-Stored :
      (r : ℕ) (filled : Filled) (i top : ℕ)
      → i + r ≡ top
      → ((j : ℕ) → i ≤ j → width m j ≡ shift n j + 1)
      → Stored digest leaf n i top filled
      → Stored digest leaf m i top (filled_after r filled i)
  filled_after-Stored r filled i top end grown st j a b odd =
      elim (Bool-cases (shift n j % 2 == 1)) [
        | inl e ↦
            let was : shift n j % 2 ≡ 1 = ground arith in
            let same : shift m j ≡ shift n j = omega (arith, grown j a, shift-le-width m j) in
            rw same (filled_after-odd r filled i j was ∙ st j a b was)
        | inr e ↦
            let was : shift n j % 2 ≢ 1 = ground arith in
            let up : shift m j ≡ suc (shift n j) = omega (arith, grown j a, shift-le-width m j) in
            let down : shift m j - 1 ≡ shift n j = omega arith in
            rw down (
              filled_after-even r filled i j a (omega arith) was
              ∙ ap some (node-eq-full digest empty leaf m j (shift n j) (omega arith)))
      ]
