-- ===== src/Planner/Two/Few.antt =====
-- What it means that the scan for two notes misses.
use veil_server_v.Prelude.{
  ℕ, zero, suc, ◌+◌, ◌-◌, ◌^◌, ◌≤◌, ◌<◌, ◌≡◌, refl, sym, ap, ◌∙◌, subst, none, some, List, [], ◌∷◌,
  arith, ltb, lt-or-le, Bool-cases, inl, inr, length, get_elem?, ok, ok-injective,
}
use mathlib.Core.List.{reverse, reverse_aux}
use mathlib.Core.Option.{some-injective}
use veil_server_v.Planner.Types.{Candidate, total}
use veil_server_v.Planner.Picks.{get_elem?-lt}
use veil_server_v.Planner.Top.{top}
use veil_server_v.Planner.Two.{miss, Best, improve, finish, scan_loop, scan}
use veil_server_v.Planner.Two.Sound.{stopped, next-left, found, next-right}

-- Each candidate from `left` on, below `right`, makes less than the goal with the one at `right`.
abbrev PairsLess : List Candidate → ℕ → ℕ → ℕ → Type 0
PairsLess cs goal left right =
    (l : ℕ)
    → left ≤ l
    → l < right
    → (low high : Candidate) → get_elem? cs l ≡ some low
    → get_elem? cs right ≡ some high
    → low.1 + high.1 < goal

finish-miss : (best : Best) → finish best ≡ miss → best ≡ none
unfolding finish
finish-miss none e = refl
finish-miss (some b) e = cc

improve-some : (best : Best) (i j d : ℕ) → improve best i j d ≡ none → ⊥
unfolding improve
improve-some none i j d e = cc
improve-some (some b) i j d e = elim (Bool-cases (ltb d b.2)) [
  | inl less ↦
      let kept : Best = some (i, j, d) in let e' : kept ≡ none = ground (arith, less, e) in cc
  | inr more ↦ let kept : Best = some b in let e' : kept ≡ none = ground (arith, more, e) in cc
]

module _ (cs : List Candidate) (goal : ℕ) (fits : total cs < 2 ^ 128)
    (short : length cs < 2 ^ 64) where
  scan_loop-miss :
      (fuel left right : ℕ) (best : Best)
      → left ≤ right
      → right < left + fuel
      → right < length cs
      → scan_loop fuel cs goal left right best ≡ ok miss
      → (best ≡ none) × PairsLess cs goal left right
  scan_loop-miss zero left right best le enough in_range ran = absurd (omega arith)
  scan_loop-miss (suc fuel) left right best le enough in_range ran = elim (lt-or-le left right) [
    | inr stop ↦ (
      finish-miss best
          (ok-injective (sym (stopped cs goal fits short fuel left right best stop) ∙ ran)),
      λ l from below. absurd (omega arith),
    )
    | inl lt ↦
        let (low, p) = get_elem?-lt cs left (omega arith) in
        let (high, q) = get_elem?-lt cs right in_range in
        elim (lt-or-le (low.1 + high.1) goal) [
          | inl less ↦
              let (none_kept, pairs) =
                scan_loop-miss fuel (left + 1) right best (omega arith) (omega arith) in_range (
                  sym (
                    next-left cs goal fits short fuel left right best low high p q lt in_range less)
                  ∙ ran) in
              (
                none_kept,
                λ l from below low' high' p' q'. elim (lt-or-le left l) [
                  | inl after ↦ pairs l (omega arith) below low' high' p' q'
                  | inr here ↦
                      let same : left ≡ l = omega (arith, from, here) in
                      let one : low.1 ≡ low'.1 =
                        ap (λ (c : Candidate). c.1)
                          (some-injective _ _ (sym p ∙ ap (get_elem? cs) same ∙ p')) in
                      let other : high.1 ≡ high'.1 =
                        ap (λ (c : Candidate). c.1) (some-injective _ _ (sym q ∙ q')) in
                      omega (arith, one, other, less)
                ],
              )
          | inr reach ↦ elim (lt-or-le goal (low.1 + high.1)) [
            | inr at ↦
                let e =
                  sym (
                    found cs goal fits short fuel left right best low high p q lt in_range
                      (omega arith))
                  ∙ ran in
                cc
            | inl above ↦
                let (none_kept, pairs) =
                  scan_loop-miss fuel left (right - 1)
                    (improve best low.0 high.0 (low.1 + high.1 - goal)) (omega arith) (omega arith)
                    (omega arith)
                    (sym (
                        next-right cs goal fits short fuel left right best low high p q lt in_range
                          above)
                      ∙ ran) in
                absurd (improve-some best low.0 high.0 (low.1 + high.1 - goal) none_kept)
          ]
        ]
  ]

-- The last two of a list are the first two of its reverse.
last_two :
    (a b : Candidate) (cs acc : List Candidate)
    → (x y : Candidate) × (r : List Candidate) × (reverse_aux cs (b ∷ a ∷ acc) ≡ x ∷ y ∷ r)
      × (get_elem? (a ∷ b ∷ cs) (length cs) ≡ some y)
      × (get_elem? (a ∷ b ∷ cs) (suc (length cs)) ≡ some x)
last_two a b [] acc = (b, a, acc, refl, refl, refl)
last_two a b (c ∷ cs) acc = let (x, y, r, e, p, q) = last_two b c cs (a ∷ acc) in (x, y, r, e, p, q)

-- A miss: the two largest notes of the wallet, in order, do not reach the goal.
pub scan-miss-top :
    (a b : Candidate) (cs : List Candidate) (goal : ℕ)
    → total (a ∷ b ∷ cs) < 2 ^ 128
    → length (a ∷ b ∷ cs) < 2 ^ 64
    → scan (a ∷ b ∷ cs) goal ≡ ok miss
    → top 2 (reverse (a ∷ b ∷ cs)) < goal
unfolding scan
scan-miss-top a b cs goal fits short ran =
    let n : ℕ = length (a ∷ b ∷ cs) in
    let (none_kept, pairs) =
      scan_loop-miss (a ∷ b ∷ cs) goal fits short n 0 (n - 1) none (omega arith) (omega arith)
        (omega arith) (ground (arith, ran)) in
    let (x, y, r, e, p, q) = last_two a b cs [] in
    let at : suc (length cs) ≡ n - 1 = omega arith in
    let last : get_elem? (a ∷ b ∷ cs) (n - 1) ≡ some x =
      subst (λ i. get_elem? (a ∷ b ∷ cs) i ≡ some x) at q in
    let less : y.1 + x.1 < goal = pairs (length cs) (omega arith) (omega arith) y x p last in
    rw e (omega (arith, less))
