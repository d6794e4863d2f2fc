-- ===== src/Planner/Plan/Total.antt =====
-- When `plan` gives a plan, and what the plan spends.
use veil_server_v.Prelude.{
  Outcome, leb→le, ℕ, suc, ◌+◌, ◌^◌, ◌≤◌, ◌<◌, ◌≡◌, refl, sym, ap, ◌∙◌, subst, Bool, true, false,
  ◌&&◌, Option, none, some, List, [], ◌∷◌, map, arith, leb, length, get_elem?, ok, err, inl, inr,
  ◌⊎◌, Bool-cases,
}
use mathlib.Core.Bool.{Bool-set}
use mathlib.Core.Logic.{∥∥₁_elim}
use native.Mathlib.Bridge.{le_prop}
use mathlib.Core.List.{Permᴰ, Sublistᴰ}
use veil_server_v.Planner.Types.{
  PlanError, no_combination, too_many_notes, Candidate, total, transaction_limit,
}
use veil_server_v.Planner.Picks.{indices, Selects, total-le, total-Perm}
use veil_server_v.Planner.Combination.{
  CombinationResult, two_exact, one_exact, two_overshoot, one_overshoot, exact_k, overshoot,
  impossible, enumerate, find_combination,
}
use veil_server_v.Planner.Combination.Sound.{Answer, find_combination-Answer}
use veil_server_v.Planner.Plan.{
  SpendableNote, TransactionPlan, selection, check_indices, build_steps, assemble, plan,
}
use veil_server_v.Planner.Plan.Balanced.{
  or_zero, AllBalanced, names, all_name, build_steps-balanced, check_indices-ok,
}

pub and-both : (a b : Bool) → (a && b) ≡ true → (a ≡ true) × (b ≡ true)
and-both true true e = (refl, refl)
and-both true false e = cc
and-both false b e = cc

pub and-swap : (a b c : Bool) → (a && (b && c)) ≡ (b && (a && c))
and-swap true true c = refl
and-swap true false c = refl
and-swap false true c = refl
and-swap false false c = refl

module _ (notes : List SpendableNote) where
  pub all_name-Perm : {xs ys : List Candidate} → Permᴰ xs ys → all_name notes ys ≡ all_name notes xs
  all_name-Perm Permᴰ.nil = refl
  all_name-Perm (Permᴰ.cons {a = x} {b = y} e p) = rw (e, all_name-Perm p)
  all_name-Perm (Permᴰ.swap {a = x} {b = y} {a' = x'} {b' = y'} e f) =
      and-swap (names notes x') (names notes y') (all_name notes _) ∙ rw (e, f) refl
  all_name-Perm (Permᴰ.trans p q) = all_name-Perm q ∙ all_name-Perm p

  pub all_name-Sublist :
      {xs ys : List Candidate}
      → Sublistᴰ xs ys
      → all_name notes ys ≡ true
      → all_name notes xs ≡ true
  all_name-Sublist Sublistᴰ.slnil h = refl
  all_name-Sublist (Sublistᴰ.cons {a = y} s) h =
      all_name-Sublist s (and-both (names notes y) (all_name notes _) h).1
  all_name-Sublist (Sublistᴰ.cons-cons {a = x} {b = y} e s) h =
      let (here, below) = and-both (names notes y) (all_name notes _) h in
      rw (e, here, all_name-Sublist s below)

  pub all_name-Selects :
      {cs : List Candidate} {is : List ℕ} {sum : ℕ} (s : Selects cs is sum)
      → all_name notes cs ≡ true
      → all_name notes s.chosen ≡ true
  all_name-Selects s named =
      ∥∥₁_elim s.among (λ x y. Bool-set _ _ x y)
        (λ w.
          ∥∥₁_elim w.1 (λ x y. Bool-set _ _ x y)
            (λ p.
              ∥∥₁_elim w.2 (λ x y. Bool-set _ _ x y)
                (λ d. all_name-Perm p ∙ all_name-Sublist d named)))

Selects-total-le :
    {cs : List Candidate} {is : List ℕ} {sum : ℕ} → Selects cs is sum → sum ≤ total cs
Selects-total-le {cs} {is} {sum} s = ∥∥₁_elim s.among le_prop (λ w.
    ∥∥₁_elim w.1 le_prop
      (λ p. ∥∥₁_elim w.2 le_prop (λ d. omega (arith, total-Perm p, total-le d, s.summed))))

names-at :
    (notes : List SpendableNote) (i a : ℕ) {n : SpendableNote}
    → get_elem? notes i ≡ some n
    → n.amount ≡ a
    → names notes (i, a) ≡ true
names-at notes i a at worth = ground (arith, at, worth)

-- Each candidate of a part of the wallet is the note at its index.
pub all_name-enumerate :
    (notes : List SpendableNote) (i : ℕ) (part : List SpendableNote)
    → ((j : ℕ) (n : SpendableNote) → get_elem? part j ≡ some n → get_elem? notes (i + j) ≡ some n)
    → all_name notes (enumerate i (map (λ (x : SpendableNote). x.amount) part)) ≡ true
unfolding enumerate
all_name-enumerate notes i [] inside = refl
all_name-enumerate notes i (n ∷ part) inside =
    let here : get_elem? notes i ≡ some n =
      subst (λ k. get_elem? notes k ≡ some n) (omega arith) (inside 0 n refl) in
    rw (names-at notes i n.amount here refl) (
      all_name-enumerate notes (i + 1) part
        (λ j m at. subst (λ k. get_elem? notes k ≡ some m) (omega arith) (inside (suc j) m at)))

-- What the wallet is worth.
abbrev pub candidates : List SpendableNote → List Candidate
candidates notes = enumerate 0 (map (λ (x : SpendableNote). x.amount) notes)

-- An answer other than `impossible` selects notes worth the goal and the change.
pub selection-Selects :
    (cs : List Candidate) (goal : ℕ) (r : CombinationResult)
    → Answer cs goal r
    → 0 < goal
    → ((r ≡ impossible) × (total cs < goal))
      ⊎ ((is : List ℕ) × (change : Option ℕ) × (selection r ≡ ok (is, change))
          × Selects cs is (goal + or_zero change))
unfolding Answer selection
selection-Selects cs goal (two_exact i j) a pos =
    inr (_, none, refl, subst (Selects cs (i ∷ j ∷ [])) (omega arith) a)
selection-Selects cs goal (one_exact i) a pos =
    inr (_, none, refl, subst (Selects cs (i ∷ [])) (omega arith) a)
selection-Selects cs goal (two_overshoot i j e) a pos = inr (_, some e, refl, a.1)
selection-Selects cs goal (one_overshoot i e) a pos = inr (_, some e, refl, a.1)
selection-Selects cs goal (exact_k is) a pos =
    inr (_, none, refl, subst (Selects cs is) (omega arith) a)
selection-Selects cs goal (overshoot is e) a pos = inr (_, some e, refl, a)
selection-Selects cs goal impossible (inl less) pos = inl (refl, less)
selection-Selects cs goal impossible (inr (empty, zero_goal)) pos =
    absurd (omega (arith, zero_goal, pos))

total-positive : (cs : List Candidate) → 0 < total cs → 0 < length cs
total-positive [] more = absurd (omega (arith, more))
total-positive (c ∷ cs) more = omega arith

pub length-indices : (cs : List Candidate) → length (indices cs) ≡ length cs
length-indices [] = refl
length-indices (c ∷ cs) = ap suc (length-indices cs)

-- What `plan` answers for an amount that is not zero and notes that are not too many to sum.
abbrev pub Planned : ℕ → List SpendableNote → Outcome PlanError TransactionPlan → Type 0
Planned amount notes o =
    ((o ≡ err no_combination) × (total (candidates notes) < amount))
    ⊎ ((k : ℕ) × (o ≡ err (too_many_notes k transaction_limit)) × (transaction_limit < k))
    ⊎ ((p : TransactionPlan) × (o ≡ ok p)
        × AllBalanced p.steps
        × (length p.steps ≤ transaction_limit))

module _ (sort : List Candidate → List Candidate) (amount : ℕ) (n : SpendableNote)
    (ns : List SpendableNote) (positive : 0 < amount)
    (fits : total (candidates (n ∷ ns)) < 2 ^ 128) where
  selected :
      (r : CombinationResult) (change : Option ℕ) (is : List ℕ)
      (s : Selects (candidates (n ∷ ns)) is (amount + or_zero change))
      → find_combination sort (map (λ (x : SpendableNote). x.amount) (n ∷ ns)) amount ≡ ok r
      → selection r ≡ ok (is, change)
      → Planned amount (n ∷ ns) (plan sort amount (n ∷ ns))
  unfolding plan
  selected r change is s found picked =
      let named = all_name-Selects (n ∷ ns) s (
        all_name-enumerate (n ∷ ns) 0 (n ∷ ns)
          (λ j m at. subst (λ k. get_elem? (n ∷ ns) k ≡ some m) (omega arith) at)) in
      let worth : total s.chosen ≡ amount + or_zero change = s.summed in
      let small : total s.chosen < 2 ^ 128 = omega (arith, worth, Selects-total-le s, fits) in
      let (ss, ran, balanced, final_last, few) =
        build_steps-balanced (n ∷ ns) amount change s.chosen
          (total-positive s.chosen (omega (arith, worth, positive))) named small worth in
      let len : length is ≡ length s.chosen = ap length (sym s.listed) ∙ length-indices s.chosen in
      let checked : check_indices is (length (n ∷ ns)) ≡ ok tt =
        ap (λ xs. check_indices xs (length (n ∷ ns))) (sym s.listed)
        ∙ check_indices-ok (n ∷ ns) s.chosen named in
      let ran' : build_steps (n ∷ ns) amount is change ≡ ok ss =
        ap (λ xs. build_steps (n ∷ ns) amount xs change) (sym s.listed) ∙ ran in
      let put : assemble ss ≡ some (record { steps = ss }) =
        unfold assemble in rw final_last refl in
      elim (Bool-cases (leb (length is) transaction_limit)) [
        | inl within ↦ inr (
            inr (
              record { steps = ss },
              simp (found, picked, within, checked, ran', put),
              balanced,
              omega (arith, few, len, leb→le _ _ within),
            ))
        | inr beyond ↦ inr (inl (length is, simp (found, picked, beyond), ground (arith, beyond)))
      ]

  fails :
      find_combination sort (map (λ (x : SpendableNote). x.amount) (n ∷ ns)) amount ≡ ok impossible
      → total (candidates (n ∷ ns)) < amount
      → Planned amount (n ∷ ns) (plan sort amount (n ∷ ns))
  unfolding plan selection
  fails found less = inl (simp found, less)

-- However the sort orders equal amounts: for an amount that is not zero and a wallet that is not
-- empty, of fewer than 2 ^ 64 notes whose amounts sum to less than 2 ^ 128, `plan` always answers, in
-- one of three ways. It says that there is no combination only if all notes together are less than
-- the amount; that there are too many notes only for more than ten; otherwise it gives a plan of at
-- most ten steps, each of whose inputs are worth exactly what the step puts out.
pub plan-Planned :
    (sort : List Candidate → List Candidate) (amount : ℕ) (n : SpendableNote)
    (ns : List SpendableNote)
    → 0 < amount
    → ((cs : List Candidate) → Permᴰ (sort cs) cs)
    → total (candidates (n ∷ ns)) < 2 ^ 128
    → length (candidates (n ∷ ns)) < 2 ^ 64
    → Planned amount (n ∷ ns) (plan sort amount (n ∷ ns))
plan-Planned sort amount n ns positive perm fits short =
    let (r, found, answer) =
      find_combination-Answer sort (map (λ (x : SpendableNote). x.amount) (n ∷ ns)) amount perm fits
        short in
    elim (selection-Selects (candidates (n ∷ ns)) amount r answer positive) [
      | inl (none_found, less) ↦
          fails sort amount n ns positive fits (found ∙ ap ok none_found) less
      | inr (is, change, picked, s) ↦
          selected sort amount n ns positive fits r change is s found picked
    ]
