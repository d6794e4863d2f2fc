-- ===== src/Planner/Plan/Linked.antt =====
-- The steps of a plan: each merges the result of the one before with one more note, and the last spends.
use veil_server_v.Prelude.{
  ℕ, ◌+◌, ◌≡◌, refl, sym, ap, ◌∙◌, subst, Option, none, some, List, [], ◌∷◌, map, arith, leb,
  length, get_elem?, ok, >>=-eq-ok, ok-injective, ok_or, unwrap, ensure,
}
use veil_server_v.Planner.Types.{
  PlanError, invalid_plan, too_many_notes, transaction_limit, Candidate, add_amounts,
}
use veil_server_v.Planner.Combination.{CombinationResult, find_combination}
use veil_server_v.Planner.Plan.{
  SpendableNote, StepNote, consolidate, final, PlannedStep, TransactionPlan, from_spendable,
  from_amount, merges, set_last, build_steps, assemble, plan, selection, check_indices,
}

-- From the note `prev` on, each step takes the note that is carried and one more, and passes on a
-- note of their sum; the last step spends `amount` with the change.
unfoldable pub Linked : StepNote → ℕ → Option ℕ → List PlannedStep → Type 0
Linked prev amount change [] = ⊥
Linked prev amount change (s ∷ []) = (s.inputs.0 ≡ prev) × (s.action ≡ final amount change)
Linked prev amount change (s ∷ r ∷ ss) =
    (s.inputs.0 ≡ prev)
    × ((n : StepNote) × (s.inputs.1 ≡ some n)
        × (s.action ≡ consolidate (prev.amount + n.amount))
        × Linked (from_amount (prev.amount + n.amount)) amount change (r ∷ ss))

add_amounts-inv : (a b : ℕ) {c : ℕ} → add_amounts a b ≡ ok c → c ≡ a + b
add_amounts-inv a b e = ground (arith, e)

pub ok_or-inv : {A : Type 0} (o : Option A) (e : PlanError) {a : A} → ok_or o e ≡ ok a → o ≡ some a
ok_or-inv none e h = cc
ok_or-inv (some a) e h = ap some (ok-injective h)

-- The step that merges `n` into `prev`.
abbrev merging : StepNote → StepNote → ℕ → PlannedStep
merging prev n out = record { inputs = (prev, some n); action = consolidate out }

module _ (amount : ℕ) (change : Option ℕ) where
  link :
      (s : PlannedStep) (prev n : StepNote) (rest : List PlannedStep)
      → s.inputs.0 ≡ prev
      → s.inputs.1 ≡ some n
      → s.action ≡ consolidate (prev.amount + n.amount)
      → Linked
          (from_amount (prev.amount + n.amount))
          amount
          change
          (set_last (final amount change) rest)
      → Linked prev amount change (set_last (final amount change) (s ∷ rest))
  unfolding Linked set_last
  link s prev n [] p q a l = absurd l
  link s prev n (r ∷ []) p q a l = (p, (n, q, a, l))
  link s prev n (r ∷ t ∷ ts) p q a l = (p, (n, q, a, l))

  module _ (notes : List SpendableNote) where
    -- The first round of the merges.
    merges-inv :
        (i : ℕ) (is : List ℕ) (sum : ℕ) (prev : StepNote) {ss : List PlannedStep}
        → prev.amount ≡ sum
        → merges notes sum prev (i ∷ is) ≡ ok ss
        → (n : StepNote) × (rest : List PlannedStep) × (merges notes
              (prev.amount + n.amount)
              (from_amount (prev.amount + n.amount))
              is
            ≡ ok rest)
          × (ss ≡ merging prev n (prev.amount + n.amount) ∷ rest)
    unfolding merges
    merges-inv i is sum prev {ss} e ran =
        let (note, got, ran1) = >>=-eq-ok (unwrap (get_elem? notes i)) _ ran in
        let (next, add, ran2) = >>=-eq-ok (add_amounts sum note.amount) _ ran1 in
        let (rest, more, ran3) = >>=-eq-ok (merges notes next (from_amount next) is) _ ran2 in
        let sum_eq : next ≡ prev.amount + note.amount =
          add_amounts-inv sum note.amount add ∙ ap (λ m. m + note.amount) (sym e) in
        let head : ℕ → List PlannedStep = λ m. merging prev (from_spendable note) m ∷ rest in
        (
          from_spendable note,
          rest,
          subst (λ m. merges notes m (from_amount m) is ≡ ok rest) sum_eq more,
          sym (ok-injective ran3) ∙ ap head sum_eq,
        )

    merges-Linked :
        (i : ℕ) (is : List ℕ) (sum : ℕ) (prev : StepNote) {ss : List PlannedStep}
        → prev.amount ≡ sum
        → merges notes sum prev (i ∷ is) ≡ ok ss
        → Linked prev amount change (set_last (final amount change) ss)
    unfolding merges Linked set_last
    merges-Linked i [] sum prev e ran =
        let (n, rest, more, at) = merges-inv i [] sum prev e ran in
        let none_left : [] ≡ rest = ok-injective more in
        let put : List PlannedStep → List PlannedStep =
          λ r. merging prev n (prev.amount + n.amount) ∷ r in
        let one : Linked prev amount change (set_last (final amount change) (put [])) =
          (refl, refl) in
        subst (λ xs. Linked prev amount change (set_last (final amount change) xs))
          (ap put none_left ∙ sym at) one
    merges-Linked i (j ∷ is) sum prev e ran =
        let (n, rest, more, at) = merges-inv i (j ∷ is) sum prev e ran in
        let l =
          merges-Linked j is (prev.amount + n.amount) (from_amount (prev.amount + n.amount)) refl
            more in
        subst (λ xs. Linked prev amount change (set_last (final amount change) xs)) (sym at)
          (link (merging prev n (prev.amount + n.amount)) prev n rest refl refl refl l)

    build_steps-Linked :
        (is : List ℕ) {ss : List PlannedStep}
        → build_steps notes amount is change ≡ ok ss
        → (n : SpendableNote) × Linked (from_spendable n) amount change ss
    unfolding build_steps Linked
    build_steps-Linked [] ran = cc
    build_steps-Linked (i ∷ []) ran =
        let (n, got, ran1) = >>=-eq-ok (unwrap (get_elem? notes i)) _ ran in
        let only : Linked (from_spendable n) amount change
            (record { inputs = (from_spendable n, none); action = final amount change } ∷ []) =
          (refl, refl) in
        (n, subst (Linked (from_spendable n) amount change) (ok-injective ran1) only)
    build_steps-Linked (i ∷ j ∷ is) ran =
        let (n, got, ran1) = >>=-eq-ok (unwrap (get_elem? notes i)) _ ran in
        let (ss, merged, ran2) = >>=-eq-ok _ _ ran1 in
        (
          n,
          subst (Linked (from_spendable n) amount change) (ok-injective ran2)
              (merges-Linked j is n.amount (from_spendable n) refl merged),
        )

assemble-inv : (ss : List PlannedStep) {p : TransactionPlan} → assemble ss ≡ some p → p.steps ≡ ss
unfolding assemble
assemble-inv ss e = ground (arith, e)

-- The stages of a plan that is returned.
pub record Stages (sort : List Candidate → List Candidate) (amount : ℕ) (notes : List SpendableNote)
    (p : TransactionPlan) : Type 0 where
  pub combo : CombinationResult
  pub chosen : List ℕ
  pub change : Option ℕ
  pub found : find_combination sort (map (λ (x : SpendableNote). x.amount) notes) amount ≡ ok combo
  pub picked : selection combo ≡ ok (chosen, change)
  pub built : build_steps notes amount chosen change ≡ ok p.steps

pub plan-inv :
    (sort : List Candidate → List Candidate) (amount : ℕ) (notes : List SpendableNote)
    {p : TransactionPlan}
    → plan sort amount notes ≡ ok p
    → Stages sort amount notes p
unfolding plan
plan-inv sort amount [] ran = cc
plan-inv sort amount (n ∷ ns) ran =
    let amounts = map (λ (x : SpendableNote). x.amount) (n ∷ ns) in
    let (combo, found, ran1) = >>=-eq-ok (find_combination sort amounts amount) _ ran in
    let (picked, chosen, ran2) = >>=-eq-ok {V = List ℕ × Option ℕ} (selection combo) _ ran1 in
    let (few, enough, ran3) =
      >>=-eq-ok
        (ensure (leb (length picked.0) transaction_limit)
          (too_many_notes (length picked.0) transaction_limit))
        _ ran2 in
    let (ins, in_range, ran4) = >>=-eq-ok (check_indices picked.0 (length (n ∷ ns))) _ ran3 in
    let (ss, built, ran5) = >>=-eq-ok (build_steps (n ∷ ns) amount picked.0 picked.1) _ ran4 in
    let steps = assemble-inv ss (ok_or-inv (assemble ss) invalid_plan ran5) in
    record {
      combo = combo;
      chosen = picked.0;
      change = picked.1;
      found = found;
      picked = chosen;
      built = built ∙ ap ok (sym steps);
    }

-- In a plan that is returned, every step but the last merges the note that is carried, which has a
-- commitment at first, with one more, into a note of their sum that the next step carries; the last
-- step, and no other, spends the amount asked for.
pub plan-Linked :
    (sort : List Candidate → List Candidate) (amount : ℕ) (notes : List SpendableNote)
    {p : TransactionPlan}
    → plan sort amount notes ≡ ok p
    → (n : SpendableNote) × (change : Option ℕ) × Linked (from_spendable n) amount change p.steps
plan-Linked sort amount notes ran =
    let stages = plan-inv sort amount notes ran in
    let (first, linked) =
      build_steps-Linked amount stages.change notes stages.chosen stages.built in
    (first, stages.change, linked)
