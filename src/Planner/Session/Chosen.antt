-- ===== src/Planner/Session/Chosen.antt =====
-- The notes that a plan has chosen, and the steps that are made of them.
use veil_server_v.Prelude.{
  ℕ, ◌+◌, ◌≡◌, refl, sym, ap, ◌∙◌, subst, Option, none, some, List, [], ◌∷◌, arith, get_elem?,
  Outcome, ok, unwrap, unwrap-inv, >>=-eq-ok, ok-injective,
}
use mathlib.Core.Option.{some-injective}
use veil_server_v.Planner.Types.{PlanError, add_amounts}
use veil_server_v.Planner.Plan.{
  SpendableNote, StepNote, PlannedStep, consolidate, final, from_spendable, from_amount, merges,
  set_last, build_steps,
}

-- The steps that merge the note `prev` with `n`, the result with the next, and so on; the last spends.
abbrev pub chain : ℕ → Option ℕ → StepNote → SpendableNote → List SpendableNote → List PlannedStep
chain amount change prev n [] =
    record { inputs = (prev, some (from_spendable n)); action = final amount change } ∷ []
chain amount change prev n (m ∷ ms) =
    record {
      inputs = (prev, some (from_spendable n));
      action = consolidate (prev.amount + n.amount);
    }
    ∷ chain amount change (from_amount (prev.amount + n.amount)) m ms

-- The steps that spend the notes `n ∷ ns`.
abbrev pub spending : ℕ → Option ℕ → SpendableNote → List SpendableNote → List PlannedStep
spending amount change n [] =
    record { inputs = (from_spendable n, none); action = final amount change } ∷ []
spending amount change n (m ∷ ms) = chain amount change (from_spendable n) m ms

-- The notes at the indices.
abbrev pub Listed : List SpendableNote → List ℕ → List SpendableNote → Type 0
Listed notes [] [] = Unit {0}
Listed notes [] (n ∷ ns) = ⊥
Listed notes (i ∷ is) [] = ⊥
Listed notes (i ∷ is) (n ∷ ns) = (get_elem? notes i ≡ some n) × Listed notes is ns

module _ (notes : List SpendableNote) (amount : ℕ) (change : Option ℕ) where
  -- The first round of the merges.
  merges-round :
      (i : ℕ) (is : List ℕ) (sum : ℕ) (prev : StepNote) (n : SpendableNote) {ss : List PlannedStep}
      → prev.amount ≡ sum
      → get_elem? notes i ≡ some n
      → merges notes sum prev (i ∷ is) ≡ ok ss
      → (rest : List PlannedStep) × (merges notes
            (prev.amount + n.amount)
            (from_amount (prev.amount + n.amount))
            is
          ≡ ok rest)
        × (ss
            ≡ record {
              inputs = (prev, some (from_spendable n));
              action = consolidate (prev.amount + n.amount);
            }
              ∷ rest)
  unfolding merges
  merges-round i is sum prev n {ss} e at ran =
      let (note, got, ran1) = >>=-eq-ok (unwrap (get_elem? notes i)) _ ran in
      let it : note ≡ n = some-injective _ _ (sym (unwrap-inv _ got) ∙ at) in
      let (next, add, ran2) = >>=-eq-ok (add_amounts sum note.amount) _ ran1 in
      let next_is : next ≡ prev.amount + n.amount =
        ground (arith, add, e, ap (λ (x : SpendableNote). x.amount) it) in
      let (rest, more, ran3) = >>=-eq-ok (merges notes next (from_amount next) is) _ ran2 in
      (
        rest,
        subst (λ m. merges notes m (from_amount m) is ≡ ok rest) next_is more,
        sym (ok-injective ran3)
            ∙ ap
                (λ m.
                  record { inputs = (prev, some (from_spendable note)); action = consolidate m }
                  ∷ rest)
                next_is
            ∙ ap
                (λ x.
                  record {
                    inputs = (prev, some (from_spendable x));
                    action = consolidate (prev.amount + n.amount);
                  }
                  ∷ rest)
                it,
      )

  set_last-chain :
      (s : PlannedStep) (ss : List PlannedStep) (prev : StepNote) (n : SpendableNote)
      (ns : List SpendableNote)
      → set_last (final amount change) ss ≡ chain amount change prev n ns
      → set_last (final amount change) (s ∷ ss) ≡ s ∷ chain amount change prev n ns
  unfolding set_last
  set_last-chain s [] prev n [] h = cc
  set_last-chain s [] prev n (m ∷ ms) h = cc
  set_last-chain s (r ∷ rs) prev n ns h = ap (λ xs. s ∷ xs) h

  merges-chain :
      (is : List ℕ) (sum : ℕ) (prev : StepNote) (i : ℕ) (n : SpendableNote)
      (ns : List SpendableNote) {ss : List PlannedStep}
      → prev.amount ≡ sum
      → get_elem? notes i ≡ some n
      → Listed notes is ns
      → merges notes sum prev (i ∷ is) ≡ ok ss
      → set_last (final amount change) ss ≡ chain amount change prev n ns
  unfolding merges set_last
  merges-chain [] sum prev i n [] e at listed ran =
      let (rest, more, put) = merges-round i [] sum prev n e at ran in
      let none_left : [] ≡ rest = ok-injective more in
      ap (set_last (final amount change)) (
        put
        ∙ ap
            (λ xs.
              record {
                inputs = (prev, some (from_spendable n));
                action = consolidate (prev.amount + n.amount);
              }
              ∷ xs)
            (sym none_left))
  merges-chain [] sum prev i n (m ∷ ms) e at listed ran = absurd listed
  merges-chain (j ∷ is) sum prev i n [] e at listed ran = absurd listed
  merges-chain (j ∷ is) sum prev i n (m ∷ ms) e at listed ran =
      let (rest, more, put) = merges-round i (j ∷ is) sum prev n e at ran in
      ap (set_last (final amount change)) put
      ∙ set_last-chain _ rest (from_amount (prev.amount + n.amount)) m ms (
          merges-chain is (prev.amount + n.amount) (from_amount (prev.amount + n.amount)) j m ms
            refl listed.0 listed.1 more)

  pub build_steps-spending :
      (i : ℕ) (is : List ℕ) (n : SpendableNote) (ns : List SpendableNote) {ss : List PlannedStep}
      → Listed notes (i ∷ is) (n ∷ ns)
      → build_steps notes amount (i ∷ is) change ≡ ok ss
      → ss ≡ spending amount change n ns
  unfolding build_steps
  build_steps-spending i [] n [] {ss} listed ran =
      let single : Outcome PlanError (List PlannedStep) = ok (spending amount change n []) in
      let ran' : single ≡ ok ss = ground (arith, listed.0, ran) in sym (ok-injective ran')
  build_steps-spending i [] n (m ∷ ms) listed ran = absurd listed.1
  build_steps-spending i (j ∷ is) n [] listed ran = absurd listed.1
  build_steps-spending i (j ∷ is) n (m ∷ ms) listed ran =
      let (note, got, ran1) = >>=-eq-ok (unwrap (get_elem? notes i)) _ ran in
      let it : note ≡ n = some-injective _ _ (sym (unwrap-inv _ got) ∙ listed.0) in
      let (ss0, merged, ran2) =
        >>=-eq-ok (merges notes note.amount (from_spendable note) (j ∷ is)) _ ran1 in
      sym (ok-injective ran2)
      ∙ merges-chain is n.amount (from_spendable n) j m ms refl listed.1.0 listed.1.1
          (subst (λ x. merges notes x.amount (from_spendable x) (j ∷ is) ≡ ok ss0) it merged)
