-- ===== src/Planner/Plan/Balanced.antt =====
-- The steps over chosen notes: they are built, and each spends what its inputs are worth.
use veil_server_v.Prelude.{
  ℕ, zero, suc, ◌+◌, ◌^◌, ◌≤◌, ◌<◌, ◌≡◌, refl, sym, ap, ◌∙◌, subst, Bool, true, false, ◌&&◌, Option,
  none, some, List, [], ◌∷◌, ◌==◌, arith, ltb, lt→ltb, length, get_elem?, ok,
}
use veil_server_v.Planner.Types.{Candidate, total}
use veil_server_v.Planner.Picks.{indices}
use veil_server_v.Planner.Plan.{
  SpendableNote, StepNote, StepAction, consolidate, final, PlannedStep, from_spendable, from_amount,
  merges, set_last, build_steps, ends_final, check_indices,
}

abbrev pub or_zero : Option ℕ → ℕ
or_zero none = 0
or_zero (some a) = a

abbrev pub second_amount : Option StepNote → ℕ
second_amount none = 0
second_amount (some n) = n.amount

-- What a step's inputs and its outputs are worth.
abbrev pub in_sum : PlannedStep → ℕ
in_sum s = (s.inputs.0).amount + second_amount s.inputs.1

abbrev pub out_sum : StepAction → ℕ
out_sum (consolidate output) = output
out_sum (final amount change) = amount + or_zero change

-- Every step spends what its inputs are worth.
abbrev pub AllBalanced : List PlannedStep → Type 0
AllBalanced [] = Unit
AllBalanced (s ∷ ss) = (in_sum s ≡ out_sum s.action) × AllBalanced ss

-- The candidate is the note at its index.
abbrev pub names : List SpendableNote → Candidate → Bool
names notes c = elim (get_elem? notes c.0) [ none ↦ false | some n ↦ n.amount == c.1 ]

abbrev pub all_name : List SpendableNote → List Candidate → Bool
all_name notes [] = true
all_name notes (c ∷ cs) = names notes c && all_name notes cs

pub all_name-cons :
    (notes : List SpendableNote) (c : Candidate) (cs : List Candidate)
    → all_name notes (c ∷ cs) ≡ true
    → ((n : SpendableNote) × (get_elem? notes c.0 ≡ some n) × (n.amount ≡ c.1))
      × (all_name notes cs ≡ true)
all_name-cons notes c cs named = go (get_elem? notes c.0) refl named
  where
    go :
        (o : Option SpendableNote)
        → get_elem? notes c.0 ≡ o
        → ((elim o [ none ↦ false | some n ↦ n.amount == c.1 ]) && all_name notes cs) ≡ true
        → ((n : SpendableNote) × (get_elem? notes c.0 ≡ some n) × (n.amount ≡ c.1))
          × (all_name notes cs ≡ true)
    go none e h = cc
    go (some n) e h = ((n, e, ground (arith, h)), ground (arith, h))

set_last-cons :
    (a : StepAction) (s : PlannedStep) (ss : List PlannedStep)
    → 0 < length ss
    → set_last a (s ∷ ss) ≡ s ∷ set_last a ss
unfolding set_last
set_last-cons a s [] more = absurd (omega (arith, more))
set_last-cons a s (r ∷ rs) more = refl

ends_final-cons :
    (s : PlannedStep) (ss : List PlannedStep) → ends_final ss ≡ true → ends_final (s ∷ ss) ≡ true
unfolding ends_final
ends_final-cons s [] e = cc
ends_final-cons s (r ∷ rs) e = e

-- The steps are built, and once the last is made to spend the sum they are balanced.
pub record Built (k : ℕ) (sum : ℕ) (ss : List PlannedStep) : Type 0 where
  pub counted : length ss ≡ k
  pub ends :
      (amount : ℕ) (change : Option ℕ)
      → 0 < k
      → sum ≡ amount + or_zero change
      → AllBalanced (set_last (final amount change) ss)
        × (ends_final (set_last (final amount change) ss) ≡ true)
        × (length (set_last (final amount change) ss) ≡ k)

Built-cons :
    (s : PlannedStep) (ss : List PlannedStep) (k sum : ℕ)
    → s.action ≡ consolidate (in_sum s)
    → Built k sum ss
    → (k ≡ 0 → in_sum s ≡ sum)
    → Built (suc k) sum (s ∷ ss)
Built-cons s [] k sum merging built one = record {
  counted = ap suc built.counted;
  ends = λ amount change _ eq.
      unfold set_last ends_final in
      ((one (sym built.counted) ∙ eq, tt), refl, ap suc built.counted);
}
Built-cons s (r ∷ rs) k sum merging built one = record {
  counted = ap suc built.counted;
  ends = λ amount change _ eq.
      let (balanced, final_last, len) =
        built.ends amount change (omega (arith, built.counted)) eq in
      rw (set_last-cons (final amount change) s (r ∷ rs) (omega arith)) (
        (sym (ap out_sum merging), balanced),
        ends_final-cons s (set_last (final amount change) (r ∷ rs)) final_last,
        ap suc len,
      );
}

total-none : (cs : List Candidate) → length cs ≡ 0 → total cs ≡ 0
total-none [] e = refl
total-none (c ∷ cs) e = absurd (omega (arith, e))

get_elem?-some_lt :
    (notes : List SpendableNote) (i : ℕ) {n : SpendableNote}
    → get_elem? notes i ≡ some n
    → i < length notes
get_elem?-some_lt [] i e = cc
get_elem?-some_lt (m ∷ ms) zero e = omega arith
get_elem?-some_lt (m ∷ ms) (suc i) e = omega (arith, get_elem?-some_lt ms i e)

module _ (notes : List SpendableNote) where
  pub merges-Built :
      (cs : List Candidate) (sum : ℕ) (prev : StepNote)
      → prev.amount ≡ sum
      → all_name notes cs ≡ true
      → sum + total cs < 2 ^ 128
      → (ss : List PlannedStep) × (merges notes sum prev (indices cs) ≡ ok ss)
        × Built (length cs) (sum + total cs) ss
  unfolding merges
  merges-Built [] sum prev e named fits = (
    [],
    refl,
    record { counted = refl; ends = λ amount change more eq. absurd (omega (arith, more)) },
  )
  merges-Built (c ∷ cs) sum prev e named fits =
      let ((n, at, worth), rest) = all_name-cons notes c cs named in
      let next : ℕ = sum + n.amount in
      let small : ltb (sum + n.amount) (2 ^ 128) ≡ true = lt→ltb _ _ (omega (arith, fits, worth)) in
      let (ss, ran, built) =
        merges-Built cs next (from_amount next) refl rest (omega (arith, fits, worth)) in
      let here : PlannedStep = record {
        inputs = (prev, some (from_spendable n));
        action = consolidate next;
      } in
      (
        here ∷ ss,
        simp (at, small, ran),
        subst (λ m. Built (length (c ∷ cs)) m (here ∷ ss)) (omega (arith, worth))
            (Built-cons here ss (length cs) (next + total cs)
              (ap (λ m. consolidate (m + n.amount)) (sym e)) built
              (λ none_left. omega (arith, e, total-none cs none_left))),
      )

  -- Chosen notes that are worth the amount and the change are spent in balanced steps.
  pub build_steps-balanced :
      (amount : ℕ) (change : Option ℕ) (cs : List Candidate)
      → 0 < length cs
      → all_name notes cs ≡ true
      → total cs < 2 ^ 128
      → total cs ≡ amount + or_zero change
      → (ss : List PlannedStep) × (build_steps notes amount (indices cs) change ≡ ok ss)
        × AllBalanced ss
        × (ends_final ss ≡ true)
        × (length ss ≤ length cs)
  unfolding build_steps
  build_steps-balanced amount change [] more named fits eq = absurd (omega (arith, more))
  build_steps-balanced amount change (c ∷ []) more named fits eq =
      let ((n, at, worth), rest) = all_name-cons notes c [] named in
      (
        record { inputs = (from_spendable n, none); action = final amount change } ∷ [],
        simp at,
        (omega (arith, worth, eq), tt),
        unfold ends_final in refl,
        omega arith,
      )
  build_steps-balanced amount change (c ∷ d ∷ cs) more named fits eq =
      let ((n, at, worth), rest) = all_name-cons notes c (d ∷ cs) named in
      let (ss, ran, built) =
        merges-Built (d ∷ cs) n.amount (from_spendable n) refl rest (omega (arith, fits, worth)) in
      let (balanced, final_last, len) =
        built.ends amount change (omega arith) (omega (arith, worth, eq)) in
      (set_last (final amount change) ss, simp (at, ran), balanced, final_last, omega (arith, len))

  pub check_indices-ok :
      (cs : List Candidate)
      → all_name notes cs ≡ true
      → check_indices (indices cs) (length notes) ≡ ok tt
  unfolding check_indices
  check_indices-ok [] named = refl
  check_indices-ok (c ∷ cs) named =
      let ((n, at, worth), rest) = all_name-cons notes c cs named in
      simp (lt→ltb c.0 (length notes) (get_elem?-some_lt notes c.0 at), check_indices-ok cs rest)
