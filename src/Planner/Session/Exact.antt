-- ===== src/Planner/Session/Exact.antt =====
-- The steps of a plan, exactly: which notes of the wallet they take, and in which way they merge them.
use veil_server_v.Prelude.{
  ℕ, ◌+◌, ◌^◌, ◌≤◌, ◌<◌, ◌≡◌, refl, sym, ap, ◌∙◌, subst, true, Option, some, List, [], ◌∷◌, map,
  arith, length, get_elem?, ok, ok-injective, inl, inr,
}
use mathlib.Core.Logic.{∥∥₁_elim}
use mathlib.Core.Logic.Or
use native.Mathlib.Bridge.{le_prop}
use native.Mathlib.Nat.{zero-add}
use mathlib.Core.List.{
  Permᴰ, Nodup, Nodup-cons, Mem, Subperm, Pairwise, Pairwise-prop, not-mem-nil,
  eq-or-mem_of_mem-cons,
}
use mathlib.Core.List.Perm as Perm
use mathlib.Core.List.Nodup as Nodup
use mathlib.Core.HLevel.{¬_prop}
use veil_server_v.Planner.Types.{Candidate, total}
use veil_server_v.Planner.Picks.{Selects, indices}
use veil_server_v.Planner.Combination.{impossible, enumerate}
use veil_server_v.Planner.Combination.Sound.{find_combination-Answer}
use veil_server_v.Planner.Plan.{
  SpendableNote, PlannedStep, TransactionPlan, selection, build_steps, plan,
}
use veil_server_v.Planner.Plan.Linked.{plan-inv}
use veil_server_v.Planner.Plan.Balanced.{or_zero, all_name, all_name-cons}
use veil_server_v.Planner.Plan.Total.{
  candidates, all_name-Selects, all_name-enumerate, selection-Selects,
}
use veil_server_v.Planner.Session.Resolved.{worth}
use veil_server_v.Planner.Session.Chosen.{Listed, spending, build_steps-spending}
use veil_server_v.Planner.Session.Noted.{map-Permᴰ, map-Sublistᴰ}

-- The steps spend the notes at distinct indices of the wallet, which are worth the amount and the
-- change, as `spending` merges them.
pub record SpendsNotes (notes : List SpendableNote) (amount : ℕ) (steps : List PlannedStep)
    : Type 0 where
  pub is : List ℕ
  pub first : SpendableNote
  pub others : List SpendableNote
  pub change : Option ℕ
  pub listed : Listed notes is (first ∷ others)
  pub once : Nodup is
  pub worth_is : worth (first ∷ others) ≡ amount + or_zero change
  pub steps_are : steps ≡ spending amount change first others

enumerate-above : (k i : ℕ) (xs : List ℕ) → Mem k (indices (enumerate i xs)) → i ≤ k
unfolding enumerate
enumerate-above k i [] m = absurd (not-mem-nil m)
enumerate-above k i (x ∷ xs) m =
    Or.elim le_prop (eq-or-mem_of_mem-cons m) (λ e. omega (arith, e))
      (λ rest. omega (arith, enumerate-above k (i + 1) xs rest))

enumerate-Nodup : (i : ℕ) (xs : List ℕ) → Nodup (indices (enumerate i xs))
unfolding enumerate
enumerate-Nodup i [] = Pairwise.nil
enumerate-Nodup i (x ∷ xs) =
    Nodup-cons.1
      (λ m. absurd (too_low (enumerate-above i (i + 1) xs m)), enumerate-Nodup (i + 1) xs)
  where
    too_low : i + 1 ≤ i → ⊥
    too_low le = absurd (omega (arith, le))

Subperm-Nodup : {xs cs : List Candidate} → Subperm xs cs → Nodup (indices cs) → Nodup (indices xs)
Subperm-Nodup {xs} {cs} sub distinct = ∥∥₁_elim sub (Pairwise-prop (λ a b. ¬_prop)) (λ w.
    ∥∥₁_elim w.1 (Pairwise-prop (λ a b. ¬_prop)) (λ p.
      ∥∥₁_elim w.2 (Pairwise-prop (λ a b. ¬_prop)) (λ d.
        Perm.nodup ∣ map-Permᴰ (λ (c : Candidate). c.0) p ∣₁
          (Nodup.sublist ∣ map-Sublistᴰ (λ (c : Candidate). c.0) d ∣₁ distinct))))

-- The notes that candidates name are worth what the candidates are.
named_notes :
    (notes : List SpendableNote) (cs : List Candidate)
    → all_name notes cs ≡ true
    → (ns : List SpendableNote) × Listed notes (indices cs) ns × (worth ns ≡ total cs)
named_notes notes [] named = ([], tt, refl)
named_notes notes (c ∷ cs) named =
    let ((n, at, value), rest) = all_name-cons notes c cs named in
    let (ns, listed, sum) = named_notes notes cs rest in
    (n ∷ ns, (at, listed), omega (arith, value, sum))

module _ (notes : List SpendableNote) (amount : ℕ) (positive : 0 < amount) where
  Listed-SpendsNotes :
      (is : List ℕ) (change : Option ℕ) (ns : List SpendableNote) {ss : List PlannedStep}
      → Listed notes is ns
      → Nodup is
      → worth ns ≡ amount + or_zero change
      → build_steps notes amount is change ≡ ok ss
      → SpendsNotes notes amount ss
  Listed-SpendsNotes [] change [] listed distinct sum built = absurd (omega (arith, sum, positive))
  Listed-SpendsNotes [] change (n ∷ ns) listed distinct sum built = absurd listed
  Listed-SpendsNotes (i ∷ is) change [] listed distinct sum built = absurd listed
  Listed-SpendsNotes (i ∷ is) change (n ∷ ns) listed distinct sum built = record {
    is = i ∷ is;
    first = n;
    others = ns;
    change = change;
    listed = listed;
    once = distinct;
    worth_is = sum;
    steps_are = build_steps-spending notes amount change i is n ns listed built;
  }

  Selects-SpendsNotes :
      (is : List ℕ) (change : Option ℕ) {ss : List PlannedStep}
      → Selects (candidates notes) is (amount + or_zero change)
      → build_steps notes amount is change ≡ ok ss
      → SpendsNotes notes amount ss
  Selects-SpendsNotes is change s built =
      let named = all_name-Selects notes s (
        all_name-enumerate notes 0 notes
          (λ j n at. subst (λ k. get_elem? notes k ≡ some n) (sym (zero-add j)) at)) in
      let (ns, listed, sum) = named_notes notes s.chosen named in
      Listed-SpendsNotes is change ns (subst (λ js. Listed notes js ns) s.listed listed)
        (subst Nodup s.listed
          (Subperm-Nodup s.among (enumerate-Nodup 0 (map (λ (x : SpendableNote). x.amount) notes))))
        (sum ∙ s.summed) built

impossible_is_no_plan :
    {is : List ℕ} {change : Option ℕ} → selection impossible ≡ ok (is, change) → ⊥
unfolding selection
impossible_is_no_plan e = cc

-- However the sort orders equal amounts: for an amount that is not zero and a wallet of fewer than
-- 2 ^ 64 notes whose amounts sum to less than 2 ^ 128, a plan that is returned follows from some notes
-- of the wallet, which stand at distinct places of it and are worth exactly the amount and the change.
-- A single note is spent by one step. Of more, the first is merged with the second, the result with
-- the third, and so on, one step for each note after the first: a step takes the note that is carried,
-- which is the first of them at the start, and the next of them; all steps but the last make a note of
-- the sum, which the step after it carries, and the last, and no other, spends the amount with the
-- change.
pub plan-SpendsNotes :
    (sort : List Candidate → List Candidate) (amount : ℕ) (notes : List SpendableNote)
    {p : TransactionPlan}
    → 0 < amount
    → ((cs : List Candidate) → Permᴰ (sort cs) cs)
    → total (candidates notes) < 2 ^ 128
    → length (candidates notes) < 2 ^ 64
    → plan sort amount notes ≡ ok p
    → SpendsNotes notes amount p.steps
plan-SpendsNotes sort amount notes {p} positive perm fits short ran =
    let stages = plan-inv sort amount notes ran in
    let (r, found, answer) =
      find_combination-Answer sort (map (λ (x : SpendableNote). x.amount) notes) amount perm fits
        short in
    let same : r ≡ stages.combo = ok-injective (sym found ∙ stages.found) in
    let picked : selection r ≡ ok (stages.chosen, stages.change) =
      ap selection same ∙ stages.picked in
    elim (selection-Selects (candidates notes) amount r answer positive) [
      | inl (none_found, less) ↦
          absurd (impossible_is_no_plan (ap selection (sym none_found) ∙ picked))
      | inr (is, change, chosen, s) ↦
          let both = ok-injective {A = List ℕ × Option ℕ} (sym chosen ∙ picked) in
          Selects-SpendsNotes notes amount positive is change s (
            subst (λ (c : List ℕ × Option ℕ). build_steps notes amount c.0 c.1 ≡ ok p.steps)
              (sym both) stages.built)
    ]
