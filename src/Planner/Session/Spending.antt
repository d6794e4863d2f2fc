-- ===== src/Planner/Session/Spending.antt =====
-- The notes that a plan spends: they stand in the wallet under distinct commitments, and no other note is
-- worth what a merge of them makes.
use veil_server_v.Prelude.{
  ℕ, suc, ◌+◌, ◌^◌, ◌≤◌, ◌<◌, ◌≡◌, ◌⊎◌, refl, sym, ap, ◌∙◌, subst, true, Option, some, List, [],
  ◌∷◌, map, arith, length, get_elem?, ok, inl, inr, lt-or-le,
}
use mathlib.Core.List.{Permᴰ, Sublistᴰ, Nodup, not-mem-nil, Pairwise}
use mathlib.Core.List.Permᴰ
use mathlib.Core.List.Sublistᴰ
use mathlib.Core.List.Perm as Perm
use mathlib.Core.List.Nodup as Nodup
use native.Mathlib.Nat.{zero-add}
use veil_server_v.Planner.Types.{Candidate, total}
use veil_server_v.Planner.Picks.{indices}
use veil_server_v.Planner.Top.{Rises, Falls, Sublist-Falls, Falls-zero, lacks, top}
use veil_server_v.Planner.Combination.Few.{Thrifty, find_combination-Thrifty}
use veil_server_v.Planner.Plan.{SpendableNote, PlannedStep, TransactionPlan, build_steps, plan}
use veil_server_v.Planner.Plan.Linked.{plan-inv}
use veil_server_v.Planner.Plan.Balanced.{all_name, all_name-cons}
use veil_server_v.Planner.Plan.Total.{
  candidates, length-indices, all_name-Perm, all_name-Sublist, all_name-enumerate,
}
use veil_server_v.Planner.Session.{commitments}
use veil_server_v.Planner.Session.Resolved.{HoldsAll}
use veil_server_v.Planner.Session.Clear.{
  LacksSums, Falls-LacksSums, lacks-Perm, none_worth, lacks-enumerate, Clear,
}
use veil_server_v.Planner.Session.Chosen.{Listed, spending, build_steps-spending}
use veil_server_v.Planner.Session.Noted.{
  map-Permᴰ, map-Sublistᴰ, key, key-at, keys-enumerate, noted, Listed-HoldsAll, selection-Thrifty,
}

-- No note of the wallet is worth what a merge of the notes makes before the last.
abbrev pub ClearFrom : List SpendableNote → SpendableNote → List SpendableNote → Type 0
ClearFrom notes n [] = Unit {0}
ClearFrom notes n (m ∷ ms) = Clear notes (n.amount + m.amount) ms

-- The steps spend notes of the wallet, each once.
pub record Spending (notes : List SpendableNote) (amount : ℕ) (steps : List PlannedStep)
    : Type 0 where
  pub first : SpendableNote
  pub others : List SpendableNote
  pub change : Option ℕ
  pub made : steps ≡ spending amount change first others
  pub held : HoldsAll notes (first ∷ others)
  pub distinct : Nodup (commitments (first ∷ others))
  pub clear : ClearFrom notes first others

module _ (notes : List SpendableNote) (goal : ℕ) (positive : 0 < goal) where
  -- The sums that the merges make, from a thrifty choice of three notes or more.
  sums-Clear :
      (high : ℕ) (order : List Candidate) (c d : Candidate) (cs : List Candidate)
      → Falls high order
      → Sublistᴰ (c ∷ d ∷ cs) order
      → goal ≤ total (c ∷ d ∷ cs)
      → top (suc (length cs)) order < goal
      → LacksSums order (c.1 + d.1) cs
  sums-Clear high order c d cs falls sub reach few =
      let down : Falls high (c ∷ d ∷ cs) = Sublist-Falls high sub falls in
      let positive_first : 0 < c.1 = elim (lt-or-le 0 c.1) [
        | inl more ↦ more
        | inr none_there ↦
            let zero_first : c.1 ≡ 0 = omega (arith, none_there) in
            let nothing : total (d ∷ cs) ≡ 0 =
              Falls-zero (d ∷ cs) (subst (λ b. Falls b (d ∷ cs)) zero_first down.1) in
            absurd (omega (arith, zero_first, nothing, reach, positive))
      ] in
      Falls-LacksSums order high goal falls cs (c.1 + d.1) d.1
        (Sublistᴰ.trans (Sublistᴰ.cons (Sublistᴰ.cons (Sublistᴰ.refl cs))) sub) down.1.1
        (omega (arith, positive_first)) (omega (arith, reach)) few

  frugal-LacksSums :
      (order : List Candidate) (c d : Candidate) (cs : List Candidate) (is : List ℕ)
      → (length is ≤ 2)
        ⊎ ((high : ℕ) × Falls high order × ((j : ℕ) → suc j ≡ length is → top j order < goal))
      → Sublistᴰ (c ∷ d ∷ cs) order
      → goal ≤ total (c ∷ d ∷ cs)
      → length is ≡ suc (suc (length cs))
      → LacksSums order (c.1 + d.1) cs
  frugal-LacksSums order c d [] is frugal sub reach size = tt
  frugal-LacksSums order c d (e ∷ cs) is (inl few) sub reach size =
      absurd (omega (arith, few, size))
  frugal-LacksSums order c d (e ∷ cs) is (inr (high, falls, few)) sub reach size =
      sums-Clear high order c d (e ∷ cs) falls sub reach (few (suc (length (e ∷ cs))) (sym size))

  distinct_keys :
      {order cs : List Candidate}
      → Permᴰ order (candidates notes)
      → Sublistᴰ cs order
      → Nodup (commitments notes)
      → Nodup (map (key notes) cs)
  distinct_keys {order} {cs} same sub distinct =
      let keys : map (key notes) (candidates notes) ≡ commitments notes =
        keys-enumerate notes 0 notes
          (λ j n at. subst (λ k. get_elem? notes k ≡ some n) (sym (zero-add j)) at) in
      Nodup.sublist ∣ map-Sublistᴰ (key notes) sub ∣₁
        (Perm.nodup ∣ Permᴰ.symm (map-Permᴰ (key notes) same) ∣₁ (subst Nodup (sym keys) distinct))

  -- What a thrifty choice spends.
  Thrifty-Spending :
      (is : List ℕ) (sum : ℕ) (change : Option ℕ) {ss : List PlannedStep}
      → Nodup (commitments notes)
      → Thrifty (candidates notes) goal is sum
      → goal ≤ sum
      → build_steps notes goal is change ≡ ok ss
      → Spending notes goal ss
  Thrifty-Spending is sum change {ss} distinct t reach built =
      go t.picks.chosen t.picks.among t.picks.listed (omega (arith, reach, t.picks.summed))
        all_chosen
    where
      all_named : all_name notes (candidates notes) ≡ true
      all_named =
          all_name-enumerate notes 0 notes
            (λ j n at. subst (λ k. get_elem? notes k ≡ some n) (sym (zero-add j)) at)

      all_chosen : all_name notes t.picks.chosen ≡ true
      all_chosen =
          all_name-Sublist notes t.picks.among (sym (all_name-Perm notes t.same) ∙ all_named)

      same_lacks : (v : ℕ) → lacks v t.order ≡ none_worth v notes
      same_lacks v = lacks-Perm v t.same ∙ lacks-enumerate v 0 notes

      go :
          (cs : List Candidate)
          → Sublistᴰ cs t.order
          → indices cs ≡ is
          → goal ≤ total cs
          → all_name notes cs ≡ true
          → Spending notes goal ss
      go [] sub listed far named = absurd (omega (arith, far, positive))
      go (c ∷ []) sub listed far named =
          let ((n, at, worth), rest) = all_name-cons notes c [] named in
          let built' = subst (λ js. build_steps notes goal js change ≡ ok ss) (sym listed) built in
          record {
            first = n;
            others = [];
            change = change;
            made = build_steps-spending notes goal change c.0 [] n [] (at, tt) built';
            held = ((c.0, at), tt);
            distinct = Pairwise.cons (λ a m. absurd (not-mem-nil m)) Pairwise.nil;
            clear = tt;
          }
      go (c ∷ d ∷ cs) sub listed far named =
          let ((n, at, worth), rest) = all_name-cons notes c (d ∷ cs) named in
          let ((m, at2, worth2), rest2) = all_name-cons notes d cs rest in
          let more = noted notes cs rest2 in
          let built' = subst (λ js. build_steps notes goal js change ≡ ok ss) (sym listed) built in
          let listing : Listed notes (indices (c ∷ d ∷ cs)) (n ∷ m ∷ more.ns) =
            (at, (at2, more.listed)) in
          let keys : map (key notes) (c ∷ d ∷ cs) ≡ commitments (n ∷ m ∷ more.ns) =
            let e1 = key-at notes c n at in
            let e2 = key-at notes d m at2 in let e3 = more.keyed in rw (e1, e2, e3) refl in
          let size : length is ≡ suc (suc (length cs)) =
            ap length (sym listed) ∙ length-indices (c ∷ d ∷ cs) in
          record {
            first = n;
            others = m ∷ more.ns;
            change = change;
            made =
                build_steps-spending notes goal change c.0 (indices (d ∷ cs)) n (m ∷ more.ns)
                  listing built';
            held = Listed-HoldsAll notes (indices (c ∷ d ∷ cs)) (n ∷ m ∷ more.ns) listing;
            distinct = subst Nodup keys (distinct_keys t.same sub distinct);
            clear =
                subst (λ a. Clear notes a more.ns) (omega (arith, worth, worth2))
                  (more.sums t.order (c.1 + d.1) same_lacks
                    (frugal-LacksSums t.order c d cs is t.frugal sub far size));
          }

-- Where the sort gives the candidates in an order that rises, a plan spends notes of the wallet, each
-- once, and no note of the wallet is worth what a merge makes before the last.
pub plan-Spending :
    (sort : List Candidate → List Candidate) (amount : ℕ) (notes : List SpendableNote)
    {p : TransactionPlan}
    → ((cs : List Candidate) → Permᴰ (sort cs) cs)
    → ((cs : List Candidate) → Rises 0 (sort cs))
    → 0 < amount
    → total (candidates notes) < 2 ^ 128
    → length (candidates notes) < 2 ^ 64
    → Nodup (commitments notes)
    → plan sort amount notes ≡ ok p
    → Spending notes amount p.steps
plan-Spending sort amount notes {p} perm rises positive fits short distinct ran =
    let stages = plan-inv sort amount notes ran in
    let answer =
      find_combination-Thrifty sort (map (λ (x : SpendableNote). x.amount) notes) amount perm rises
        positive fits short stages.found in
    let (sum, thrifty, reach) =
      selection-Thrifty (candidates notes) amount stages.combo answer stages.picked in
    Thrifty-Spending notes amount positive stages.chosen sum stages.change distinct thrifty reach
      stages.built
