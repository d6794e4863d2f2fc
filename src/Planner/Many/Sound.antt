-- ===== src/Planner/Many/Sound.antt =====
-- The scan for three or more notes answers: with distinct candidates of the sum that it says, or with
-- a miss where all candidates together do not reach the goal.
use veil_server_v.Prelude.{
  ℕ, zero, suc, ◌+◌, ◌-◌, ◌^◌, ◌≤◌, ◌<◌, ◌≡◌, refl, sym, ap, ◌∙◌, subst, some, List, [], ◌∷◌, ◌++◌,
  arith, ltb, leb, lt→leb, le→leb, lt→ltb, lt-or-le, Bool-cases, Option-cases, inl, inr, length,
  Outcome, ok,
}
use mathlib.Core.List.{append-nil, append_assoc, reverse, Subperm, Sublistᴰ}
use mathlib.Core.List.Subperm
use mathlib.Core.List.Sublist
use mathlib.Core.List.Sublistᴰ
use veil_server_v.Planner.Types.{PlanError, transaction_limit, Candidate, total, add_amounts}
use veil_server_v.Planner.Picks.{
  Picks, Selects, Picks-Selects, reverse-Subperm, total-reverse, indices, indices-append,
  total-append, total-le, prefix-Sublist,
}
use veil_server_v.Planner.Many.{
  KScan, exact, overshoot, miss, greedy_loop, greedy_impl, below, fresh, search, scan, least,
}
use veil_server_v.Planner.Many.Dfs.{dfs-Left, KeptOvershoot}

unfoldable pub Answer : List Candidate → ℕ → KScan → Type 0
Answer cs goal (exact is) = Selects cs is goal
Answer cs goal (overshoot is excess) = Selects cs is (goal + excess)
Answer cs goal miss = 0 < goal → total cs < goal

abbrev pub Gives : List Candidate → ℕ → Outcome PlanError KScan → Type 0
Gives cs goal o = (r : KScan) × (o ≡ ok r) × Answer cs goal r

abbrev GreedyAnswer : List Candidate → ℕ → KScan → Type 0
GreedyAnswer cs goal (exact is) = Picks cs is goal
GreedyAnswer cs goal (overshoot is excess) = Picks cs is (goal + excess)
GreedyAnswer cs goal miss = 0 < goal → total cs < goal

module _ (cs : List Candidate) (goal : ℕ) (fits : total cs < 2 ^ 128) where
  module _ (sum : ℕ) (is : List ℕ) (c : Candidate) (rest : List Candidate)
      (add : add_amounts sum c.1 ≡ ok (sum + c.1)) where
    pub reached :
        goal ≤ sum + c.1
        → greedy_loop (c ∷ rest) goal sum is ≡ ok (overshoot (is ++ (c.0 ∷ [])) (sum + c.1 - goal))
    unfolding greedy_loop
    reached h = ground (arith, add, le→leb goal (sum + c.1) h)

    pub not_reached :
        sum + c.1 < goal
        → greedy_loop (c ∷ rest) goal sum is ≡ greedy_loop rest goal (sum + c.1) (is ++ (c.0 ∷ []))
    unfolding greedy_loop
    not_reached h = ground (arith, add, lt→leb goal (sum + c.1) h)

  greedy_loop-answers :
      (rest : List Candidate) (sum : ℕ) (is : List ℕ) (ps : List Candidate)
      → ps ++ rest ≡ cs
      → indices ps ≡ is
      → total ps ≡ sum
      → (0 < goal → sum < goal)
      → (r : KScan) × (greedy_loop rest goal sum is ≡ ok r) × GreedyAnswer cs goal r
  unfolding greedy_loop
  greedy_loop-answers [] sum is ps all listed summed low =
      let e : total cs ≡ sum = ap total (sym all ∙ append-nil ps) ∙ summed in
      (miss, refl, λ pos. omega (arith, e, low pos))
  greedy_loop-answers (c ∷ rest) sum is ps all listed summed low =
      let b : total cs ≡ total ps + (c.1 + total rest) =
        ap total (sym all) ∙ total-append ps (c ∷ rest) in
      let add : add_amounts sum c.1 ≡ ok (sum + c.1) =
        simp (lt→ltb (sum + c.1) (2 ^ 128) (omega (arith, summed, b, fits))) in
      let all' : (ps ++ (c ∷ [])) ++ rest ≡ cs = append_assoc ps (c ∷ []) rest ∙ all in
      let listed' : indices (ps ++ (c ∷ [])) ≡ is ++ (c.0 ∷ []) =
        indices-append ps (c ∷ []) ∙ ap (λ js. js ++ (c.0 ∷ [])) listed in
      let summed' : total (ps ++ (c ∷ [])) ≡ sum + c.1 =
        total-append ps (c ∷ []) ∙ omega (arith, summed) in
      elim (lt-or-le (sum + c.1) goal) [
        | inl lo ↦
            let (r, e, a) =
              greedy_loop-answers rest (sum + c.1) (is ++ (c.0 ∷ [])) (ps ++ (c ∷ [])) all' listed'
                summed' (λ pos. lo) in
            (r, not_reached sum is c rest add lo ∙ e, a)
        | inr hi ↦ (
          overshoot (is ++ (c.0 ∷ [])) (sum + c.1 - goal),
          reached sum is c rest add hi,
          record {
            chosen = ps ++ (c ∷ []);
            among = subst (Sublistᴰ (ps ++ (c ∷ []))) all' (prefix-Sublist (ps ++ (c ∷ [])) rest);
            listed = listed';
            summed = summed' ∙ omega (arith, hi);
          },
        )
      ]

below-Sublist : (goal : ℕ) (cs : List Candidate) → Sublistᴰ (below goal cs) cs
unfolding below
below-Sublist goal [] = Sublistᴰ.slnil
below-Sublist goal (c ∷ cs) = elim (Bool-cases (ltb c.1 goal)) [
  | inl e ↦ rw e (Sublistᴰ.cons-cons refl (below-Sublist goal cs))
  | inr e ↦ rw e (Sublistᴰ.cons (below-Sublist goal cs))
]

module _ (cs : List Candidate) (goal : ℕ) (fits : total cs < 2 ^ 128) where
  greedy-Answer : Gives cs goal (greedy_impl cs goal)
  unfolding greedy_impl Answer
  greedy-Answer =
      let (r, e, a) =
        greedy_loop-answers (reverse cs) goal (omega (arith, total-reverse cs, fits)) (reverse cs) 0
          [] [] refl refl refl (λ pos. pos) in
      (r, e, given r a)
    where
      given : (r : KScan) → GreedyAnswer (reverse cs) goal r → Answer cs goal r
      given (exact is) a = Picks-Selects (reverse-Subperm cs) a
      given (overshoot is excess) a = Picks-Selects (reverse-Subperm cs) a
      given miss a = λ pos. omega (arith, total-reverse cs, a pos)

  module _ (ds : List Candidate) (sub : Subperm ds cs) (ds_fit : total ds < 2 ^ 128) where
    search-Answer : (rounds k : ℕ) → Gives cs goal (search rounds k cs ds goal)
    unfolding search KeptOvershoot Answer
    search-Answer zero k = greedy-Answer
    search-Answer (suc rounds) k =
        let (r, ran, left) =
          dfs-Left ds goal k ds_fit ds 0 fresh [] (Sublistᴰ.refl ds) refl refl tt in
        elim (Bool-cases r.0) [
          | inl hit ↦
              (exact (r.1).path, ground (arith, ran, hit), Picks-Selects sub (left.found hit))
          | inr missed ↦ elim (Option-cases (r.1).best_overshoot) [
            | inl e ↦
                let (q, ran', a) = search-Answer rounds (k + 1) in
                (q, ground (arith, ran, missed, e) ∙ ran', a)
            | inr (b, e) ↦
                let kept : KeptOvershoot ds goal (some b) =
                  subst (KeptOvershoot ds goal) e left.kept in
                (overshoot b.1 b.0, ground (arith, ran, missed, e), Picks-Selects sub kept.1)
          ]
        ]

  pub scan-Answer : Gives cs goal (scan cs goal)
  unfolding scan
  scan-Answer =
      let ds = reverse (below goal cs) in
      let sub : Subperm ds cs =
        Subperm.trans (reverse-Subperm (below goal cs))
          (Sublist.subperm ∣ below-Sublist goal cs ∣₁) in
      let fit : total ds < 2 ^ 128 =
        omega (arith, total-reverse (below goal cs), total-le (below-Sublist goal cs), fits) in
      elim (Bool-cases (leb 3 (length ds))) [
        | inl e ↦ rw e (search-Answer ds sub fit (least (length ds) transaction_limit - 2) 3)
        | inr e ↦ rw e greedy-Answer
      ]
