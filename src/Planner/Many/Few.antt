-- ===== src/Planner/Many/Few.antt =====
-- The scan for three or more notes takes no more notes than it must.
use veil_server_v.Prelude.{
  ℕ, zero, suc, ◌+◌, ◌-◌, ◌^◌, ◌≤◌, ◌<◌, ◌≡◌, refl, sym, ap, ◌∙◌, subst, Bool, false, none, some,
  List, [], ◌∷◌, ◌++◌, arith, leb, lt→ltb, lt-or-le, Bool-cases, Option-cases, inl, inr, length,
  length-append, Outcome, ok,
}
use mathlib.Core.List.{append_assoc, reverse, Sublistᴰ}
use mathlib.Core.List.Sublistᴰ
use mathlib.Core.Option.{none-ne-some}
use veil_server_v.Planner.Types.{PlanError, transaction_limit, Candidate, total, add_amounts}
use veil_server_v.Planner.Picks.{
  Picks, indices, indices-append, total-append, prefix-Sublist, total-reverse,
}
use veil_server_v.Planner.Top.{top}
use veil_server_v.Planner.Many.{
  DfsContext, KScan, exact, overshoot, miss, greedy_loop, greedy_impl, below, fresh, search, scan,
  least,
}
use veil_server_v.Planner.Many.Dfs.{KeptOvershoot, dfs-Left}
use veil_server_v.Planner.Many.Descent.{Hit, dfs-After, dfs-Hit}
use veil_server_v.Planner.Many.Sound.{reached, not_reached}

-- The indices choose among the candidates in their order, and one candidate less, even of the
-- largest, would not reach the goal.
pub record Frugal (order : List Candidate) (goal : ℕ) (is : List ℕ) (sum : ℕ) : Type 0 where
  pub picks : Picks order is sum
  pub few : (j : ℕ) → suc j ≡ length is → top j order < goal

unfoldable pub FewAnswer : List Candidate → ℕ → KScan → Type 0
FewAnswer order goal (exact is) = Frugal order goal is goal
FewAnswer order goal (overshoot is excess) = Frugal order goal is (goal + excess)
FewAnswer order goal miss = Unit {0}

abbrev pub GivesFew : List Candidate → ℕ → Outcome PlanError KScan → Type 0
GivesFew order goal o = (r : KScan) × (o ≡ ok r) × FewAnswer order goal r

top-prefix : (ps rest : List Candidate) → top (length ps) (ps ++ rest) ≡ total ps
top-prefix [] rest = refl
top-prefix (p ∷ ps) rest = ap (λ n. p.1 + n) (top-prefix ps rest)

length-indices : (cs : List Candidate) → length (indices cs) ≡ length cs
length-indices [] = refl
length-indices (c ∷ cs) = ap suc (length-indices cs)

module _ (cs : List Candidate) (goal : ℕ) (fits : total cs < 2 ^ 128) where
  greedy_loop-GivesFew :
      (rest : List Candidate) (sum : ℕ) (is : List ℕ) (ps : List Candidate)
      → ps ++ rest ≡ cs
      → indices ps ≡ is
      → total ps ≡ sum
      → sum < goal
      → GivesFew cs goal (greedy_loop rest goal sum is)
  unfolding greedy_loop FewAnswer
  greedy_loop-GivesFew [] sum is ps all listed summed low = (miss, refl, tt)
  greedy_loop-GivesFew (c ∷ rest) sum is ps all listed summed low =
      let b : total cs ≡ total ps + (c.1 + total rest) =
        ap total (sym all) ∙ total-append ps (c ∷ rest) in
      let add : add_amounts sum c.1 ≡ ok (sum + c.1) =
        simp (lt→ltb (sum + c.1) (2 ^ 128) (omega (arith, summed, b, fits))) in
      let all' : (ps ++ (c ∷ [])) ++ rest ≡ cs = append_assoc ps (c ∷ []) rest ∙ all in
      let listed' : indices (ps ++ (c ∷ [])) ≡ is ++ (c.0 ∷ []) =
        indices-append ps (c ∷ []) ∙ ap (λ js. js ++ (c.0 ∷ [])) listed in
      let summed' : total (ps ++ (c ∷ [])) ≡ sum + c.1 =
        total-append ps (c ∷ []) ∙ omega (arith, summed) in
      elim (lt-or-le (sum + c.1) goal) [
        | inl lo ↦
            let (r, e, a) =
              greedy_loop-GivesFew rest (sum + c.1) (is ++ (c.0 ∷ [])) (ps ++ (c ∷ [])) all' listed'
                summed' lo in
            (r, not_reached cs goal fits sum is c rest add lo ∙ e, a)
        | inr hi ↦ (
          overshoot (is ++ (c.0 ∷ [])) (sum + c.1 - goal),
          reached cs goal fits sum is c rest add hi,
          record {
            picks = record {
              chosen = ps ++ (c ∷ []);
              among = subst (Sublistᴰ (ps ++ (c ∷ []))) all' (prefix-Sublist (ps ++ (c ∷ [])) rest);
              listed = listed';
              summed = summed' ∙ omega (arith, hi);
            };
            few = λ j one.
                let len : length is ≡ length ps = ap length (sym listed) ∙ length-indices ps in
                let j_is : j ≡ length ps = omega (arith, one, len, length-append is (c.0 ∷ [])) in
                let pre : top j cs ≡ total ps =
                  ap (λ n. top n cs) j_is
                  ∙ ap (top (length ps)) (sym all)
                  ∙ top-prefix ps (c ∷ rest) in
                omega (arith, pre, summed, low);
          },
        )
      ]

module _ (cs : List Candidate) (goal : ℕ) (fits : total cs < 2 ^ 128) (positive : 0 < goal) where
  abbrev pub order : List Candidate
  order = reverse cs

  order_fits : total order < 2 ^ 128
  order_fits = omega (arith, total-reverse cs, fits)

  greedy_impl-GivesFew : GivesFew order goal (greedy_impl cs goal)
  unfolding greedy_impl
  greedy_impl-GivesFew =
      greedy_loop-GivesFew (reverse cs) goal order_fits (reverse cs) 0 [] [] refl refl refl positive

  search-GivesFew :
      (rounds k j : ℕ)
      → suc j ≡ k
      → top j order < goal
      → k + rounds ≤ length order + 1
      → k + rounds ≤ 5000
      → GivesFew order goal (search rounds k cs order goal)
  unfolding search KeptOvershoot FewAnswer
  search-GivesFew zero k j before low many short = greedy_impl-GivesFew
  search-GivesFew (suc rounds) k j before low many short =
      let (r, ran, left) =
        dfs-Left order goal k order_fits order 0 fresh [] (Sublistᴰ.refl order) refl refl tt in
      let low_at : (i : ℕ) → i ≡ j → top i order < goal =
        λ i same. subst (λ n. top n order < goal) (sym same) low in
      let after = dfs-After goal k order 0 fresh (λ b e. absurd (none-ne-some _ e)) ran in
      elim (Bool-cases r.0) [
        | inl hit ↦ (
          exact (r.1).path,
          ground (arith, ran, hit),
          record {
            picks = left.found hit;
            few = λ i one. low_at i (omega (arith, one, before, after.path_size hit));
          },
        )
        | inr missed ↦ elim (Option-cases (r.1).best_overshoot) [
          | inl e ↦
              let low' : top k order < goal = elim (lt-or-le (top k order) goal) [
                | inl lo ↦ lo
                | inr hi ↦ absurd (
                    no_hit r missed e (
                      dfs-Hit goal k k order 0 fresh (omega arith) (omega (arith, hi))
                        (λ i one. omega (arith, low_at i (omega (arith, one, before))))
                        (omega (arith, many)) (omega (arith, short))
                        (λ b h. absurd (none-ne-some _ h)) ran))
              ] in
              let (q, ran', a) =
                search-GivesFew rounds (k + 1) k (omega arith) low' (omega (arith, many))
                  (omega (arith, short)) in
              (q, ground (arith, ran, missed, e) ∙ ran', a)
          | inr (b, e) ↦
              let kept : KeptOvershoot order goal (some b) =
                subst (KeptOvershoot order goal) e left.kept in
              (
                overshoot b.1 b.0,
                ground (arith, ran, missed, e),
                record {
                  picks = kept.1;
                  few = λ i one. low_at i (omega (arith, one, before, after.best_size b e));
                },
              )
        ]
      ]
    where
      no_hit : (r : Bool × DfsContext) → r.0 ≡ false → (r.1).best_overshoot ≡ none → Hit r → ⊥
      no_hit r missed e (inl hit) = let h = sym hit ∙ missed in cc
      no_hit r missed e (inr (b, kept)) = none-ne-some _ (sym e ∙ kept)

  -- Where the two largest notes do not reach the goal.
  pub scan-GivesFew : below goal cs ≡ cs → top 2 order < goal → GivesFew order goal (scan cs goal)
  unfolding scan
  scan-GivesFew same low = elim (Bool-cases (leb 3 (length (reverse cs)))) [
    | inl many ↦
        let rounds : ℕ = least (length (reverse cs)) transaction_limit - 2 in
        let (r, e, a) =
          search-GivesFew rounds 3 2 refl low
            (rounds_le (length (reverse cs)) (ground (arith, many))).0
            (rounds_le (length (reverse cs)) (ground (arith, many))).1 in
        (r, rw (same, many) e, a)
    | inr few ↦ let (r, e, a) = greedy_impl-GivesFew in (r, rw (same, few) e, a)
  ]
    where
      rounds_le :
          (n : ℕ)
          → 3 ≤ n
          → (3 + (least n transaction_limit - 2) ≤ n + 1)
            × (3 + (least n transaction_limit - 2) ≤ 5000)
      rounds_le n h = (ground arith, ground arith)
