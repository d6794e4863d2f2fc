-- ===== src/Planner/Combination/Sound.antt =====
-- The choice of notes answers: with notes of the wallet, each at most once, that make the goal and the
-- excess, or with `impossible` where the wallet holds less than the goal.
use veil_server_v.Prelude.{
  ℕ, ◌+◌, ◌^◌, ◌<◌, ◌≡◌, ◌⊎◌, inl, inr, lt-or-le, refl, ap, ◌∙◌, List, [], ◌∷◌, arith, length,
  Outcome, ok,
}
use mathlib.Core.List.{Permᴰ, Subperm}
use mathlib.Core.List.Perm
use mathlib.Core.Logic.{∥∥₁_elim}
use veil_server_v.Planner.Types.{PlanError, Candidate, total}
use veil_server_v.Planner.Picks.{
  Selects, Selects-among, Picks-Selects, total-Perm, total-le, length-Perm,
}
use veil_server_v.Planner.Two as Two
use veil_server_v.Planner.Two.Sound as TwoSound
use veil_server_v.Planner.One as One
use veil_server_v.Planner.One.Sound as OneSound
use veil_server_v.Planner.One.Few as OneFew
use veil_server_v.Planner.Many as Many
use veil_server_v.Planner.Many.Sound as ManySound
use veil_server_v.Planner.Combination.{
  CombinationResult, two_exact, one_exact, two_overshoot, one_overshoot, exact_k, overshoot,
  impossible, enumerate, from_k_scan, choose, find_combination,
}

-- The candidates that a result chooses, by what is left over, and what `impossible` says.
unfoldable pub Answer : List Candidate → ℕ → CombinationResult → Type 0
Answer cs goal (two_exact i j) = Selects cs (i ∷ j ∷ []) goal
Answer cs goal (one_exact i) = Selects cs (i ∷ []) goal
Answer cs goal (two_overshoot i j excess) = (0 < excess) × Selects cs (i ∷ j ∷ []) (goal + excess)
Answer cs goal (one_overshoot i excess) = (0 < excess) × Selects cs (i ∷ []) (goal + excess)
Answer cs goal (exact_k is) = Selects cs is goal
Answer cs goal (overshoot is excess) = Selects cs is (goal + excess)
Answer cs goal impossible = (total cs < goal) ⊎ ((cs ≡ []) × (goal ≡ 0))

module _ (cs ds : List Candidate) (goal : ℕ) (perm : Permᴰ ds cs) (fits : total cs < 2 ^ 128)
    (short : length cs < 2 ^ 64) where
  sub : Subperm ds cs
  sub = Perm.subperm ∣ perm ∣₁

  ds_fit : total ds < 2 ^ 128
  ds_fit = omega (arith, total-Perm perm, fits)

  ds_short : length ds < 2 ^ 64
  ds_short = omega (arith, length-Perm perm, short)

  Gives : Outcome PlanError CombinationResult → Type 0
  Gives o = (r : CombinationResult) × (o ≡ ok r) × Answer cs goal r

  all_below_zero : (es : List Candidate) → One.scan es goal ≡ One.miss → goal ≡ 0 → length es ≡ 0
  all_below_zero [] e zero_goal = refl
  all_below_zero (c ∷ es) e zero_goal =
      absurd (omega (arith, OneFew.scan-miss-head c es goal e, zero_goal))

  no_candidates : (es : List Candidate) → length es ≡ 0 → es ≡ []
  no_candidates [] e = refl
  no_candidates (c ∷ es) e = absurd (omega (arith, e))

  from_miss : One.scan ds goal ≡ One.miss → (0 < goal → total ds < goal) → Answer cs goal impossible
  unfolding Answer
  from_miss e a = elim (lt-or-le 0 goal) [
    | inl pos ↦ inl (omega (arith, total-Perm perm, a pos))
    | inr none_asked ↦
        let zero_goal : goal ≡ 0 = omega (arith, none_asked) in
        inr (
          no_candidates cs (omega (arith, all_below_zero ds e zero_goal, length-Perm perm)),
          zero_goal,
        )
  ]

  from_many :
      One.scan ds goal ≡ One.miss
      → (q : Many.KScan) → ManySound.Answer ds goal q
      → Answer cs goal (from_k_scan q)
  unfolding ManySound.Answer Answer from_k_scan
  from_many e (Many.exact is) a = Selects-among sub a
  from_many e (Many.overshoot is excess) a = Selects-among sub a
  from_many e Many.miss a = from_miss e a

  after_overshoot :
      (i j excess : ℕ)
      → Two.scan ds goal ≡ ok (Two.overshoot i j excess)
      → (0 < excess) × Selects cs (i ∷ j ∷ []) (goal + excess)
      → (o : One.OneScan) → One.scan ds goal ≡ o
      → OneSound.Answer ds goal o
      → Gives (choose ds goal)
  unfolding choose OneSound.Answer Answer Gives
  after_overshoot i j excess e a (One.exact k) eo ao =
      (one_exact k, ground (arith, e, eo), Picks-Selects sub ao)
  after_overshoot i j excess e a (One.overshoot k x) eo ao =
      (two_overshoot i j excess, ground (arith, e, eo), a)
  after_overshoot i j excess e a One.miss eo ao =
      (two_overshoot i j excess, ground (arith, e, eo), a)

  after_miss :
      Two.scan ds goal ≡ ok Two.miss
      → (o : One.OneScan) → One.scan ds goal ≡ o
      → OneSound.Answer ds goal o
      → Gives (choose ds goal)
  unfolding choose OneSound.Answer Answer Gives
  after_miss e (One.exact k) eo ao = (one_exact k, ground (arith, e, eo), Picks-Selects sub ao)
  after_miss e (One.overshoot k x) eo ao =
      (one_overshoot k x, ground (arith, e, eo), (ao.0, Picks-Selects sub ao.1))
  after_miss e One.miss eo ao =
      let (q, eq, aq) = ManySound.scan-Answer ds goal ds_fit in
      (from_k_scan q, ground (arith, e, eo, eq), from_many eo q aq)

  after_two :
      (q : Two.TwoScan)
      → Two.scan ds goal ≡ ok q
      → TwoSound.Answer ds goal q
      → Gives (choose ds goal)
  unfolding choose TwoSound.Answer Answer Gives
  after_two (Two.exact i j) e a = (two_exact i j, ground (arith, e), Picks-Selects sub a)
  after_two (Two.overshoot i j x) e a =
      after_overshoot i j x e (a.0, Picks-Selects sub a.1) (One.scan ds goal) refl
        (OneSound.scan-Answer ds goal)
  after_two Two.miss e a = after_miss e (One.scan ds goal) refl (OneSound.scan-Answer ds goal)

  choose-Answer : Gives (choose ds goal)
  choose-Answer = let (q, e, a) = TwoSound.scan-Answer ds goal ds_fit ds_short in after_two q e a

-- However the sort orders equal amounts: on a wallet of fewer than 2 ^ 64 notes whose amounts sum to
-- less than 2 ^ 128, the search answers. The notes it names stand at distinct places of the wallet and
-- make the goal and the excess, which is positive for one or two notes that are said to overshoot.
-- `impossible` is answered only where all notes together are less than the goal, or for a goal of zero
-- on an empty wallet.
pub find_combination-Answer :
    (sort : List Candidate → List Candidate) (values : List ℕ) (goal : ℕ)
    → ((cs : List Candidate) → Permᴰ (sort cs) cs)
    → total (enumerate 0 values) < 2 ^ 128
    → length (enumerate 0 values) < 2 ^ 64
    → (r : CombinationResult) × (find_combination sort values goal ≡ ok r)
      × Answer (enumerate 0 values) goal r
unfolding find_combination Answer enumerate Gives
find_combination-Answer sort [] goal perm fits short = elim (lt-or-le 0 goal) [
  | inl pos ↦ (impossible, refl, inl pos)
  | inr none_asked ↦ (impossible, refl, inr (refl, omega (arith, none_asked)))
]
find_combination-Answer sort (x ∷ xs) goal perm fits short =
    choose-Answer (enumerate 0 (x ∷ xs)) (sort (enumerate 0 (x ∷ xs))) goal
      (perm (enumerate 0 (x ∷ xs))) fits short

no_more_than_all : {cs : List Candidate} {is : List ℕ} {n : ℕ} → Selects cs is n → total cs < n → ⊥
no_more_than_all {cs} s h =
    ∥∥₁_elim s.among (λ x y. absurd x)
      (λ w.
        ∥∥₁_elim w.1 (λ x y. absurd x)
          (λ p.
            ∥∥₁_elim w.2 (λ x y. absurd x)
              (λ d. omega (arith, total-Perm p, total-le d, s.summed, h))))

only_impossible :
    (cs : List Candidate) (goal : ℕ) (r : CombinationResult)
    → total cs < goal
    → Answer cs goal r
    → r ≡ impossible
unfolding Answer
only_impossible cs goal (two_exact i j) h a = absurd (no_more_than_all a h)
only_impossible cs goal (one_exact i) h a = absurd (no_more_than_all a h)
only_impossible cs goal (two_overshoot i j e) h a = absurd (no_more_than_all a.1 (omega arith))
only_impossible cs goal (one_overshoot i e) h a = absurd (no_more_than_all a.1 (omega arith))
only_impossible cs goal (exact_k is) h a = absurd (no_more_than_all a h)
only_impossible cs goal (overshoot is e) h a = absurd (no_more_than_all a (omega arith))
only_impossible cs goal impossible h a = refl

-- A wallet whose notes together are less than the goal is answered with `impossible`, under the
-- same bounds on the wallet.
pub find_combination-impossible :
    (sort : List Candidate → List Candidate) (values : List ℕ) (goal : ℕ)
    → ((cs : List Candidate) → Permᴰ (sort cs) cs)
    → total (enumerate 0 values) < 2 ^ 128
    → length (enumerate 0 values) < 2 ^ 64
    → total (enumerate 0 values) < goal
    → find_combination sort values goal ≡ ok impossible
find_combination-impossible sort values goal perm fits short less =
    let (r, e, a) = find_combination-Answer sort values goal perm fits short in
    e ∙ ap ok (only_impossible (enumerate 0 values) goal r less a)
