-- ===== src/Planner/Combination/Few.antt =====
-- The choice of notes takes no more of them than it must, and takes the largest first.
use veil_server_v.Prelude.{
  ℕ, suc, ◌+◌, ◌^◌, ◌≤◌, ◌<◌, ◌≡◌, ◌⊎◌, refl, sym, ◌∙◌, subst, List, [], ◌∷◌, arith, length,
  Outcome, ok, inl, inr, ok-injective,
}
use mathlib.Core.List.{Permᴰ, reverse}
use mathlib.Core.List.Permᴰ
use veil_server_v.Planner.Types.{PlanError, Candidate, total}
use veil_server_v.Planner.Picks.{Picks, total-Perm, length-Perm}
use veil_server_v.Planner.Top.{Rises, Falls, top, reverse-Falls}
use veil_server_v.Planner.Two as Two
use veil_server_v.Planner.Two.Sound as TwoSound
use veil_server_v.Planner.Two.Few as TwoFew
use veil_server_v.Planner.One as One
use veil_server_v.Planner.One.Sound as OneSound
use veil_server_v.Planner.One.Few as OneFew
use veil_server_v.Planner.Many as Many
use veil_server_v.Planner.Many.Few as ManyFew
use veil_server_v.Planner.Many.Few.{Frugal}
use veil_server_v.Planner.Combination.{
  CombinationResult, two_exact, one_exact, two_overshoot, one_overshoot, exact_k, overshoot,
  impossible, enumerate, from_k_scan, choose, find_combination,
}

-- The notes are chosen from an order of the candidates: two at most, or else the order is from the
-- largest down and no fewer notes would do.
pub record Thrifty (cs : List Candidate) (goal : ℕ) (is : List ℕ) (sum : ℕ) : Type 0 where
  pub order : List Candidate
  pub same : Permᴰ order cs
  pub picks : Picks order is sum
  pub frugal :
      (length is ≤ 2)
      ⊎ ((high : ℕ) × Falls high order × ((j : ℕ) → suc j ≡ length is → top j order < goal))

unfoldable pub Answer : List Candidate → ℕ → CombinationResult → Type 0
Answer cs goal (two_exact i j) = Thrifty cs goal (i ∷ j ∷ []) goal
Answer cs goal (one_exact i) = Thrifty cs goal (i ∷ []) goal
Answer cs goal (two_overshoot i j excess) = Thrifty cs goal (i ∷ j ∷ []) (goal + excess)
Answer cs goal (one_overshoot i excess) = Thrifty cs goal (i ∷ []) (goal + excess)
Answer cs goal (exact_k is) = Thrifty cs goal is goal
Answer cs goal (overshoot is excess) = Thrifty cs goal is (goal + excess)
Answer cs goal impossible = Unit {0}

module _ (cs ds : List Candidate) (goal : ℕ) (perm : Permᴰ ds cs) (rises : Rises 0 ds)
    (positive : 0 < goal) (fits : total cs < 2 ^ 128) (short : length cs < 2 ^ 64) where
  ds_fit : total ds < 2 ^ 128
  ds_fit = omega (arith, total-Perm perm, fits)

  ds_short : length ds < 2 ^ 64
  ds_short = omega (arith, length-Perm perm, short)

  Gives : Outcome PlanError CombinationResult → Type 0
  Gives o = (r : CombinationResult) × (o ≡ ok r) × Answer cs goal r

  small : {is : List ℕ} {sum : ℕ} → length is ≤ 2 → Picks ds is sum → Thrifty cs goal is sum
  small few p = record { order = ds; same = perm; picks = p; frugal = inl few }

  large : {is : List ℕ} {sum : ℕ} → Frugal (reverse ds) goal is sum → Thrifty cs goal is sum
  large f = record {
    order = reverse ds;
    same = Permᴰ.trans (Permᴰ.reverse ds) perm;
    picks = f.picks;
    frugal = let (high, falls) = reverse-Falls ds rises in inr (high, falls, f.few);
  }

  top_two :
      (es : List Candidate)
      → total es < 2 ^ 128
      → length es < 2 ^ 64
      → Two.scan es goal ≡ ok Two.miss
      → One.scan es goal ≡ One.miss
      → top 2 (reverse es) < goal
  top_two [] f s two one = positive
  top_two (a ∷ []) f s two one = omega (arith, OneFew.scan-miss-head a [] goal one)
  top_two (a ∷ b ∷ es) f s two one = TwoFew.scan-miss-top a b es goal f s two

  after_miss :
      Two.scan ds goal ≡ ok Two.miss
      → (o : One.OneScan) → One.scan ds goal ≡ o
      → OneSound.Answer ds goal o
      → Gives (choose ds goal)
  unfolding choose from_k_scan OneSound.Answer Answer Gives ManyFew.FewAnswer
  after_miss e (One.exact k) eo ao = (one_exact k, ground (arith, e, eo), small (omega arith) ao)
  after_miss e (One.overshoot k x) eo ao =
      (one_overshoot k x, ground (arith, e, eo), small (omega arith) ao.1)
  after_miss e One.miss eo ao =
      let (q, eq, aq) =
        ManyFew.scan-GivesFew ds goal ds_fit positive (OneFew.scan-miss-below ds goal eo)
          (top_two ds ds_fit ds_short e eo) in
      (from_k_scan q, ground (arith, e, eo, eq), from_many q aq)
    where
      from_many :
          (q : Many.KScan) → ManyFew.FewAnswer (reverse ds) goal q → Answer cs goal (from_k_scan q)
      from_many (Many.exact is) a = large a
      from_many (Many.overshoot is excess) a = large a
      from_many Many.miss a = tt

  after_two :
      (q : Two.TwoScan)
      → Two.scan ds goal ≡ ok q
      → TwoSound.Answer ds goal q
      → Gives (choose ds goal)
  unfolding choose TwoSound.Answer OneSound.Answer Answer Gives
  after_two (Two.exact i j) e a = (two_exact i j, ground (arith, e), small (omega arith) a)
  after_two (Two.overshoot i j x) e a =
      after_overshoot (One.scan ds goal) refl (OneSound.scan-Answer ds goal)
    where
      over : Thrifty cs goal (i ∷ j ∷ []) (goal + x)
      over = small (omega arith) a.1

      after_overshoot :
          (o : One.OneScan)
          → One.scan ds goal ≡ o
          → OneSound.Answer ds goal o
          → Gives (choose ds goal)
      after_overshoot (One.exact k) eo ao =
          (one_exact k, ground (arith, e, eo), small (omega arith) ao)
      after_overshoot (One.overshoot k y) eo ao = (two_overshoot i j x, ground (arith, e, eo), over)
      after_overshoot One.miss eo ao = (two_overshoot i j x, ground (arith, e, eo), over)
  after_two Two.miss e a = after_miss e (One.scan ds goal) refl (OneSound.scan-Answer ds goal)

  choose-Gives : Gives (choose ds goal)
  choose-Gives = let (q, e, a) = TwoSound.scan-Answer ds goal ds_fit ds_short in after_two q e a

pub find_combination-Thrifty :
    (sort : List Candidate → List Candidate) (values : List ℕ) (goal : ℕ)
    → ((cs : List Candidate) → Permᴰ (sort cs) cs)
    → ((cs : List Candidate) → Rises 0 (sort cs))
    → 0 < goal
    → total (enumerate 0 values) < 2 ^ 128
    → length (enumerate 0 values) < 2 ^ 64
    → {r : CombinationResult} → find_combination sort values goal ≡ ok r
    → Answer (enumerate 0 values) goal r
unfolding find_combination Answer Gives enumerate
find_combination-Thrifty sort [] goal perm rises positive fits short {r} ran =
    subst (Answer [] goal) (ok-injective ran) tt
find_combination-Thrifty sort (x ∷ xs) goal perm rises positive fits short {r} ran =
    let cs : List Candidate = enumerate 0 (x ∷ xs) in
    let (q, e, a) = choose-Gives cs (sort cs) goal (perm cs) (rises cs) positive fits short in
    subst (Answer cs goal) (ok-injective (sym e ∙ ran)) a
