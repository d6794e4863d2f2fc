-- ===== src/Planner/Two/Sound.antt =====
-- The scan for two notes answers, and with two distinct candidates of the sum that it says.
use veil_server_v.Prelude.{
  ℕ, zero, suc, ◌+◌, ◌-◌, ◌^◌, ◌≤◌, ◌<◌, ◌≡◌, refl, ◌∙◌, none, some, List, [], ◌∷◌, arith, ltb,
  lt→ltb, lt→leb, le→leb, ne→==, lt-or-le, Bool-cases, inl, inr, length, get_elem?, Outcome, ok,
}
use veil_server_v.Planner.Types.{PlanError, Candidate, total, add_amounts}
use veil_server_v.Planner.Picks.{Picks, total-le, two-Sublist, get_elem?-lt}
use veil_server_v.Planner.Two.{
  TwoScan, exact, overshoot, miss, Best, improve, finish, scan_loop, scan,
}

-- What an answer says of the candidates.
unfoldable pub Answer : List Candidate → ℕ → TwoScan → Type 0
Answer cs goal (exact i j) = Picks cs (i ∷ j ∷ []) goal
Answer cs goal (overshoot i j excess) = (0 < excess) × Picks cs (i ∷ j ∷ []) (goal + excess)
Answer cs goal miss = Unit {0}

module _ (cs : List Candidate) (goal : ℕ) (fits : total cs < 2 ^ 128)
    (short : length cs < 2 ^ 64) where
  pair-Picks :
      (l r sum : ℕ) (low high : Candidate)
      → get_elem? cs l ≡ some low
      → get_elem? cs r ≡ some high
      → l < r
      → low.1 + high.1 ≡ sum
      → Picks cs (low.0 ∷ high.0 ∷ []) sum
  pair-Picks l r sum low high p q lt e = record {
    chosen = low ∷ high ∷ [];
    among = two-Sublist cs l r p q lt;
    listed = refl;
    summed = omega (arith, e);
  }

  add-fits :
      (l r : ℕ) (low high : Candidate)
      → get_elem? cs l ≡ some low
      → get_elem? cs r ≡ some high
      → l < r
      → add_amounts low.1 high.1 ≡ ok (low.1 + high.1)
  add-fits l r low high p q lt =
      let b : low.1 + (high.1 + 0) ≤ total cs = total-le (two-Sublist cs l r p q lt) in
      simp (lt→ltb (low.1 + high.1) (2 ^ 128) (omega arith))

  improve-Answer :
      (best : Best) (i j diff : ℕ)
      → Answer cs goal (finish best)
      → 0 < diff
      → Picks cs (i ∷ j ∷ []) (goal + diff)
      → Answer cs goal (finish (improve best i j diff))
  unfolding improve finish Answer
  improve-Answer none i j diff a pos p = (pos, p)
  improve-Answer (some b) i j diff a pos p = elim (Bool-cases (ltb diff b.2)) [
    | inl e ↦ rw e (pos, p)
    | inr e ↦ rw e a
  ]

  pub stopped :
      (fuel left right : ℕ) (best : Best)
      → right ≤ left
      → scan_loop (suc fuel) cs goal left right best ≡ ok (finish best)
  unfolding scan_loop
  stopped fuel left right best le = ground arith

  abbrev pub Gives : Outcome PlanError TwoScan → Type 0
  Gives o = (r : TwoScan) × (o ≡ ok r) × Answer cs goal r

  module _ (fuel left right : ℕ) (best : Best) (low high : Candidate)
      (p : get_elem? cs left ≡ some low) (q : get_elem? cs right ≡ some high) (lt : left < right)
      (in_range : right < length cs) where
    pub next-left :
        low.1 + high.1 < goal
        → scan_loop (suc fuel) cs goal left right best
          ≡ scan_loop fuel cs goal (left + 1) right best
    unfolding scan_loop
    next-left less = ground (
      arith,
      lt→ltb left right lt,
      p,
      q,
      add-fits left right low high p q lt,
      lt→leb goal (low.1 + high.1) less,
      lt→ltb (left + 1) (2 ^ 64) (omega (arith, short)),
    )

    pub found :
        low.1 + high.1 ≡ goal
        → scan_loop (suc fuel) cs goal left right best ≡ ok (exact low.0 high.0)
    unfolding scan_loop
    found e =
        let z : low.1 + high.1 - goal ≡ 0 = omega (arith, e) in
        ground (
          arith,
          lt→ltb left right lt,
          p,
          q,
          add-fits left right low high p q lt,
          le→leb goal (low.1 + high.1) (omega (arith, e)),
          z,
        )

    pub next-right :
        goal < low.1 + high.1
        → scan_loop (suc fuel) cs goal left right best
          ≡ scan_loop fuel cs goal left
              (right - 1)
              (improve best low.0 high.0 (low.1 + high.1 - goal))
    unfolding scan_loop
    next-right more = ground (
      arith,
      lt→ltb left right lt,
      p,
      q,
      add-fits left right low high p q lt,
      le→leb goal (low.1 + high.1) (omega arith),
      ne→== (low.1 + high.1 - goal) 0 (omega arith),
      lt→ltb 0 (low.1 + high.1 - goal) (omega arith),
      le→leb 1 right (omega arith),
    )

    answers :
        Gives (scan_loop fuel cs goal (left + 1) right best)
        → (goal < low.1 + high.1
            → Gives (
                scan_loop fuel cs goal left
                  (right - 1)
                  (improve best low.0 high.0 (low.1 + high.1 - goal))))
        → Gives (scan_loop (suc fuel) cs goal left right best)
    unfolding Answer
    answers less more = elim (lt-or-le (low.1 + high.1) goal) [
      | inl lo ↦ let (r, e, a) = less in (r, next-left lo ∙ e, a)
      | inr hi ↦ elim (lt-or-le goal (low.1 + high.1)) [
        | inl above ↦ let (r, e, a) = more above in (r, next-right above ∙ e, a)
        | inr at ↦ (
          exact low.0 high.0,
          found (omega arith),
          pair-Picks left right goal low high p q lt (omega arith),
        )
      ]
    ]

  loop_lem :
      (fuel left right : ℕ) (best : Best)
      → left ≤ right
      → right < left + fuel
      → right < length cs
      → Answer cs goal (finish best)
      → Gives (scan_loop fuel cs goal left right best)
  loop_lem zero left right best le enough in_range a = absurd (omega arith)
  loop_lem (suc fuel) left right best le enough in_range a = elim (lt-or-le left right) [
    | inr stop ↦ (finish best, stopped fuel left right best stop, a)
    | inl lt ↦
        let (low, p) = get_elem?-lt cs left (omega arith) in
        let (high, q) = get_elem?-lt cs right in_range in
        answers fuel left right best low high p q lt in_range
          (loop_lem fuel (left + 1) right best (omega arith) (omega arith) in_range a)
          (λ more.
            loop_lem fuel left (right - 1) (improve best low.0 high.0 (low.1 + high.1 - goal))
              (omega arith) (omega arith) (omega arith)
              (improve-Answer best low.0 high.0 (low.1 + high.1 - goal) a (omega arith) (
                pair-Picks left right (goal + (low.1 + high.1 - goal)) low high p q lt
                  (omega arith))))
  ]

  -- The scan answers.
  pub scan-Answer : Gives (scan cs goal)
  unfolding scan Answer finish
  scan-Answer = elim (lt-or-le (length cs) 2) [
    | inl few ↦ (miss, ground (arith, few), tt)
    | inr many ↦
        let (r, e, a) =
          loop_lem (length cs) 0 (length cs - 1) none (omega arith) (omega arith) (omega arith)
            tt in
        (r, ground (arith, many, e), a)
  ]
