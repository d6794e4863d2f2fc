-- ===== src/Planner/One/Sound.antt =====
-- The scan for one note: an answer is a candidate of the sum that it says.
use veil_server_v.Prelude.{
  ℕ, ◌+◌, ◌-◌, ◌<◌, ◌≡◌, refl, List, [], ◌∷◌, arith, lt-or-le, inl, inr, subst, sym,
}
use mathlib.Core.List.{Sublistᴰ}
use veil_server_v.Planner.Types.{Candidate}
use veil_server_v.Planner.Picks.{Picks, nil-Sublist}
use veil_server_v.Planner.One.{OneScan, exact, overshoot, miss, scan}

unfoldable pub Answer : List Candidate → ℕ → OneScan → Type 0
Answer cs goal (exact i) = Picks cs (i ∷ []) goal
Answer cs goal (overshoot i excess) = (0 < excess) × Picks cs (i ∷ []) (goal + excess)
Answer cs goal miss = Unit {0}

cons-Picks :
    (c : Candidate) {cs : List Candidate} {is : List ℕ} {n : ℕ}
    → Picks cs is n
    → Picks (c ∷ cs) is n
cons-Picks c p = record {
  chosen = p.chosen;
  among = Sublistᴰ.cons p.among;
  listed = p.listed;
  summed = p.summed;
}

head-Picks : (c : Candidate) (cs : List Candidate) {n : ℕ} → c.1 ≡ n → Picks (c ∷ cs) (c.0 ∷ []) n
head-Picks c cs e = record {
  chosen = c ∷ [];
  among = Sublistᴰ.cons-cons refl (nil-Sublist cs);
  listed = refl;
  summed = omega (arith, e);
}

cons-Answer :
    (c : Candidate) (cs : List Candidate) (goal : ℕ) (r : OneScan)
    → Answer cs goal r
    → Answer (c ∷ cs) goal r
unfolding Answer
cons-Answer c cs goal (exact i) a = cons-Picks c a
cons-Answer c cs goal (overshoot i e) a = (a.0, cons-Picks c a.1)
cons-Answer c cs goal miss a = tt

pub scan-Answer : (cs : List Candidate) (goal : ℕ) → Answer cs goal (scan cs goal)
unfolding scan Answer
scan-Answer [] goal = tt
scan-Answer (c ∷ cs) goal = elim (lt-or-le c.1 goal) [
  | inl lo ↦
      let e : scan (c ∷ cs) goal ≡ scan cs goal = ground (arith, lo) in
      subst (Answer (c ∷ cs) goal) (sym e)
        (cons-Answer c cs goal (scan cs goal) (scan-Answer cs goal))
  | inr hi ↦ elim (lt-or-le goal c.1) [
    | inl above ↦
        let e : scan (c ∷ cs) goal ≡ overshoot c.0 (c.1 - goal) = ground (arith, above) in
        subst (Answer (c ∷ cs) goal) (sym e) (omega arith, head-Picks c cs (omega arith))
    | inr at ↦
        let e : scan (c ∷ cs) goal ≡ exact c.0 = ground (arith, hi, at) in
        subst (Answer (c ∷ cs) goal) (sym e) (head-Picks c cs (omega arith))
  ]
]
