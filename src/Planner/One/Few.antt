-- ===== src/Planner/One/Few.antt =====
-- What it means that the scan for one note misses.
use veil_server_v.Prelude.{
  ℕ, ◌-◌, ◌<◌, ◌≡◌, refl, sym, ap, ◌∙◌, List, [], ◌∷◌, arith, lt-or-le, lt→ltb, inl, inr,
}
use veil_server_v.Planner.Types.{Candidate}
use veil_server_v.Planner.One.{exact, overshoot, miss, scan}
use veil_server_v.Planner.Many.{below}

miss-cons :
    (c : Candidate) (cs : List Candidate) (goal : ℕ)
    → scan (c ∷ cs) goal ≡ miss
    → (c.1 < goal) × (scan cs goal ≡ miss)
unfolding scan
miss-cons c cs goal e = elim (lt-or-le c.1 goal) [
  | inl lo ↦ (lo, ground (arith, lo, e))
  | inr hi ↦ elim (lt-or-le goal c.1) [
    | inl above ↦
        let e' : scan (c ∷ cs) goal ≡ overshoot c.0 (c.1 - goal) = ground (arith, above) in
        let e'' = sym e ∙ e' in cc
    | inr at ↦
        let e' : scan (c ∷ cs) goal ≡ exact c.0 = ground (arith, hi, at) in
        let e'' = sym e ∙ e' in cc
  ]
]

-- A miss: every note is below the goal.
pub scan-miss-below : (cs : List Candidate) (goal : ℕ) → scan cs goal ≡ miss → below goal cs ≡ cs
unfolding below
scan-miss-below [] goal e = refl
scan-miss-below (c ∷ cs) goal e =
    let (less, rest) = miss-cons c cs goal e in
    rw (lt→ltb c.1 goal less) (ap (λ ds. c ∷ ds) (scan-miss-below cs goal rest))

pub scan-miss-head :
    (c : Candidate) (cs : List Candidate) (goal : ℕ) → scan (c ∷ cs) goal ≡ miss → c.1 < goal
scan-miss-head c cs goal e = (miss-cons c cs goal e).0
