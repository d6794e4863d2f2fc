-- ===== src/Planner/Session/Noted.antt =====
-- The notes that chosen candidates name, and the choice behind the answer that a plan takes.
use veil_server_v.Prelude.{
  ℕ, suc, ◌+◌, ◌≤◌, ◌≡◌, refl, sym, ap, ◌∙◌, subst, true, Option, none, some, List, [], ◌∷◌, map,
  arith, get_elem?, ok, ok-injective,
}
use mathlib.Core.List.{Permᴰ, Sublistᴰ}
use veil_server_v.Planner.Types.{Candidate}
use veil_server_v.Planner.Picks.{indices}
use veil_server_v.Planner.Top.{lacks}
use veil_server_v.Planner.Combination.{
  CombinationResult, two_exact, one_exact, two_overshoot, one_overshoot, exact_k, overshoot,
  impossible, enumerate,
}
use veil_server_v.Planner.Combination.Few.{Thrifty, Answer}
use veil_server_v.Planner.Plan.{SpendableNote, selection}
use veil_server_v.Planner.Plan.Balanced.{all_name, all_name-cons}
use veil_server_v.Planner.Session.{commitments}
use veil_server_v.Planner.Session.Resolved.{HoldsAll}
use veil_server_v.Planner.Session.Clear.{LacksSums, none_worth, Clear}
use veil_server_v.Planner.Session.Chosen.{Listed}

pub map-Permᴰ :
    {xs ys : List Candidate} (f : Candidate → ℕ) → Permᴰ xs ys → Permᴰ (map f xs) (map f ys)
map-Permᴰ f Permᴰ.nil = Permᴰ.nil
map-Permᴰ f (Permᴰ.cons e p) = Permᴰ.cons (ap f e) (map-Permᴰ f p)
map-Permᴰ f (Permᴰ.swap e e') = Permᴰ.swap (ap f e) (ap f e')
map-Permᴰ f (Permᴰ.trans p q) = Permᴰ.trans (map-Permᴰ f p) (map-Permᴰ f q)

pub map-Sublistᴰ :
    {xs ys : List Candidate} (f : Candidate → ℕ) → Sublistᴰ xs ys → Sublistᴰ (map f xs) (map f ys)
map-Sublistᴰ f Sublistᴰ.slnil = Sublistᴰ.slnil
map-Sublistᴰ f (Sublistᴰ.cons s) = Sublistᴰ.cons (map-Sublistᴰ f s)
map-Sublistᴰ f (Sublistᴰ.cons-cons e s) = Sublistᴰ.cons-cons (ap f e) (map-Sublistᴰ f s)

module _ (notes : List SpendableNote) where
  -- The commitment of the note at a candidate's index.
  abbrev pub key : Candidate → ℕ
  key c = elim (get_elem? notes c.0) [ none ↦ 0 | some n ↦ n.commitment ]

  pub key-at :
      (c : Candidate) (n : SpendableNote) → get_elem? notes c.0 ≡ some n → key c ≡ n.commitment
  key-at c n at = rw (key, at) refl

  pub keys-enumerate :
      (i : ℕ) (part : List SpendableNote)
      → ((j : ℕ) (n : SpendableNote) → get_elem? part j ≡ some n → get_elem? notes (i + j) ≡ some n)
      → map key (enumerate i (map (λ (x : SpendableNote). x.amount) part)) ≡ commitments part
  unfolding enumerate
  keys-enumerate i [] inside = refl
  keys-enumerate i (n ∷ part) inside =
      let at : i + 0 ≡ i = omega arith in
      let here : get_elem? notes i ≡ some n =
        subst (λ k. get_elem? notes k ≡ some n) at (inside 0 n refl) in
      let later : (j : ℕ) (m : SpendableNote)
          → get_elem? part j ≡ some m
          → get_elem? notes (i + 1 + j) ≡ some m =
        λ j m e.
          let next : i + suc j ≡ i + 1 + j = omega arith in
          subst (λ k. get_elem? notes k ≡ some m) next (inside (suc j) m e) in
      let first = key-at (i, n.amount) n here in
      let rest = keys-enumerate (i + 1) part later in rw (first, rest) refl

  -- The notes that candidates name.
  pub record Noted (cs : List Candidate) : Type 0 where
    pub ns : List SpendableNote
    pub listed : Listed notes (indices cs) ns
    pub keyed : map key cs ≡ commitments ns
    pub sums :
        (ds : List Candidate) (sum : ℕ)
        → ((v : ℕ) → lacks v ds ≡ none_worth v notes)
        → LacksSums ds sum cs
        → Clear notes sum ns

  pub noted : (cs : List Candidate) → all_name notes cs ≡ true → Noted cs
  noted [] named = record { ns = []; listed = tt; keyed = refl; sums = λ ds sum same l. tt }
  noted (c ∷ cs) named =
      let ((n, at, worth), rest) = all_name-cons notes c cs named in
      let below = noted cs rest in
      record {
        ns = n ∷ below.ns;
        listed = (at, below.listed);
        keyed = let first = key-at c n at in rw (first, below.keyed) refl;
        sums = λ ds sum same l. (
          sym (same sum) ∙ l.0,
          below.sums ds (sum + n.amount) same
              (subst (λ a. LacksSums ds (sum + a) cs) (sym worth) l.1),
        );
      }

pub Listed-HoldsAll :
    (notes : List SpendableNote) (is : List ℕ) (ns : List SpendableNote)
    → Listed notes is ns
    → HoldsAll notes ns
Listed-HoldsAll notes [] [] l = tt
Listed-HoldsAll notes [] (n ∷ ns) l = absurd l
Listed-HoldsAll notes (i ∷ is) [] l = absurd l
Listed-HoldsAll notes (i ∷ is) (n ∷ ns) l = ((i, l.0), Listed-HoldsAll notes is ns l.1)

-- The thrifty choice behind an answer that a plan takes.
module _ (cs : List Candidate) (goal : ℕ) where
  taken :
      {js is : List ℕ} {c change : Option ℕ} (sum : ℕ)
      → goal ≤ sum
      → Thrifty cs goal js sum
      → ◌≡◌ {A = List ℕ × Option ℕ} (js, c) (is, change)
      → (m : ℕ) × Thrifty cs goal is m × (goal ≤ m)
  taken sum le a e =
      (sum, subst (λ xs. Thrifty cs goal xs sum) (ap (λ (p : List ℕ × Option ℕ). p.0) e) a, le)

  pub selection-Thrifty :
      (r : CombinationResult) {is : List ℕ} {change : Option ℕ}
      → Answer cs goal r
      → selection r ≡ ok (is, change)
      → (m : ℕ) × Thrifty cs goal is m × (goal ≤ m)
  unfolding Answer selection
  selection-Thrifty (two_exact i j) a e = taken goal (omega arith) a (ok-injective e)
  selection-Thrifty (one_exact i) a e = taken goal (omega arith) a (ok-injective e)
  selection-Thrifty (two_overshoot i j x) a e = taken (goal + x) (omega arith) a (ok-injective e)
  selection-Thrifty (one_overshoot i x) a e = taken (goal + x) (omega arith) a (ok-injective e)
  selection-Thrifty (exact_k is) a e = taken goal (omega arith) a (ok-injective e)
  selection-Thrifty (overshoot is x) a e = taken (goal + x) (omega arith) a (ok-injective e)
  selection-Thrifty impossible a e = cc
