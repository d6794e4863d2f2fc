-- ===== src/Planner/Top.antt =====
-- The largest candidates, and how much as many others can be worth.
use veil_server_v.Prelude.{
  ℕ, zero, suc, ◌+◌, ◌≤◌, ◌<◌, ◌≡◌, refl, sym, ap, subst, Bool, true, false, not, ◌&&◌, List, [],
  ◌∷◌, ◌==◌, arith, length, inl, inr, Bool-cases,
}
use mathlib.Core.List.{Sublistᴰ, reverse, reverse_aux}
use veil_server_v.Planner.Types.{Candidate, total}

-- The amounts go up from a bound, or down from one.
abbrev pub Rises : ℕ → List Candidate → Type 0
Rises low [] = Unit {0}
Rises low (c ∷ cs) = (low ≤ c.1) × Rises c.1 cs

abbrev pub Falls : ℕ → List Candidate → Type 0
Falls high [] = Unit {0}
Falls high (c ∷ cs) = (c.1 ≤ high) × Falls c.1 cs

-- What the first n candidates are worth.
abbrev pub top : ℕ → List Candidate → ℕ
top zero cs = 0
top (suc n) [] = 0
top (suc n) (c ∷ cs) = c.1 + top n cs

pub Falls-weaken :
    (high higher : ℕ) (cs : List Candidate) → high ≤ higher → Falls high cs → Falls higher cs
Falls-weaken high higher [] le f = tt
Falls-weaken high higher (c ∷ cs) le f = (omega (arith, le, f.0), f.1)

reverse_aux-Falls :
    (cs acc : List Candidate) (low : ℕ)
    → Rises low cs
    → Falls low acc
    → (high : ℕ) × Falls high (reverse_aux cs acc)
reverse_aux-Falls [] acc low r f = (low, f)
reverse_aux-Falls (c ∷ cs) acc low r f =
    reverse_aux-Falls cs (c ∷ acc) c.1 r.1 (omega arith, Falls-weaken low c.1 acc r.0 f)

pub reverse-Falls : (cs : List Candidate) → Rises 0 cs → (high : ℕ) × Falls high (reverse cs)
reverse-Falls cs r = reverse_aux-Falls cs [] 0 r tt

pub Sublist-Falls :
    {xs ds : List Candidate} (high : ℕ) → Sublistᴰ xs ds → Falls high ds → Falls high xs
Sublist-Falls high Sublistᴰ.slnil f = tt
Sublist-Falls {xs} high (Sublistᴰ.cons {a = d} s) f =
    Falls-weaken d.1 high xs f.0 (Sublist-Falls d.1 s f.1)
Sublist-Falls high (Sublistᴰ.cons-cons {a = x} {b = d} {l₁ = ys} e s) f =
    let e' : x.1 ≡ d.1 = ap (λ (c : Candidate). c.1) e in
    (omega (arith, e', f.0), subst (λ b. Falls b ys) (sym e') (Sublist-Falls d.1 s f.1))

pub Falls-zero : (cs : List Candidate) → Falls 0 cs → total cs ≡ 0
Falls-zero [] f = refl
Falls-zero (c ∷ cs) f =
    let none : c.1 ≡ 0 = omega (arith, f.0) in
    omega (arith, none, Falls-zero cs (subst (λ b. Falls b cs) none f.1))

pub top-suc : (n : ℕ) (cs : List Candidate) → top n cs ≤ top (suc n) cs
top-suc zero cs = omega arith
top-suc (suc n) [] = omega arith
top-suc (suc n) (c ∷ cs) = omega (arith, top-suc n cs)

pub top-le : (m n : ℕ) (cs : List Candidate) → m ≤ n → top m cs ≤ top n cs
top-le zero n cs le = omega arith
top-le (suc m) zero cs le = absurd (omega (arith, le))
top-le (suc m) (suc n) [] le = omega arith
top-le (suc m) (suc n) (c ∷ cs) le = omega (arith, top-le m n cs (omega (arith, le)))

pub top-all : (n : ℕ) (cs : List Candidate) → length cs ≤ n → top n cs ≡ total cs
top-all zero [] le = refl
top-all zero (c ∷ cs) le = absurd (omega (arith, le))
top-all (suc n) [] le = refl
top-all (suc n) (c ∷ cs) le = ap (λ m. c.1 + m) (top-all n cs (omega (arith, le)))

top-cons :
    (n high : ℕ) (d : Candidate) (ds : List Candidate)
    → Falls high (d ∷ ds)
    → top n ds ≤ top n (d ∷ ds)
top-cons zero high d ds f = omega arith
top-cons (suc n) high d [] f = omega arith
top-cons (suc n) high d (e ∷ es) f = omega (arith, f.1.0, top-cons n d.1 e es f.1)

-- No choice of n candidates is worth more than the n largest.
pub Sublist-top :
    {xs ds : List Candidate} (high : ℕ)
    → Sublistᴰ xs ds
    → Falls high ds
    → total xs ≤ top (length xs) ds
Sublist-top high Sublistᴰ.slnil f = omega arith
Sublist-top {xs} high (Sublistᴰ.cons {a = d} {l₂ = ds} s) f =
    omega (arith, Sublist-top d.1 s f.1, top-cons (length xs) high d ds f)
Sublist-top high (Sublistᴰ.cons-cons {a = x} {b = d} e s) f =
    let e' : x.1 ≡ d.1 = ap (λ (c : Candidate). c.1) e in omega (arith, e', Sublist-top d.1 s f.1)

-- No candidate is worth v.
abbrev pub lacks : ℕ → List Candidate → Bool
lacks v [] = true
lacks v (c ∷ cs) = not (c.1 == v) && lacks v cs

-- A candidate worth more than each of a choice can be added to it.
pub add-Sublist :
    (v b : ℕ) {xs ds : List Candidate}
    → Sublistᴰ xs ds
    → Falls b xs
    → b < v
    → lacks v ds ≡ false
    → (zs : List Candidate) × Sublistᴰ zs ds
      × (total zs ≡ v + total xs)
      × (length zs ≡ suc (length xs))
add-Sublist v b Sublistᴰ.slnil f less lacking = cc
add-Sublist v b {xs} (Sublistᴰ.cons {a = d} s) f less lacking = elim (Bool-cases (d.1 == v)) [
  | inl here ↦ (d ∷ xs, Sublistᴰ.cons-cons refl s, ground (arith, here), refl)
  | inr there ↦
      let (zs, sub, sum, len) = add-Sublist v b s f less (ground (arith, there, lacking)) in
      (zs, Sublistᴰ.cons sub, sum, len)
]
add-Sublist v b (Sublistᴰ.cons-cons {a = x} {b = d} e s) f less lacking =
    let e' : x.1 ≡ d.1 = ap (λ (c : Candidate). c.1) e in
    let there : (d.1 == v) ≡ false = ground (arith, e', f.0, less) in
    let (zs, sub, sum, len) =
      add-Sublist v x.1 s f.1 (omega (arith, f.0, less)) (ground (arith, there, lacking)) in
    (x ∷ zs, Sublistᴰ.cons-cons e sub, omega (arith, sum), ap suc len)
