-- ===== src/Planner/Picks.antt =====
-- A choice of candidates that reaches a sum: its indices, and why they are a choice.
use veil_server_v.Prelude.{
  ℕ, zero, suc, ◌+◌, ◌≤◌, ◌<◌, ◌≡◌, refl, sym, ap, ◌∙◌, some, List, [], ◌∷◌, ◌++◌, map, arith,
  length, get_elem?,
}
use mathlib.Core.Option.{some-injective}
use mathlib.Core.List.{Sublistᴰ}
use mathlib.Core.List.Sublistᴰ
use mathlib.Core.List.{Subperm, reverse, reverse_perm}
use mathlib.Core.List.{Permᴰ}
use mathlib.Core.List.Permᴰ
use mathlib.Core.List.Subperm
use mathlib.Core.List.Perm
use mathlib.Core.List.Sublist
use veil_server_v.Planner.Types.{Candidate, total}

abbrev pub indices : List Candidate → List ℕ
indices cs = map (λ (c : Candidate). c.0) cs

-- Some of the candidates `cs`, each at most once, have the indices `is` and the sum `sum`.
pub record Picks (cs : List Candidate) (is : List ℕ) (sum : ℕ) : Type 0 where
  pub chosen : List Candidate
  pub among : Sublistᴰ chosen cs
  pub listed : indices chosen ≡ is
  pub summed : total chosen ≡ sum

pub total-le : {xs ys : List Candidate} → Sublistᴰ xs ys → total xs ≤ total ys
total-le Sublistᴰ.slnil = omega arith
total-le (Sublistᴰ.cons s) = omega (arith, total-le s)
total-le (Sublistᴰ.cons-cons {a = x} {b = y} e s) =
    let e' : x.1 ≡ y.1 = ap (λ (c : Candidate). c.1) e in omega (arith, total-le s, e')

pub nil-Sublist : (cs : List Candidate) → Sublistᴰ [] cs
nil-Sublist [] = Sublistᴰ.slnil
nil-Sublist (c ∷ cs) = Sublistᴰ.cons (nil-Sublist cs)

pub one-Sublist :
    (cs : List Candidate) (i : ℕ) {c : Candidate} → get_elem? cs i ≡ some c → Sublistᴰ (c ∷ []) cs
one-Sublist [] i e = cc
one-Sublist (d ∷ cs) zero e = Sublistᴰ.cons-cons (some-injective _ _ (sym e)) (nil-Sublist cs)
one-Sublist (d ∷ cs) (suc i) e = Sublistᴰ.cons (one-Sublist cs i e)

pub two-Sublist :
    (cs : List Candidate) (i j : ℕ) {c d : Candidate}
    → get_elem? cs i ≡ some c
    → get_elem? cs j ≡ some d
    → i < j
    → Sublistᴰ (c ∷ d ∷ []) cs
two-Sublist [] i j p q h = cc
two-Sublist (b ∷ cs) i zero p q h = absurd (omega arith)
two-Sublist (b ∷ cs) zero (suc j) p q h =
    Sublistᴰ.cons-cons (some-injective _ _ (sym p)) (one-Sublist cs j q)
two-Sublist (b ∷ cs) (suc i) (suc j) p q h = Sublistᴰ.cons (two-Sublist cs i j p q (omega arith))

pub get_elem?-lt :
    (cs : List Candidate) (i : ℕ) → i < length cs → (c : Candidate) × (get_elem? cs i ≡ some c)
get_elem?-lt [] i h = absurd (omega arith)
get_elem?-lt (c ∷ cs) zero h = (c, refl)
get_elem?-lt (c ∷ cs) (suc i) h = get_elem?-lt cs i (omega arith)

pub total-append : (xs ys : List Candidate) → total (xs ++ ys) ≡ total xs + total ys
total-append [] ys = omega arith
total-append (x ∷ xs) ys = omega (arith, total-append xs ys)

pub indices-append : (xs ys : List Candidate) → indices (xs ++ ys) ≡ indices xs ++ indices ys
indices-append [] ys = refl
indices-append (x ∷ xs) ys = ap (λ is. x.0 ∷ is) (indices-append xs ys)

pub prefix-Sublist : (xs ys : List Candidate) → Sublistᴰ xs (xs ++ ys)
prefix-Sublist [] ys = nil-Sublist ys
prefix-Sublist (x ∷ xs) ys = Sublistᴰ.cons-cons refl (prefix-Sublist xs ys)

pub skip-Sublist :
    (xs : List Candidate) (c : Candidate) (ys : List Candidate)
    → Sublistᴰ (xs ++ ys) (xs ++ (c ∷ ys))
skip-Sublist [] c ys = Sublistᴰ.cons (Sublistᴰ.refl ys)
skip-Sublist (x ∷ xs) c ys = Sublistᴰ.cons-cons refl (skip-Sublist xs c ys)

-- Some of the candidates, in any order, each at most once, have these indices and this sum.
pub record Selects (cs : List Candidate) (is : List ℕ) (sum : ℕ) : Type 0 where
  pub chosen : List Candidate
  pub among : Subperm chosen cs
  pub listed : indices chosen ≡ is
  pub summed : total chosen ≡ sum

pub Picks-Selects :
    {ds cs : List Candidate} {is : List ℕ} {sum : ℕ}
    → Subperm ds cs
    → Picks ds is sum
    → Selects cs is sum
Picks-Selects sub p = record {
  chosen = p.chosen;
  among = Subperm.trans (Sublist.subperm ∣ p.among ∣₁) sub;
  listed = p.listed;
  summed = p.summed;
}

pub reverse-Subperm : (cs : List Candidate) → Subperm (reverse cs) cs
reverse-Subperm cs = Perm.subperm (reverse_perm cs)

pub total-Perm : {xs ys : List Candidate} → Permᴰ xs ys → total xs ≡ total ys
total-Perm Permᴰ.nil = refl
total-Perm (Permᴰ.cons {a = x} {b = y} e p) =
    let e' : x.1 ≡ y.1 = ap (λ (c : Candidate). c.1) e in omega (arith, e', total-Perm p)
total-Perm (Permᴰ.swap {a = x} {b = y} {a' = x'} {b' = y'} e f) =
    let e' : x.1 ≡ y'.1 = ap (λ (c : Candidate). c.1) e in
    let f' : y.1 ≡ x'.1 = ap (λ (c : Candidate). c.1) f in omega (arith, e', f')
total-Perm (Permᴰ.trans p q) = total-Perm p ∙ total-Perm q

pub total-reverse : (cs : List Candidate) → total (reverse cs) ≡ total cs
total-reverse cs = total-Perm (Permᴰ.reverse cs)

pub length-Perm : {xs ys : List Candidate} → Permᴰ xs ys → length xs ≡ length ys
length-Perm Permᴰ.nil = refl
length-Perm (Permᴰ.cons e p) = ap (λ n. suc n) (length-Perm p)
length-Perm (Permᴰ.swap e f) = refl
length-Perm (Permᴰ.trans p q) = length-Perm p ∙ length-Perm q

pub Selects-among :
    {ds cs : List Candidate} {is : List ℕ} {sum : ℕ}
    → Subperm ds cs
    → Selects ds is sum
    → Selects cs is sum
Selects-among sub s = record {
  chosen = s.chosen;
  among = Subperm.trans s.among sub;
  listed = s.listed;
  summed = s.summed;
}
