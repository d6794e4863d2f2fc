-- ===== src/Planner/Session/Clear.antt =====
-- No note of the wallet can be taken for a merged note: a wallet with such a note would have been spent
-- from with fewer notes.
use veil_server_v.Prelude.{
  ℕ, suc, ◌+◌, ◌≤◌, ◌<◌, ◌≡◌, refl, ap, ◌∙◌, Bool, true, false, not, ◌&&◌, Option, List, [], ◌∷◌,
  ◌++◌, map, ◌==◌, arith, length, inl, inr, Bool-cases,
}
use mathlib.Core.List.{Permᴰ, Sublistᴰ}
use mathlib.Core.List.Sublistᴰ
use veil_server_v.Planner.Types.{Candidate, total}
use veil_server_v.Planner.Top.{Falls, top, top-le, lacks, add-Sublist, Sublist-top}
use veil_server_v.Planner.Combination.{enumerate}
use veil_server_v.Planner.Plan.{SpendableNote, matching, excludes}
use veil_server_v.Planner.Plan.Total.{and-both, and-swap}
use veil_server_v.Planner.Session.{without}

-- No candidate is worth a sum that comes up while the chosen ones are added one by one.
abbrev pub LacksSums : List Candidate → ℕ → List Candidate → Type 0
LacksSums ds sum [] = Unit {0}
LacksSums ds sum (c ∷ cs) = (lacks sum ds ≡ true) × LacksSums ds (sum + c.1) cs

pub Falls-LacksSums :
    (ds : List Candidate) (high goal : ℕ)
    → Falls high ds
    → (cs : List Candidate) (sum m : ℕ) → Sublistᴰ cs ds
    → Falls m cs
    → m < sum
    → goal ≤ sum + total cs
    → top (suc (length cs)) ds < goal
    → LacksSums ds sum cs
Falls-LacksSums ds high goal falls [] sum m sub down less reach few = tt
Falls-LacksSums ds high goal falls (c ∷ cs) sum m sub down less reach few = (
  elim (Bool-cases (lacks sum ds)) [
    | inl without_it ↦ without_it
    | inr with_it ↦
        let (zs, sub', worth, len) = add-Sublist sum m sub down less with_it in
        let cap : total zs ≤ top (length zs) ds = Sublist-top high sub' falls in
        let same : top (length zs) ds ≡ top (suc (suc (length cs))) ds = ap (λ n. top n ds) len in
        absurd (omega (arith, cap, same, worth, reach, few))
  ],
  Falls-LacksSums ds high goal falls cs (sum + c.1) c.1
      (Sublistᴰ.trans (Sublistᴰ.cons (Sublistᴰ.refl cs)) sub) down.1 (omega (arith, down.0, less))
      (omega (arith, reach))
      (omega (arith, few, top-le (suc (length cs)) (suc (suc (length cs))) ds (omega arith))),
)

pub lacks-Perm : (v : ℕ) {xs ys : List Candidate} → Permᴰ xs ys → lacks v xs ≡ lacks v ys
lacks-Perm v Permᴰ.nil = refl
lacks-Perm v (Permᴰ.cons {a = x} {b = y} e p) =
    let e' : x.1 ≡ y.1 = ap (λ (c : Candidate). c.1) e in rw (e', lacks-Perm v p) refl
lacks-Perm v (Permᴰ.swap {a = x} {b = y} {a' = x'} {b' = y'} e f) =
    let e' : x.1 ≡ y'.1 = ap (λ (c : Candidate). c.1) e in
    let f' : y.1 ≡ x'.1 = ap (λ (c : Candidate). c.1) f in
    and-swap (not (x.1 == v)) (not (y.1 == v)) (lacks v _) ∙ rw (e', f') refl
lacks-Perm v (Permᴰ.trans p q) = lacks-Perm v p ∙ lacks-Perm v q

-- No note of the wallet is worth v.
abbrev pub none_worth : ℕ → List SpendableNote → Bool
none_worth v [] = true
none_worth v (n ∷ ns) = not (n.amount == v) && none_worth v ns

pub lacks-enumerate :
    (v i : ℕ) (notes : List SpendableNote)
    → lacks v (enumerate i (map (λ (x : SpendableNote). x.amount) notes)) ≡ none_worth v notes
unfolding enumerate
lacks-enumerate v i [] = refl
lacks-enumerate v i (n ∷ ns) = ap (λ b. not (n.amount == v) && b) (lacks-enumerate v (i + 1) ns)

-- No note of the wallet is worth a sum that comes up while the notes are added one by one.
abbrev pub Clear : List SpendableNote → ℕ → List SpendableNote → Type 0
Clear wallet sum [] = Unit {0}
Clear wallet sum (n ∷ ns) = (none_worth sum wallet ≡ true) × Clear wallet (sum + n.amount) ns

none_worth-without :
    (v k : ℕ) (notes : List SpendableNote)
    → none_worth v notes ≡ true
    → none_worth v (without k notes) ≡ true
unfolding without
none_worth-without v k [] h = refl
none_worth-without v k (n ∷ ns) h =
    let (here, below) = and-both (not (n.amount == v)) (none_worth v ns) h in
    let rest = none_worth-without v k ns below in
    elim (Bool-cases (n.commitment == k)) [ inl e ↦ rw e rest | inr e ↦ rw (e, here) rest ]

pub Clear-without :
    (k : ℕ) (wallet : List SpendableNote) (ns : List SpendableNote) (sum : ℕ)
    → Clear wallet sum ns
    → Clear (without k wallet) sum ns
Clear-without k wallet [] sum c = tt
Clear-without k wallet (n ∷ ns) sum c =
    (none_worth-without sum k wallet c.0, Clear-without k wallet ns (sum + n.amount) c.1)

-- Only the merged note matches its amount.
pub matching-merged :
    (v : ℕ) (excluded : Option ℕ) (notes : List SpendableNote) (merged : SpendableNote)
    → none_worth v notes ≡ true
    → merged.amount ≡ v
    → excludes excluded merged.commitment ≡ false
    → matching v excluded (notes ++ (merged ∷ [])) ≡ merged ∷ []
unfolding matching
matching-merged v excluded [] merged h same kept =
    let at : (merged.amount == v) ≡ true = ground (arith, same) in rw (at, kept) refl
matching-merged v excluded (n ∷ ns) merged h same kept =
    let (here, below) = and-both (not (n.amount == v)) (none_worth v ns) h in
    let other : (n.amount == v) ≡ false = ground (arith, here) in
    rw other (matching-merged v excluded ns merged below same kept)
