-- ===== src/Planner/Session/Wallet.antt =====
-- How a wallet with distinct commitments changes and is searched.
use veil_server_v.Prelude.{
  ℕ, zero, suc, ◌≡◌, ◌≢◌, refl, sym, ap, ◌∙◌, subst, true, Option, none, some, List, [], ◌∷◌, ◌++◌,
  ◌==◌, arith, ok, inl, inr, Bool-cases, ne→==,
}
use mathlib.Core.List.{Sublistᴰ, Mem, Nodup, mem-cons_self, mem-cons_of_mem, Nodup-cons}
use mathlib.Core.List.Sublistᴰ
use mathlib.Core.List.Nodup as Nodup
use mathlib.Core.Option.{some-injective}
use veil_server_v.Planner.Plan.{
  SpendableNote, find_commitment, resolve_input_note, from_spendable, from_amount, StepNote,
  PlannedStep, matching, resolve,
}
use veil_server_v.Planner.Session.{commitments, without}
use veil_server_v.Planner.Session.Resolved.{Holds, HoldsAll}

pub Holds-Mem :
    (wallet : List SpendableNote) (n : SpendableNote)
    → Holds wallet n
    → Mem n.commitment (commitments wallet)
Holds-Mem [] n (j, at) = cc
Holds-Mem (m ∷ ms) n (zero, at) =
    subst (λ (x : SpendableNote). Mem x.commitment (commitments (m ∷ ms))) (some-injective _ _ at)
      mem-cons_self
Holds-Mem (m ∷ ms) n (suc j, at) = mem-cons_of_mem m.commitment (Holds-Mem ms n (j, at))

-- A note of the wallet is the one that its commitment finds.
pub find_commitment-Holds_self :
    (wallet : List SpendableNote) (n : SpendableNote)
    → Nodup (commitments wallet)
    → Holds wallet n
    → find_commitment n.commitment wallet ≡ some n
unfolding find_commitment
find_commitment-Holds_self [] n distinct (j, at) = cc
find_commitment-Holds_self (m ∷ ms) n distinct (zero, at) =
    let it : m ≡ n = some-injective _ _ at in
    let same : (m.commitment == n.commitment) ≡ true =
      ground (arith, ap (λ (x : SpendableNote). x.commitment) it) in
    rw same at
find_commitment-Holds_self (m ∷ ms) n distinct (suc j, at) =
    let (unlike, rest) = Nodup-cons.0 distinct in
    let differ : m.commitment ≢ n.commitment =
      λ e. unlike (subst (λ k. Mem k (commitments ms)) (sym e) (Holds-Mem ms n (j, at))) in
    rw (ne→== m.commitment n.commitment differ) (find_commitment-Holds_self ms n rest (j, at))

pub find_commitment-append :
    (k : ℕ) (xs ys : List SpendableNote) {n : SpendableNote}
    → find_commitment k xs ≡ some n
    → find_commitment k (xs ++ ys) ≡ some n
unfolding find_commitment
find_commitment-append k [] ys e = cc
find_commitment-append k (x ∷ xs) ys e = elim (Bool-cases (x.commitment == k)) [
  | inl here ↦ ground (arith, here, e)
  | inr there ↦ rw there (find_commitment-append k xs ys (ground (arith, there, e)))
]

-- A note that its commitment finds is what an input of that note is resolved to.
pub resolve_input_note-found :
    (n : SpendableNote) (wallet : List SpendableNote) (sibling : Option StepNote)
    → find_commitment n.commitment wallet ≡ some n
    → resolve_input_note (from_spendable n) wallet sibling ≡ ok n
unfolding resolve_input_note
resolve_input_note-found n wallet sibling found =
    let same : (n.amount == n.amount) ≡ true = ground arith in rw (found, same) refl

-- A note without a commitment is resolved to the only one of its amount but for the sibling.
pub resolve_input_note-only :
    (v : ℕ) (sibling m : SpendableNote) (wallet : List SpendableNote)
    → matching v (some sibling.commitment) wallet ≡ m ∷ []
    → resolve_input_note (from_amount v) wallet (some (from_spendable sibling)) ≡ ok m
unfolding resolve_input_note
resolve_input_note-only v sibling m wallet only = rw (resolve_input_note, only) refl

pub resolve-one :
    (p : PlannedStep) (wallet : List SpendableNote) (a : StepNote) (x : SpendableNote)
    → p.inputs ≡ (a, none)
    → resolve_input_note a wallet none ≡ ok x
    → resolve p wallet ≡ ok (x ∷ [])
unfolding resolve
resolve-one p wallet a x e first =
    let alone : PlannedStep = record { inputs = (a, none); action = p.action } in
    let it : p ≡ alone = ap (λ i. record p { inputs = i }) e in
    ap (λ q. resolve q wallet) it ∙ rw first refl

pub resolve-two :
    (p : PlannedStep) (wallet : List SpendableNote) (a b : StepNote) (x y : SpendableNote)
    → p.inputs ≡ (a, some b)
    → resolve_input_note a wallet (some b) ≡ ok x
    → resolve_input_note b wallet (some a) ≡ ok y
    → resolve p wallet ≡ ok (x ∷ y ∷ [])
unfolding resolve
resolve-two p wallet a b x y e first second =
    let both : PlannedStep = record { inputs = (a, some b); action = p.action } in
    let it : p ≡ both = ap (λ i. record p { inputs = i }) e in
    ap (λ q. resolve q wallet) it ∙ rw (first, second) refl

pub without-absent :
    (k : ℕ) (wallet : List SpendableNote) → ¬ Mem k (commitments wallet) → without k wallet ≡ wallet
unfolding without
without-absent k [] absent = refl
without-absent k (n ∷ ns) absent =
    let differ : n.commitment ≢ k =
      λ e. absent (subst (λ j. Mem j (commitments (n ∷ ns))) e mem-cons_self) in
    rw (ne→== n.commitment k differ)
      (ap (λ xs. n ∷ xs) (without-absent k ns (λ m. absent (mem-cons_of_mem n.commitment m))))

pub without-append :
    (k : ℕ) (xs ys : List SpendableNote) → without k (xs ++ ys) ≡ without k xs ++ without k ys
unfolding without
without-append k [] ys = refl
without-append k (x ∷ xs) ys = elim (Bool-cases (x.commitment == k)) [
  | inl here ↦ rw here (without-append k xs ys)
  | inr there ↦ rw there (ap (λ zs. x ∷ zs) (without-append k xs ys))
]

without-Sublist :
    (k : ℕ) (wallet : List SpendableNote)
    → Sublistᴰ (commitments (without k wallet)) (commitments wallet)
unfolding without
without-Sublist k [] = Sublistᴰ.slnil
without-Sublist k (n ∷ ns) = elim (Bool-cases (n.commitment == k)) [
  | inl here ↦ rw here (Sublistᴰ.cons (without-Sublist k ns))
  | inr there ↦ rw there (Sublistᴰ.cons-cons refl (without-Sublist k ns))
]

pub without-Nodup :
    (k : ℕ) (wallet : List SpendableNote)
    → Nodup (commitments wallet)
    → Nodup (commitments (without k wallet))
without-Nodup k wallet distinct = Nodup.sublist ∣ without-Sublist k wallet ∣₁ distinct

pub without-Holds :
    (k : ℕ) (wallet : List SpendableNote) (n : SpendableNote)
    → n.commitment ≢ k
    → Holds wallet n
    → Holds (without k wallet) n
unfolding without
without-Holds k [] n differ (j, at) = cc
without-Holds k (m ∷ ms) n differ (zero, at) =
    let it : m.commitment ≡ n.commitment =
      ap (λ (x : SpendableNote). x.commitment) (some-injective _ _ at) in
    rw (ne→== m.commitment k (λ e. differ (sym it ∙ e))) (0, at)
without-Holds k (m ∷ ms) n differ (suc j, at) =
    let (i, at') = without-Holds k ms n differ (j, at) in
    elim (Bool-cases (m.commitment == k)) [
      | inl here ↦ rw here (i, at')
      | inr there ↦ rw there (suc i, at')
    ]

pub without-HoldsAll :
    (k : ℕ) (wallet ns : List SpendableNote)
    → ¬ Mem k (commitments ns)
    → HoldsAll wallet ns
    → HoldsAll (without k wallet) ns
without-HoldsAll k wallet [] absent held = tt
without-HoldsAll k wallet (n ∷ ns) absent held = (
  without-Holds k wallet n (λ e. absent (subst (λ j. Mem j (commitments (n ∷ ns))) e mem-cons_self))
      held.0,
  without-HoldsAll k wallet ns (λ m. absent (mem-cons_of_mem n.commitment m)) held.1,
)

pub without-Mem :
    (k : ℕ) (wallet : List SpendableNote) {j : ℕ}
    → Mem j (commitments (without k wallet))
    → Mem j (commitments wallet)
without-Mem k wallet {j} m = Sublistᴰ.subset (without-Sublist k wallet) j m

append-Sublist : (xs ys : List SpendableNote) → Sublistᴰ (commitments xs) (commitments (xs ++ ys))
append-Sublist [] ys = Sublistᴰ.nil-sublist (commitments ys)
append-Sublist (x ∷ xs) ys = Sublistᴰ.cons-cons refl (append-Sublist xs ys)

pub append-Mem :
    (xs ys : List SpendableNote) {j : ℕ} → Mem j (commitments xs) → Mem j (commitments (xs ++ ys))
append-Mem xs ys {j} m = Sublistᴰ.subset (append-Sublist xs ys) j m
