-- ===== src/Planner/Session/Live.antt =====
-- A session never gets stuck: each step is resolved, and the steps come to an end.
use veil_server_v.Prelude.{
  ℕ, ◌+◌, ◌≤◌, ◌≡◌, ◌⊎◌, refl, sym, ap, ◌∙◌, subst, true, false, Option, none, some, List, [], ◌∷◌,
  ◌++◌, arith, length, length-append, get_elem?, ok, inl, inr, ok-injective, Bool-cases, le→leb,
}
use mathlib.Core.List.{Mem, Nodup, Nodup-cons}
use veil_server_v.Planner.Plan.{
  SpendableNote, StepNote, StepAction, PlannedStep, consolidate, final, from_spendable, from_amount,
  resolve,
}
use veil_server_v.Planner.Session.{
  SpendSession, commitments, without, remove_spent, next_wallet, complete_step, is_done, from_plan,
}
use veil_server_v.Planner.Session.Resolved.{HoldsAll}
use veil_server_v.Planner.Session.Reached.{complete_step-more, complete_step-done}
use veil_server_v.Planner.Session.Clear.{Clear-without}
use veil_server_v.Planner.Session.Spending.{ClearFrom}
use veil_server_v.Planner.Session.Chosen.{chain, spending}
use veil_server_v.Planner.Session.Wallet.{
  find_commitment-Holds_self, resolve_input_note-found, resolve-one, resolve-two, without-Nodup,
  without-HoldsAll, without-Mem,
}
use veil_server_v.Planner.Session.Merged.{
  Merged, link, chain-link, link-inputs, Merged-at, Merged-resolved, Merged-next,
}

-- A step merges, or spends the amount.
abbrev pub Spends : ℕ → StepAction → Type 0
Spends amount a =
    ((o : ℕ) × (a ≡ consolidate o)) ⊎ ((change : Option ℕ) × (a ≡ final amount change))

-- The step that is next, and the notes that it is resolved to.
pub record Resolvable (amount : ℕ) (s : SpendSession) : Type 0 where
  pub planned : PlannedStep
  pub spent : List SpendableNote
  pub at : get_elem? s.steps s.step_index ≡ some planned
  pub resolved : resolve planned s.wallet ≡ ok spent
  pub spends : Spends amount planned.action

-- The session before its first step.
pub record Begun (amount : ℕ) (s : SpendSession) : Type 0 where
  pub n : SpendableNote
  pub ns : List SpendableNote
  pub change : Option ℕ
  pub first : s.step_index ≡ 0
  pub steps_are : s.steps ≡ spending amount change n ns
  pub held : HoldsAll s.wallet (n ∷ ns)
  pub apart : Nodup (commitments (n ∷ ns))
  pub distinct : Nodup (commitments s.wallet)
  pub clear : ClearFrom s.wallet n ns

abbrev pub Stage : ℕ → SpendSession → Type 0
Stage amount s = Begun amount s ⊎ Merged amount s ⊎ (is_done s ≡ true)

link-Spends :
    (amount : ℕ) (change : Option ℕ) (prev : StepNote) (n : SpendableNote) (ns : List SpendableNote)
    → Spends amount (link amount change prev n ns).action
link-Spends amount change prev n [] = inr (change, refl)
link-Spends amount change prev n (m ∷ ms) = inl (prev.amount + n.amount, refl)

module _ (amount : ℕ) (s : SpendSession) where
  Begun-Resolvable :
      (change : Option ℕ) (n : SpendableNote) (ns : List SpendableNote)
      → s.step_index ≡ 0
      → s.steps ≡ spending amount change n ns
      → HoldsAll s.wallet (n ∷ ns)
      → Nodup (commitments s.wallet)
      → Resolvable amount s
  Begun-Resolvable change n [] first steps held distinct =
      let one : PlannedStep = record {
        inputs = (from_spendable n, none);
        action = final amount change;
      } in
      record {
        planned = one;
        spent = n ∷ [];
        at = rw (steps, first) refl;
        resolved = resolve-one one s.wallet (from_spendable n) n refl (
            resolve_input_note-found n s.wallet none
              (find_commitment-Holds_self s.wallet n distinct held.0));
        spends = inr (change, refl);
      }
  Begun-Resolvable change n (m ∷ ms) first steps held distinct =
      let steps' = steps ∙ chain-link amount change (from_spendable n) m ms in
      record {
        planned = link amount change (from_spendable n) m ms;
        spent = n ∷ m ∷ [];
        at = rw (steps', first) refl;
        resolved =
            resolve-two (link amount change (from_spendable n) m ms) s.wallet (from_spendable n)
              (from_spendable m) n m (link-inputs amount change (from_spendable n) m ms)
              (resolve_input_note-found n s.wallet (some (from_spendable m))
                (find_commitment-Holds_self s.wallet n distinct held.0))
              (resolve_input_note-found m s.wallet (some (from_spendable n))
                (find_commitment-Holds_self s.wallet m distinct held.1.0));
        spends = link-Spends amount change (from_spendable n) m ms;
      }

  pub Stage-Resolvable : Stage amount s → is_done s ≡ false → Resolvable amount s
  Stage-Resolvable (inl b) more =
      Begun-Resolvable b.change b.n b.ns b.first b.steps_are b.held b.distinct
  Stage-Resolvable (inr (inl w)) more = record {
    planned = link amount w.change (from_amount w.sum) w.n w.ns;
    spent = w.merged ∷ w.n ∷ [];
    at = Merged-at amount s w;
    resolved = Merged-resolved amount s w;
    spends = link-Spends amount w.change (from_amount w.sum) w.n w.ns;
  }
  Stage-Resolvable (inr (inr done)) more = let e = sym done ∙ more in cc

pub is_done-true : (s : SpendSession) → length s.steps ≤ s.step_index → is_done s ≡ true
unfolding is_done
is_done-true s le = le→leb _ _ le

-- The session after a completed step, by the step that was to be resolved.
module _ (amount : ℕ) (s : SpendSession) (r : Resolvable amount s) (outs : ℕ × ℕ) where
  abbrev pub advanced : SpendSession
  advanced = record s {
    wallet = next_wallet r.planned.action s.wallet r.spent outs.0;
    step_index = s.step_index + 1;
  }

  pub complete_step-Resolvable : is_done s ≡ false → complete_step outs s ≡ ok advanced
  unfolding from_plan
  complete_step-Resolvable more = complete_step-more outs s more ∙ rw (r.at, r.resolved) refl

module _ (amount : ℕ) (s : SpendSession) (outs : ℕ × ℕ)
    (new : ¬ Mem outs.0 (commitments s.wallet)) where
  Merged-advanced :
      (w : Merged amount s) (ns : List SpendableNote)
      → w.ns ≡ ns
      → (more : is_done s ≡ false)
      → Stage amount (advanced amount s (Stage-Resolvable amount s (inr (inl w)) more) outs)
  unfolding Stage-Resolvable
  Merged-advanced w [] last more =
      let steps : s.steps ≡ w.before ++ chain amount w.change (from_amount w.sum) w.n [] =
        w.steps_are
        ∙ ap (λ xs. w.before ++ chain amount w.change (from_amount w.sum) w.n xs) last in
      let len : length s.steps ≡ length w.before + 1 = ap length steps ∙ length-append w.before _ in
      inr (inr (is_done-true _ (omega (arith, len, w.placed))))
  Merged-advanced w (m ∷ ms) next more =
      inr (inl (Merged-next amount s w outs.0 m ms next new refl))

  Begun-advanced :
      (change : Option ℕ) (n : SpendableNote) (ns : List SpendableNote) (first : s.step_index ≡ 0)
      (steps : s.steps ≡ spending amount change n ns) (held : HoldsAll s.wallet (n ∷ ns))
      (distinct : Nodup (commitments s.wallet))
      → Nodup (commitments (n ∷ ns))
      → ClearFrom s.wallet n ns
      → Stage amount
          (advanced amount s (Begun-Resolvable amount s change n ns first steps held distinct) outs)
  unfolding Begun-Resolvable next_wallet remove_spent
  Begun-advanced change n [] first steps held distinct apart clear =
      let len : length s.steps ≡ 1 = ap length steps in
      inr (inr (is_done-true _ (omega (arith, len, first))))
  Begun-advanced change n (m ∷ []) first steps held distinct apart clear =
      let len : length s.steps ≡ 1 = ap length steps in
      inr (inr (is_done-true _ (omega (arith, len, first))))
  Begun-advanced change n (m ∷ p ∷ ms) first steps held distinct apart clear =
      let left = without m.commitment (without n.commitment s.wallet) in
      let (n_unlike, apart1) = Nodup-cons.0 apart in
      let (m_unlike, apart2) = Nodup-cons.0 apart1 in
      let held1 : HoldsAll (without n.commitment s.wallet) (m ∷ p ∷ ms) =
        without-HoldsAll n.commitment s.wallet (m ∷ p ∷ ms) n_unlike held.1 in
      inr (
        inl (record {
          before = link amount change (from_spendable n) m (p ∷ ms) ∷ [];
          change = change;
          sum = n.amount + m.amount;
          n = p;
          ns = ms;
          placed = ap (λ i. i + 1) (sym first);
          steps_are = steps;
          rest = left;
          merged = record { commitment = outs.0; amount = n.amount + m.amount };
          wallet_is = refl;
          carries = refl;
          unused = λ h. new (
              without-Mem n.commitment s.wallet
                (without-Mem m.commitment (without n.commitment s.wallet) h));
          distinct =
              without-Nodup m.commitment (without n.commitment s.wallet)
                (without-Nodup n.commitment s.wallet distinct);
          apart = apart2;
          held =
              without-HoldsAll m.commitment (without n.commitment s.wallet) (p ∷ ms) m_unlike
                held1.1;
          clear =
              Clear-without m.commitment (without n.commitment s.wallet) (p ∷ ms)
                (n.amount + m.amount)
                (Clear-without n.commitment s.wallet (p ∷ ms) (n.amount + m.amount) clear);
        }))

  pub Stage-advanced :
      (stage : Stage amount s) (more : is_done s ≡ false)
      → Stage amount (advanced amount s (Stage-Resolvable amount s stage more) outs)
  unfolding Stage-Resolvable
  Stage-advanced (inl b) more =
      Begun-advanced b.change b.n b.ns b.first b.steps_are b.held b.distinct b.apart b.clear
  Stage-advanced (inr (inl w)) more = Merged-advanced w w.ns refl more
  Stage-advanced (inr (inr done)) more = let e = sym done ∙ more in cc

  -- The next stage, of whatever session a completed step gives.
  pub complete_step-Stage :
      {s' : SpendSession} → Stage amount s → complete_step outs s ≡ ok s' → Stage amount s'
  complete_step-Stage {s'} stage ran = elim (Bool-cases (is_done s)) [
    | inl done ↦ let e = sym (complete_step-done outs s done) ∙ ran in cc
    | inr more ↦
        subst (Stage amount)
          (ok-injective (
            sym (complete_step-Resolvable amount s (Stage-Resolvable amount s stage more) outs more)
            ∙ ran))
          (Stage-advanced stage more)
  ]
