-- ===== src/Planner/Session/Merged.antt =====
-- A session between its steps: the note that carries the sum so far, and the notes still to be merged.
use veil_server_v.Prelude.{
  ℕ, ◌+◌, ◌≡◌, ◌≢◌, refl, sym, ap, ◌∙◌, subst, true, false, Option, some, List, [], ◌∷◌, ◌++◌,
  arith, length, length-append, get_elem?, get_elem?-append_self, ok, ne→==, ◌==◌,
}
use mathlib.Core.List.{Mem, Nodup, Nodup-cons, append_assoc, append-nil}
use veil_server_v.Planner.Plan.{
  SpendableNote, StepNote, PlannedStep, consolidate, final, from_spendable, from_amount, resolve,
  excludes,
}
use veil_server_v.Planner.Session.{SpendSession, commitments, without, remove_spent, next_wallet}
use veil_server_v.Planner.Session.Resolved.{HoldsAll}
use veil_server_v.Planner.Session.Clear.{Clear, Clear-without, matching-merged}
use veil_server_v.Planner.Session.Chosen.{chain}
use veil_server_v.Planner.Session.Wallet.{
  Holds-Mem, find_commitment-Holds_self, find_commitment-append, resolve_input_note-found,
  resolve_input_note-only, resolve-two, without-absent, without-append, without-Nodup,
  without-HoldsAll, without-Mem, append-Mem,
}

pub record Merged (amount : ℕ) (s : SpendSession) : Type 0 where
  pub before : List PlannedStep
  pub change : Option ℕ
  pub sum : ℕ
  pub n : SpendableNote
  pub ns : List SpendableNote
  pub placed : length before ≡ s.step_index
  pub steps_are : s.steps ≡ before ++ chain amount change (from_amount sum) n ns
  pub rest : List SpendableNote
  pub merged : SpendableNote
  pub wallet_is : s.wallet ≡ rest ++ (merged ∷ [])
  pub carries : merged.amount ≡ sum
  pub unused : ¬ Mem merged.commitment (commitments rest)
  pub distinct : Nodup (commitments rest)
  pub apart : Nodup (commitments (n ∷ ns))
  pub held : HoldsAll rest (n ∷ ns)
  pub clear : Clear rest sum (n ∷ ns)

-- The step that merges `prev` with `n`, before the notes `ns`.
abbrev pub link : ℕ → Option ℕ → StepNote → SpendableNote → List SpendableNote → PlannedStep
link amount change prev n [] = record {
  inputs = (prev, some (from_spendable n));
  action = final amount change;
}
link amount change prev n (m ∷ ms) = record {
  inputs = (prev, some (from_spendable n));
  action = consolidate (prev.amount + n.amount);
}

abbrev pub tail_chain :
    ℕ → Option ℕ → StepNote → SpendableNote → List SpendableNote → List PlannedStep
tail_chain amount change prev n [] = []
tail_chain amount change prev n (m ∷ ms) =
    chain amount change (from_amount (prev.amount + n.amount)) m ms

pub chain-link :
    (amount : ℕ) (change : Option ℕ) (prev : StepNote) (n : SpendableNote) (ns : List SpendableNote)
    → chain amount change prev n ns
      ≡ link amount change prev n ns ∷ tail_chain amount change prev n ns
chain-link amount change prev n [] = refl
chain-link amount change prev n (m ∷ ms) = refl

pub link-inputs :
    (amount : ℕ) (change : Option ℕ) (prev : StepNote) (n : SpendableNote) (ns : List SpendableNote)
    → (link amount change prev n ns).inputs ≡ (prev, some (from_spendable n))
link-inputs amount change prev n [] = refl
link-inputs amount change prev n (m ∷ ms) = refl

module _ (amount : ℕ) (s : SpendSession) (w : Merged amount s) where
  abbrev here : PlannedStep
  here = link amount w.change (from_amount w.sum) w.n w.ns

  pub Merged-at : get_elem? s.steps s.step_index ≡ some here
  Merged-at =
      let steps : s.steps
          ≡ w.before ++ (here ∷ tail_chain amount w.change (from_amount w.sum) w.n w.ns) =
        w.steps_are
        ∙ ap (λ xs. w.before ++ xs) (chain-link amount w.change (from_amount w.sum) w.n w.ns) in
      rw (steps, sym w.placed) (get_elem?-append_self w.before _ here)

  n_held : Mem w.n.commitment (commitments w.rest)
  n_held = Holds-Mem w.rest w.n w.held.0

  merged_is_other : w.merged.commitment ≢ w.n.commitment
  merged_is_other e = w.unused (subst (λ k. Mem k (commitments w.rest)) (sym e) n_held)

  excluded : excludes (some w.n.commitment) w.merged.commitment ≡ false
  unfolding excludes
  excluded = ne→== w.n.commitment w.merged.commitment (λ e. merged_is_other (sym e))

  pub Merged-resolved : resolve here s.wallet ≡ ok (w.merged ∷ w.n ∷ [])
  Merged-resolved =
      ap (resolve here) w.wallet_is
      ∙ resolve-two here (w.rest ++ (w.merged ∷ [])) (from_amount w.sum) (from_spendable w.n)
          w.merged w.n (link-inputs amount w.change (from_amount w.sum) w.n w.ns)
          (resolve_input_note-only w.sum w.n w.merged (w.rest ++ (w.merged ∷ [])) (
            matching-merged w.sum (some w.n.commitment) w.rest w.merged w.clear.0 w.carries
              excluded))
          (resolve_input_note-found w.n (w.rest ++ (w.merged ∷ [])) (some (from_amount w.sum)) (
            find_commitment-append w.n.commitment w.rest (w.merged ∷ [])
              (find_commitment-Holds_self w.rest w.n w.distinct w.held.0)))

  -- What is left of the wallet once the two are spent.
  Merged-spent : remove_spent s.wallet (w.merged ∷ w.n ∷ []) ≡ without w.n.commitment w.rest
  unfolding remove_spent without
  Merged-spent =
      let gone : without w.merged.commitment (w.merged ∷ []) ≡ [] =
        let self : (w.merged.commitment == w.merged.commitment) ≡ true = ground arith in
        rw self refl in
      ap (λ xs. without w.n.commitment (without w.merged.commitment xs)) w.wallet_is
      ∙ ap (without w.n.commitment) (
          without-append w.merged.commitment w.rest (w.merged ∷ [])
          ∙ ap (λ xs. without w.merged.commitment w.rest ++ xs) gone
          ∙ append-nil (without w.merged.commitment w.rest)
          ∙ without-absent w.merged.commitment w.rest w.unused)

  -- The session after the step, where another note is still to be merged.
  pub Merged-next :
      (k : ℕ) (m : SpendableNote) (ms : List SpendableNote) {s' : SpendSession}
      → w.ns ≡ m ∷ ms
      → ¬ Mem k (commitments s.wallet)
      → s' ≡ record s {
        wallet = next_wallet here.action s.wallet (w.merged ∷ w.n ∷ []) k;
        step_index = s.step_index + 1;
      }
      → Merged amount s'
  unfolding next_wallet
  Merged-next k m ms {s'} more new after =
      let (unlike, apart) = Nodup-cons.0 w.apart in
      let steps : s.steps
          ≡ (w.before ++ (link amount w.change (from_amount w.sum) w.n (m ∷ ms) ∷ []))
            ++ chain amount w.change (from_amount (w.sum + w.n.amount)) m ms =
        w.steps_are
        ∙ ap (λ xs. w.before ++ chain amount w.change (from_amount w.sum) w.n xs) more
        ∙ sym (append_assoc w.before _ _) in
      let absent : ¬ Mem k (commitments w.rest) = λ h. new (
        subst (λ xs. Mem k (commitments xs)) (sym w.wallet_is)
          (append-Mem w.rest (w.merged ∷ []) h)) in
      subst (Merged amount) (sym after) (record {
        before = w.before ++ (link amount w.change (from_amount w.sum) w.n (m ∷ ms) ∷ []);
        change = w.change;
        sum = w.sum + w.n.amount;
        n = m;
        ns = ms;
        placed = length-append w.before _ ∙ ap (λ i. i + 1) w.placed;
        steps_are = steps;
        rest = without w.n.commitment w.rest;
        merged = record { commitment = k; amount = w.sum + w.n.amount };
        wallet_is =
            ap
              (λ xs.
                next_wallet (link amount w.change (from_amount w.sum) w.n xs).action s.wallet
                  (w.merged ∷ w.n ∷ []) k)
              more
            ∙ ap (λ xs. xs ++ (record { commitment = k; amount = w.sum + w.n.amount } ∷ []))
                Merged-spent;
        carries = refl;
        unused = λ h. absent (without-Mem w.n.commitment w.rest h);
        distinct = without-Nodup w.n.commitment w.rest w.distinct;
        apart = subst (λ xs. Nodup (commitments xs)) more apart;
        held =
            without-HoldsAll w.n.commitment w.rest (m ∷ ms)
              (λ h. unlike (subst (λ xs. Mem w.n.commitment (commitments xs)) (sym more) h))
              (subst (HoldsAll w.rest) more w.held.1);
        clear =
            Clear-without w.n.commitment w.rest (m ∷ ms) (w.sum + w.n.amount)
              (subst (Clear w.rest (w.sum + w.n.amount)) more w.clear.1);
      })
