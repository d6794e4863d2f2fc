-- ===== src/Planner/Session/Runs.antt =====
-- The runs of a session whose completed steps bring notes of new commitments.
use veil_server_v.Prelude.{
  ℕ, zero, suc, ◌+◌, ◌^◌, ◌≤◌, ◌<◌, ◌≡◌, ◌⊎◌, refl, sym, ap, ◌∙◌, subst, true, false, some, List,
  arith, length, ok, err, inl, inr, lt-or-le, lt→leb,
}
use mathlib.Core.List.{Mem, Nodup, Permᴰ}
use veil_server_v.Planner.Types.{Candidate, total}
use veil_server_v.Planner.Top.{Rises}
use veil_server_v.Planner.Plan.{SpendableNote, StepAction}
use veil_server_v.Planner.Plan.Total.{candidates}
use veil_server_v.Planner.Session.{
  Text, SpendTarget, transfer, withdraw, SpendSession, ext_amount_overflow, Transact, commitments,
  setup, complete_step, is_done, step, materialize_step, materialize_final, from_plan,
}
use veil_server_v.Planner.Session.Reached.{complete_step-inv, step-more, setup-inv}
use veil_server_v.Planner.Session.Paid.{withdraw-small, withdraw-large}
use veil_server_v.Planner.Session.Spending.{plan-Spending}
use veil_server_v.Planner.Session.Live.{
  Spends, Resolvable, Begun, Stage, Stage-Resolvable, advanced, complete_step-Resolvable,
  complete_step-Stage, is_done-true,
}

-- The first commitment of a completed step is one that the wallet does not have.
pub data FreshRun (s0 : SpendSession) : SpendSession → Type 0 where
  opened : FreshRun s0 s0
  advances :
      {s s' : SpendSession} (output_commitments : ℕ × ℕ)
      → FreshRun s0 s
      → ¬ Mem output_commitments.0 (commitments s.wallet)
      → complete_step output_commitments s ≡ ok s'
      → FreshRun s0 s'

FreshRun-Stage :
    {s0 s : SpendSession} (amount : ℕ) → Stage amount s0 → FreshRun s0 s → Stage amount s
FreshRun-Stage amount stage opened = stage
FreshRun-Stage amount stage (advances {s} outs r new ran) =
    complete_step-Stage amount s outs new (FreshRun-Stage amount stage r) ran

FreshRun-steps : {s0 s : SpendSession} → FreshRun s0 s → s.steps ≡ s0.steps
FreshRun-steps opened = refl
FreshRun-steps (advances {s} outs r new ran) =
    ap (λ (x : SpendSession). x.steps) (complete_step-inv outs s ran).after ∙ FreshRun-steps r

-- A step is made, but for a withdrawal of an amount beyond 127 bits.
abbrev pub IsGiven : ℕ → SpendSession → Type 0
IsGiven amount s =
    ((t : Transact) × (step s ≡ ok (some t)))
    ⊎ ((step s ≡ err ext_amount_overflow) × (2 ^ 127 ≤ amount))

is_done-more : (s : SpendSession) → s.step_index < length s.steps → is_done s ≡ false
unfolding is_done
is_done-more s less = lt→leb _ _ less

module _ (amount : ℕ) (pool_address : Text) (inputs : List SpendableNote) where
  materialize_step-cases :
      (target : SpendTarget) (a : StepAction)
      → Spends amount a
      → ((t : Transact) × (materialize_step a pool_address target inputs ≡ ok t))
        ⊎ ((materialize_step a pool_address target inputs ≡ err ext_amount_overflow)
            × (2 ^ 127 ≤ amount))
  unfolding materialize_step materialize_final
  materialize_step-cases target a (inl (o, e)) =
      inl (_, ap (λ x. materialize_step x pool_address target inputs) e)
  materialize_step-cases (transfer note enc) a (inr (change, e)) =
      inl (_, ap (λ x. materialize_step x pool_address (transfer note enc) inputs) e)
  materialize_step-cases (withdraw recipient) a (inr (change, e)) =
      let at = ap (λ x. materialize_step x pool_address (withdraw recipient) inputs) e in
      elim (lt-or-le amount (2 ^ 127)) [
        | inl small ↦ inl (_, at ∙ withdraw-small amount change pool_address recipient inputs small)
        | inr large ↦
            inr (at ∙ withdraw-large amount change pool_address recipient inputs large, large)
      ]

Resolvable-IsGiven :
    (amount : ℕ) (s : SpendSession) → Resolvable amount s → is_done s ≡ false → IsGiven amount s
unfolding from_plan
Resolvable-IsGiven amount s r more =
    elim (materialize_step-cases amount s.pool_address r.spent s.target r.planned.action r.spends) [
      | inl (t, made) ↦ inl (t, step-more s more ∙ rw (r.at, r.resolved, made) refl)
      | inr (failed, large) ↦ inr (step-more s more ∙ rw (r.at, r.resolved, failed) refl, large)
    ]

module _ (sort : List Candidate → List Candidate) (wallet : List SpendableNote) (amount : ℕ)
    (pool_address : Text) (target : SpendTarget) {s0 : SpendSession} (positive : 0 < amount)
    (perm : (cs : List Candidate) → Permᴰ (sort cs) cs)
    (rises : (cs : List Candidate) → Rises 0 (sort cs)) (fits : total (candidates wallet) < 2 ^ 128)
    (short : length (candidates wallet) < 2 ^ 64) (distinct : Nodup (commitments wallet))
    (started : setup sort wallet amount pool_address target ≡ ok s0) where
  setup-Begun : Begun amount s0
  setup-Begun =
      let (p, planned, first) = setup-inv sort wallet amount pool_address target started in
      let spending =
        plan-Spending sort amount wallet perm rises positive fits short distinct planned in
      subst (Begun amount) (sym first) (record {
        n = spending.first;
        ns = spending.others;
        change = spending.change;
        first = refl;
        steps_are = spending.made;
        held = spending.held;
        apart = spending.distinct;
        distinct = distinct;
        clear = spending.clear;
      })

  Runs-Stage : {s : SpendSession} → FreshRun s0 s → Stage amount s
  Runs-Stage run = FreshRun-Stage amount (inl setup-Begun) run

  -- A session is set up for an amount that is not zero, from a wallet of distinct commitments and
  -- fewer than 2 ^ 64 notes, whose amounts sum to less than 2 ^ 128; the sort orders by the amount,
  -- equal amounts as it likes. Whatever steps are completed, each with a commitment that the wallet
  -- does not have yet, the session is never stuck before the end: the inputs of the next step are
  -- found and are not ambiguous, so that `step` gives its transaction, except that a withdrawal of 2
  -- ^ 127 or more is refused, and `complete_step` goes on to the step after it.
  pub step-FreshRun :
      {s : SpendSession}
      → FreshRun s0 s
      → is_done s ≡ false
      → (output_commitments : ℕ × ℕ)
      → IsGiven amount s
        × ((s' : SpendSession) × (complete_step output_commitments s ≡ ok s')
            × (s'.step_index ≡ s.step_index + 1))
  step-FreshRun {s} run more outs =
      let r = Stage-Resolvable amount s (Runs-Stage run) more in
      (
        Resolvable-IsGiven amount s r more,
        (advanced amount s r outs, complete_step-Resolvable amount s r outs more, refl),
      )

  finish :
      (supply : List ℕ → ℕ)
      → ((ks : List ℕ) → ¬ Mem (supply ks) ks)
      → (k : ℕ) {s : SpendSession} → FreshRun s0 s
      → s.step_index + k ≡ length s0.steps
      → (s' : SpendSession) × FreshRun s0 s'
        × (is_done s' ≡ true)
        × (s'.step_index ≡ length s0.steps)
  finish supply new zero {s} run left =
      let len : length s.steps ≡ length s0.steps = ap length (FreshRun-steps run) in
      (s, run, is_done-true s (omega (arith, left, len)), omega (arith, left))
  finish supply new (suc k) {s} run left =
      let len : length s.steps ≡ length s0.steps = ap length (FreshRun-steps run) in
      let outs : ℕ × ℕ = (supply (commitments s.wallet), 0) in
      let (given, (s', ran, next)) =
        step-FreshRun run (is_done-more s (omega (arith, left, len))) outs in
      finish supply new k {s = s'} (advances outs run (new (commitments s.wallet)) ran)
        (omega (arith, left, next))

  -- A session that is set up for an amount that is not zero, from a wallet of distinct commitments and
  -- fewer than 2 ^ 64 notes, whose amounts sum to less than 2 ^ 128, by a sort that orders by the
  -- amount, can be completed: with a supply of new commitments, as many completed steps as the plan has
  -- lead to its end.
  pub setup-FreshRun :
      (supply : List ℕ → ℕ)
      → ((ks : List ℕ) → ¬ Mem (supply ks) ks)
      → (s : SpendSession) × FreshRun s0 s × (is_done s ≡ true) × (s.step_index ≡ length s0.steps)
  setup-FreshRun supply new =
      let (p, planned, first) = setup-inv sort wallet amount pool_address target started in
      let at : s0.step_index ≡ 0 = ap (λ (x : SpendSession). x.step_index) first in
      finish supply new (length s0.steps) opened (omega (arith, at))
