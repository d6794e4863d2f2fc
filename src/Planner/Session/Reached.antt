-- ===== src/Planner/Session/Reached.antt =====
-- The sessions that are reached from the first by completed steps.
use veil_server_v.Prelude.{
  ℕ, ◌+◌, ◌<◌, ◌≡◌, refl, sym, ap, ◌∙◌, true, false, none, some, List, arith, length, get_elem?,
  Outcome, ok, err, trap, unwrap, >>=-eq-ok, ok-injective, Bool-cases, inl, inr, ◌>>=◌, unwrap-inv,
}
use mathlib.Core.Option.{some-injective, none-ne-some}
use veil_server_v.Planner.Types.{PlanError, Candidate}
use veil_server_v.Planner.Plan.{SpendableNote, PlannedStep, TransactionPlan, plan, resolve}
use veil_server_v.Planner.Session.{
  Text, SpendTarget, SpendSession, complete, Transact, from_plan, validate_target, setup, is_done,
  step, materialize_step, next_wallet, complete_step,
}

pub data Reached (s0 : SpendSession) : SpendSession → Type 0 where
  start : Reached s0 s0
  completed :
      {s s' : SpendSession} (output_commitments : ℕ × ℕ)
      → Reached s0 s
      → complete_step output_commitments s ≡ ok s'
      → Reached s0 s'

pub from_plan-inv {ℓ} :
    {A : Type ℓ} (o : Outcome PlanError A) {a : A} → from_plan o ≡ ok a → o ≡ ok a
unfolding from_plan
from_plan-inv (ok b) e = ap ok (ok-injective e)
from_plan-inv (err x) e = cc
from_plan-inv trap e = cc

pub is_done-false : (s : SpendSession) → is_done s ≡ false → s.step_index < length s.steps
unfolding is_done
is_done-false s e = ground (arith, e)

-- The bodies, where the session is not done.
pub complete_step-more :
    (outs : ℕ × ℕ) (s : SpendSession)
    → is_done s ≡ false
    → complete_step outs s ≡ (
        unwrap (get_elem? s.steps s.step_index) >>= λ planned.
        from_plan (resolve planned s.wallet) >>= λ spent. ok (record s {
          wallet = next_wallet planned.action s.wallet spent outs.0;
          step_index = s.step_index + 1;
        }))
unfolding complete_step
complete_step-more outs s more = rw more refl

pub step-more :
    (s : SpendSession)
    → is_done s ≡ false
    → step s ≡ (
        unwrap (get_elem? s.steps s.step_index) >>= λ planned.
        from_plan (resolve planned s.wallet) >>= λ inputs.
        materialize_step planned.action s.pool_address s.target inputs >>= λ t. ok (some t))
unfolding step
step-more s more = rw more refl

step-done : (s : SpendSession) → is_done s ≡ true → step s ≡ ok none
unfolding step
step-done s done = rw done refl

pub complete_step-done :
    (outs : ℕ × ℕ) (s : SpendSession) → is_done s ≡ true → complete_step outs s ≡ err complete
unfolding complete_step
complete_step-done outs s done = rw done refl

-- The planned step that a completed step takes, the notes that it spends, and the session after it.
pub record Completed (output_commitments : ℕ × ℕ) (s s' : SpendSession) : Type 0 where
  pub planned : PlannedStep
  pub spent : List SpendableNote
  pub inside : s.step_index < length s.steps
  pub at : get_elem? s.steps s.step_index ≡ some planned
  pub resolved : resolve planned s.wallet ≡ ok spent
  pub after : s' ≡ record s {
    wallet = next_wallet planned.action s.wallet spent output_commitments.0;
    step_index = s.step_index + 1;
  }

pub complete_step-inv :
    (outs : ℕ × ℕ) (s : SpendSession) {s' : SpendSession}
    → complete_step outs s ≡ ok s'
    → Completed outs s s'
complete_step-inv outs s ran = elim (Bool-cases (is_done s)) [
  | inl done ↦ let e = sym (complete_step-done outs s done) ∙ ran in cc
  | inr more ↦
      let (planned, got, ran1) =
        >>=-eq-ok (unwrap (get_elem? s.steps s.step_index)) _
          (sym (complete_step-more outs s more) ∙ ran) in
      let (spent, found, ran2) = >>=-eq-ok (from_plan (resolve planned s.wallet)) _ ran1 in
      record {
        planned = planned;
        spent = spent;
        inside = is_done-false s more;
        at = unwrap-inv _ got;
        resolved = from_plan-inv _ found;
        after = sym (ok-injective ran2);
      }
]

-- What setup fixes, and what no step changes.
pub setup-inv :
    (sort : List Candidate → List Candidate) (wallet : List SpendableNote) (amount : ℕ)
    (pool_address : Text) (target : SpendTarget) {s0 : SpendSession}
    → setup sort wallet amount pool_address target ≡ ok s0
    → (p : TransactionPlan) × (plan sort amount wallet ≡ ok p)
      × (s0 ≡ record {
        steps = p.steps;
        wallet = wallet;
        pool_address = pool_address;
        target = target;
        step_index = 0;
      })
unfolding setup
setup-inv sort wallet amount pool_address target ran =
    let (u, valid, ran1) = >>=-eq-ok (validate_target target) _ ran in
    let (p, planned, ran2) = >>=-eq-ok (from_plan (plan sort amount wallet)) _ ran1 in
    (p, from_plan-inv _ planned, sym (ok-injective ran2))

pub record Constant (s0 s : SpendSession) : Type 0 where
  pub steps_same : s.steps ≡ s0.steps
  pub pool_same : s.pool_address ≡ s0.pool_address
  pub target_same : s.target ≡ s0.target

pub Reached-Constant : {s0 s : SpendSession} → Reached s0 s → Constant s0 s
Reached-Constant start = record { steps_same = refl; pool_same = refl; target_same = refl }
Reached-Constant (completed {s} {s'} outs r ran) =
    let c = Reached-Constant r in
    let after = (complete_step-inv outs s ran).after in
    record {
      steps_same = ap (λ (x : SpendSession). x.steps) after ∙ c.steps_same;
      pool_same = ap (λ (x : SpendSession). x.pool_address) after ∙ c.pool_same;
      target_same = ap (λ (x : SpendSession). x.target) after ∙ c.target_same;
    }

-- A step is given where the session is not done: that of its planned step on the notes it is resolved to.
pub record Given (s : SpendSession) (t : Transact) : Type 0 where
  pub planned : PlannedStep
  pub inputs : List SpendableNote
  pub inside : s.step_index < length s.steps
  pub at : get_elem? s.steps s.step_index ≡ some planned
  pub resolved : resolve planned s.wallet ≡ ok inputs
  pub made : materialize_step planned.action s.pool_address s.target inputs ≡ ok t

pub step-inv : (s : SpendSession) {t : Transact} → step s ≡ ok (some t) → Given s t
step-inv s {t} ran = elim (Bool-cases (is_done s)) [
  | inl done ↦ absurd (none-ne-some _ (ok-injective (sym (step-done s done) ∙ ran)))
  | inr more ↦
      let (planned, got, ran1) =
        >>=-eq-ok (unwrap (get_elem? s.steps s.step_index)) _ (sym (step-more s more) ∙ ran) in
      let (inputs, found, ran2) = >>=-eq-ok (from_plan (resolve planned s.wallet)) _ ran1 in
      let (t', made, ran3) =
        >>=-eq-ok (materialize_step planned.action s.pool_address s.target inputs) _ ran2 in
      record {
        planned = planned;
        inputs = inputs;
        inside = is_done-false s more;
        at = unwrap-inv _ got;
        resolved = from_plan-inv _ found;
        made = made ∙ ap ok (some-injective _ _ (ok-injective ran3));
      }
]
