-- ===== src/Planner/Session/Paid.antt =====
-- What the transactions of a session spend and pay.
use veil_server_v.Prelude.{
  ℕ, zero, suc, ◌+◌, ◌^◌, ◌≤◌, ◌<◌, ◌≡◌, ◌⊎◌, refl, sym, ap, ◌∙◌, subst, Bool, true, false, Option,
  none, some, List, [], ◌∷◌, arith, length, get_elem?, Outcome, ok, err, ok-injective, inl, inr,
  lt-or-le,
}
use veil_server_v.Prelude.Int.{pos, negate}
use mathlib.Core.List.{Permᴰ}
use mathlib.Core.Option.{some-injective}
use veil_server_v.Amounts.{ext_from_note, ext_checked_neg, checked_i128}
use veil_server_v.Planner.Types.{PlanError, Candidate, total}
use veil_server_v.Planner.Plan.{
  SpendableNote, StepNote, StepAction, PlannedStep, TransactionPlan, consolidate, final,
  from_spendable, from_amount,
}
use veil_server_v.Planner.Plan.Linked.{Linked, plan-Linked}
use veil_server_v.Planner.Plan.Balanced.{or_zero, in_sum, out_sum, AllBalanced}
use veil_server_v.Planner.Plan.Total.{candidates, Planned, plan-Planned}
use veil_server_v.Planner.Session.{
  Text, SpendTarget, transfer, withdraw, SpendSession, ext_amount_overflow, Transact, setup,
  is_consolidate_step, step, materialize_step, materialize_final, commitments,
}
use veil_server_v.Planner.Session.Resolved.{HoldsAll, worth, resolve-Holds}
use veil_server_v.Planner.Session.Reached.{Reached, Reached-Constant, setup-inv, step-inv}

AllBalanced-at :
    (ss : List PlannedStep) (i : ℕ) {s : PlannedStep}
    → AllBalanced ss
    → get_elem? ss i ≡ some s
    → in_sum s ≡ out_sum s.action
AllBalanced-at [] i b at = cc
AllBalanced-at (r ∷ rs) zero (here, below) at =
    let it = some-injective _ _ at in subst (λ x. in_sum x ≡ out_sum x.action) it here
AllBalanced-at (r ∷ rs) (suc i) (here, below) at = AllBalanced-at rs i below at

-- A planned step merges, or spends the amount of the plan.
Linked-at :
    (amount : ℕ) (change : Option ℕ) (ss : List PlannedStep) (prev : StepNote) (i : ℕ)
    {s : PlannedStep}
    → Linked prev amount change ss
    → get_elem? ss i ≡ some s
    → ((o : ℕ) × (s.action ≡ consolidate o)) ⊎ (s.action ≡ final amount change)
unfolding Linked
Linked-at amount change [] prev i l at = cc
Linked-at amount change (r ∷ []) prev zero l at =
    inr (ap (λ (x : PlannedStep). x.action) (sym (some-injective _ _ at)) ∙ l.1)
Linked-at amount change (r ∷ []) prev (suc i) l at = cc
Linked-at amount change (r ∷ t ∷ ts) prev zero l at =
    let (same, (n, second, merged, rest)) = l in
    inl (_, ap (λ (x : PlannedStep). x.action) (sym (some-injective _ _ at)) ∙ merged)
Linked-at amount change (r ∷ t ∷ ts) prev (suc i) l at =
    let (same, (n, second, merged, rest)) = l in
    Linked-at amount change (t ∷ ts) (from_amount (prev.amount + n.amount)) i rest at

-- The transaction pays out of the pool, to whom and how much: a merge pays nobody, and the last
-- step pays the amount to the target.
unfoldable pub PaysOut : Bool → ℕ → Text → SpendTarget → Transact → Type 0
PaysOut true amount pool_address target t =
    (t.ext_amount ≡ pos 0)
    × (t.ext_recipient ≡ pool_address)
    × (t.out_recipient_note_pubkeys ≡ (none, none))
    × (t.out_recipient_encryption_pubkeys ≡ (none, none))
PaysOut false amount pool_address (transfer note enc) t =
    (t.ext_amount ≡ pos 0)
    × (t.ext_recipient ≡ pool_address)
    × (t.output_amounts.0 ≡ amount)
    × (t.out_recipient_note_pubkeys.0 ≡ some note)
    × (t.out_recipient_encryption_pubkeys.0 ≡ some enc)
    × ((t.output_amounts.1 ≡ 0)
        ⊎ ((t.out_recipient_note_pubkeys.1 ≡ none) × (t.out_recipient_encryption_pubkeys.1 ≡ none)))
PaysOut false amount pool_address (withdraw recipient) t =
    (t.ext_amount ≡ negate (pos amount))
    × (t.ext_recipient ≡ recipient)
    × (t.out_recipient_note_pubkeys ≡ (none, none))
    × (t.out_recipient_encryption_pubkeys ≡ (none, none))

-- The transaction spends notes that stand in the wallet, and they are worth its outputs and what it
-- pays out of the pool.
abbrev pub SpendsExactly : List SpendableNote → Transact → Type 0
SpendsExactly wallet t =
    (inputs : List SpendableNote) × HoldsAll wallet inputs
    × (t.input_commitments ≡ commitments inputs)
    × ((paid : ℕ) × (t.ext_amount ≡ negate (pos paid))
        × (worth inputs ≡ t.output_amounts.0 + t.output_amounts.1 + paid))

merges : StepAction → Bool
merges (consolidate o) = true
merges (final amount change) = false

-- What materialising a step makes of its inputs.
abbrev Made : StepAction → ℕ → Text → SpendTarget → List SpendableNote → Transact → Type 0
Made action amount pool_address target inputs t =
    PaysOut (merges action) amount pool_address target t
    × (t.input_commitments ≡ commitments inputs)
    × ((paid : ℕ) × (t.ext_amount ≡ negate (pos paid))
        × (out_sum action ≡ t.output_amounts.0 + t.output_amounts.1 + paid))

-- What a withdrawal is made into.
abbrev pub withdrawn : ℕ → Option ℕ → Text → List SpendableNote → Transact
withdrawn amount change recipient inputs = record {
  input_commitments = commitments inputs;
  output_amounts = (or_zero change, 0);
  ext_amount = negate (pos amount);
  ext_recipient = recipient;
  out_recipient_note_pubkeys = (none, none);
  out_recipient_encryption_pubkeys = (none, none);
}

pub withdraw-small :
    (amount : ℕ) (change : Option ℕ) (pool_address recipient : Text) (inputs : List SpendableNote)
    → amount < 2 ^ 127
    → materialize_final amount change pool_address (withdraw recipient) inputs
      ≡ ok (withdrawn amount change recipient inputs)
unfolding materialize_final ext_from_note ext_checked_neg checked_i128
withdraw-small amount change pool_address recipient inputs small = ground arith

pub withdraw-large :
    (amount : ℕ) (change : Option ℕ) (pool_address recipient : Text) (inputs : List SpendableNote)
    → 2 ^ 127 ≤ amount
    → materialize_final amount change pool_address (withdraw recipient) inputs
      ≡ err ext_amount_overflow
unfolding materialize_final ext_from_note ext_checked_neg checked_i128
withdraw-large amount change pool_address recipient inputs large = ground arith

materialize_final-Made :
    (amount : ℕ) (change : Option ℕ) (pool_address : Text) (target : SpendTarget)
    (inputs : List SpendableNote) {t : Transact}
    → materialize_final amount change pool_address target inputs ≡ ok t
    → Made (final amount change) amount pool_address target inputs t
unfolding materialize_final PaysOut merges
materialize_final-Made amount none pool_address (transfer note enc) inputs ran =
    subst (Made (final amount none) amount pool_address (transfer note enc) inputs)
      (ok-injective ran) ((refl, refl, refl, refl, refl, inl refl), refl, (0, refl, omega arith))
materialize_final-Made amount (some c) pool_address (transfer note enc) inputs ran =
    subst (Made (final amount (some c)) amount pool_address (transfer note enc) inputs)
      (ok-injective ran)
      ((refl, refl, refl, refl, refl, inr (refl, refl)), refl, (0, refl, omega arith))
materialize_final-Made amount change pool_address (withdraw recipient) inputs ran =
    elim (lt-or-le amount (2 ^ 127)) [
      | inl small ↦
          subst (Made (final amount change) amount pool_address (withdraw recipient) inputs)
            (ok-injective
              (sym (withdraw-small amount change pool_address recipient inputs small) ∙ ran))
            ((refl, refl, refl, refl), refl, (amount, refl, omega arith))
      | inr large ↦
          let e = sym (withdraw-large amount change pool_address recipient inputs large) ∙ ran in cc
    ]

materialize_step-Made :
    (action : StepAction) (amount : ℕ) (change : Option ℕ) (pool_address : Text)
    (target : SpendTarget) (inputs : List SpendableNote) {t : Transact}
    → ((o : ℕ) × (action ≡ consolidate o)) ⊎ (action ≡ final amount change)
    → materialize_step action pool_address target inputs ≡ ok t
    → Made action amount pool_address target inputs t
unfolding materialize_step PaysOut merges
materialize_step-Made (consolidate o) amount change pool_address target inputs which ran =
    subst (Made (consolidate o) amount pool_address target inputs) (ok-injective ran)
      ((refl, refl, refl, refl), refl, (0, refl, omega arith))
materialize_step-Made (final a c) amount change pool_address target inputs (inl (o, e)) ran = cc
materialize_step-Made (final a c) amount change pool_address target inputs {t} (inr e) ran =
    let same : a ≡ amount = ap out_amount e in
    subst (λ x. Made (final a c) x pool_address target inputs t) same
      (materialize_final-Made a c pool_address target inputs ran)
  where
    out_amount : StepAction → ℕ
    out_amount (consolidate o) = 0
    out_amount (final x y) = x

is_consolidate_step-at :
    (s : SpendSession) {planned : PlannedStep}
    → get_elem? s.steps s.step_index ≡ some planned
    → is_consolidate_step s ≡ merges planned.action
unfolding is_consolidate_step merges
is_consolidate_step-at s {planned} at = rw (is_consolidate_step, at) (is_merge planned.action)
  where
    is_merge : (a : StepAction) → (elim a [ consolidate o ↦ true | final x c ↦ false ]) ≡ merges a
    is_merge (consolidate o) = refl
    is_merge (final x c) = refl

balanced_steps :
    (amount : ℕ) (notes : List SpendableNote) {o : Outcome PlanError TransactionPlan}
    {p : TransactionPlan}
    → Planned amount notes o
    → o ≡ ok p
    → AllBalanced p.steps
balanced_steps amount notes (inl (e, less)) ran = let e' = sym e ∙ ran in cc
balanced_steps amount notes (inr (inl (k, e, more))) ran = let e' = sym e ∙ ran in cc
balanced_steps amount notes (inr (inr (q, e, balanced, few))) ran =
    subst (λ (x : TransactionPlan). AllBalanced x.steps) (ok-injective (sym e ∙ ran)) balanced

-- A session is set up for an amount that is not zero, from a wallet of one note at least and fewer
-- than 2 ^ 64, whose amounts sum to less than 2 ^ 128. However the sort orders equal amounts, and in
-- whatever session its completed steps reach: a transaction that `step` gives spends notes that stand
-- in the wallet then, worth exactly its two outputs and what it pays out of the pool. A merge pays
-- nothing and addresses nobody. The last step pays the amount to the target: to a recipient in the
-- pool as its first output, the other being zero or for the wallet itself; to an account as an
-- external amount, with no recipient in the pool.
pub step-PaysOut :
    (sort : List Candidate → List Candidate) (n : SpendableNote) (ns : List SpendableNote)
    (amount : ℕ) (pool_address : Text) (target : SpendTarget) {s0 s : SpendSession} {t : Transact}
    → 0 < amount
    → ((cs : List Candidate) → Permᴰ (sort cs) cs)
    → total (candidates (n ∷ ns)) < 2 ^ 128
    → length (candidates (n ∷ ns)) < 2 ^ 64
    → setup sort (n ∷ ns) amount pool_address target ≡ ok s0
    → Reached s0 s
    → step s ≡ ok (some t)
    → SpendsExactly s.wallet t × PaysOut (is_consolidate_step s) amount pool_address target t
step-PaysOut sort n ns amount pool_address target {s0} {s} {t} positive perm fits short started
      reached ran =
    let (p, planned, first) = setup-inv sort (n ∷ ns) amount pool_address target started in
    let constant = Reached-Constant reached in
    let steps : s.steps ≡ p.steps =
      constant.steps_same ∙ ap (λ (x : SpendSession). x.steps) first in
    let pool : s.pool_address ≡ pool_address =
      constant.pool_same ∙ ap (λ (x : SpendSession). x.pool_address) first in
    let whom : s.target ≡ target =
      constant.target_same ∙ ap (λ (x : SpendSession). x.target) first in
    let given = step-inv s ran in
    let at : get_elem? p.steps s.step_index ≡ some given.planned =
      subst (λ ss. get_elem? ss s.step_index ≡ some given.planned) steps given.at in
    let (held, value) = resolve-Holds given.planned s.wallet given.resolved in
    let (first_note, change, linked) = plan-Linked sort amount (n ∷ ns) planned in
    let made =
      materialize_step-Made given.planned.action amount change s.pool_address s.target given.inputs
        (Linked-at amount change p.steps (from_spendable first_note) s.step_index linked at)
        given.made in
    let (pays, listed, (paid, out, sum)) = made in
    let balanced : in_sum given.planned ≡ out_sum given.planned.action =
      AllBalanced-at p.steps s.step_index
        (balanced_steps amount (n ∷ ns) (plan-Planned sort amount n ns positive perm fits short)
          planned)
        at in
    (
      (given.inputs, held, listed, (paid, out, value ∙ balanced ∙ sum)),
      subst (λ b. PaysOut b amount pool_address target t) (sym (is_consolidate_step-at s given.at))
          (subst (λ a. PaysOut (merges given.planned.action) amount a target t) pool
            (subst (λ w. PaysOut (merges given.planned.action) amount s.pool_address w t) whom
              pays)),
    )
