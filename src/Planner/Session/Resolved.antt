-- ===== src/Planner/Session/Resolved.antt =====
-- The notes that a step's inputs are resolved to, `resolve` of
-- app/crates/core/tx-planner/src/plan/mod.rs.
use veil_server_v.Prelude.{
  ℕ, suc, ◌+◌, ◌≡◌, refl, sym, ap, ◌∙◌, Option, none, some, List, [], ◌∷◌, ◌==◌, arith, get_elem?,
  Outcome, ok, >>=-eq-ok, ok-injective, ok_or, ensure, Option-cases, Bool-cases, inl, inr, subst,
  err, ◌>>=◌, ◌>>◌,
}
use veil_server_v.Planner.Types.{
  PlanError, commitment_not_found, note_amount_mismatch, no_note_for_amount,
  ambiguous_note_for_amount,
}
use veil_server_v.Planner.Plan.{
  SpendableNote, StepNote, PlannedStep, find_commitment, excludes, matching, resolve_input_note,
  resolve,
}
use veil_server_v.Planner.Plan.Linked.{ok_or-inv}
use veil_server_v.Planner.Plan.Balanced.{second_amount, in_sum}

-- A note stands in the wallet.
abbrev pub Holds : List SpendableNote → SpendableNote → Type 0
Holds wallet n = (j : ℕ) × (get_elem? wallet j ≡ some n)

abbrev pub HoldsAll : List SpendableNote → List SpendableNote → Type 0
HoldsAll wallet [] = Unit {0}
HoldsAll wallet (n ∷ ns) = Holds wallet n × HoldsAll wallet ns

-- What notes are worth together.
abbrev pub worth : List SpendableNote → ℕ
worth [] = 0
worth (n ∷ ns) = n.amount + worth ns

find_commitment-Holds :
    (k : ℕ) (notes : List SpendableNote) {n : SpendableNote}
    → find_commitment k notes ≡ some n
    → Holds notes n
unfolding find_commitment
find_commitment-Holds k [] e = cc
find_commitment-Holds k (m ∷ ms) {n} e = elim (Bool-cases (m.commitment == k)) [
  | inl here ↦ (0, ground (arith, here, e))
  | inr there ↦
      let (j, at) = find_commitment-Holds k ms {n = n} (ground (arith, there, e)) in (suc j, at)
]

-- Where one note matches, it stands in the wallet and has the amount.
matching-Holds :
    (a : ℕ) (excluded : Option ℕ) (notes : List SpendableNote) {m : SpendableNote}
    {ms : List SpendableNote}
    → matching a excluded notes ≡ m ∷ ms
    → Holds notes m × (m.amount ≡ a)
unfolding matching
matching-Holds a excluded [] e = cc
matching-Holds a excluded (n ∷ ns) {m} {ms} e =
    let below : matching a excluded ns ≡ m ∷ ms → Holds (n ∷ ns) m × (m.amount ≡ a) =
      λ h. let ((j, at), same) = matching-Holds a excluded ns h in ((suc j, at), same) in
    elim (Bool-cases (n.amount == a)) [
      | inr other ↦ below (ground (arith, other, e))
      | inl same ↦ elim (Bool-cases (excludes excluded n.commitment)) [
        | inl out ↦ below (ground (arith, same, out, e))
        | inr kept ↦
            let both : n ∷ matching a excluded ns ≡ m ∷ ms = ground (arith, same, kept, e) in
            let it : n ≡ m = cc in
            ((0, ap some it), ap (λ (x : SpendableNote). x.amount) (sym it) ∙ ground (arith, same))
      ]
    ]

-- An input that is resolved is a note of the wallet with the amount that the step counts on.
resolve_input_note-Holds :
    (input : StepNote) (notes : List SpendableNote) (sibling : Option StepNote) {n : SpendableNote}
    → resolve_input_note input notes sibling ≡ ok n
    → Holds notes n × (n.amount ≡ input.amount)
unfolding resolve_input_note
resolve_input_note-Holds input notes sibling {n} ran = go input.commitment ran
  where
    named :
        (k : ℕ)
        → (ok_or (find_commitment k notes) (commitment_not_found k) >>= λ note.
            ensure (note.amount == input.amount) (note_amount_mismatch k note.amount input.amount)
            >> ok note)
          ≡ ok n
        → Holds notes n × (n.amount ≡ input.amount)
    named k h =
        let (note, got, h1) =
          >>=-eq-ok (ok_or (find_commitment k notes) (commitment_not_found k)) _ h in
        let at : find_commitment k notes ≡ some note = ok_or-inv _ _ got in
        let (u, same, h2) =
          >>=-eq-ok
            (ensure (note.amount == input.amount) (note_amount_mismatch k note.amount input.amount))
            _ h1 in
        let it : note ≡ n = ok-injective h2 in
        (
          subst (Holds notes) it (find_commitment-Holds k notes at),
          ap (λ (x : SpendableNote). x.amount) (sym it) ∙ ground (arith, same),
        )

    only :
        (excluded : Option ℕ) (ms : List SpendableNote)
        → matching input.amount excluded notes ≡ ms
        → (elim ms [
          | [] ↦ err (no_note_for_amount input.amount)
          | m ∷ rest ↦ elim rest [
            | [] ↦ ok m
            | _ ∷ _ ↦ err (ambiguous_note_for_amount input.amount)
          ]
        ])
          ≡ ok n
        → Holds notes n × (n.amount ≡ input.amount)
    only excluded [] e h = cc
    only excluded (m ∷ []) e h =
        subst (λ x. Holds notes x × (x.amount ≡ input.amount)) (ok-injective h)
          (matching-Holds input.amount excluded notes e)
    only excluded (m ∷ p ∷ ms) e h = cc

    go :
        (c : Option ℕ)
        → (elim c [
          | some k ↦ ok_or (find_commitment k notes) (commitment_not_found k) >>= λ note.
              ensure (note.amount == input.amount) (note_amount_mismatch k note.amount input.amount)
              >> ok note
          | none ↦
              let excluded : Option ℕ = elim sibling [ none ↦ none | some s ↦ s.commitment ] in
              elim (matching input.amount excluded notes) [
                | [] ↦ err (no_note_for_amount input.amount)
                | m ∷ ms ↦ elim ms [
                  | [] ↦ ok m
                  | _ ∷ _ ↦ err (ambiguous_note_for_amount input.amount)
                ]
              ]
        ])
          ≡ ok n
        → Holds notes n × (n.amount ≡ input.amount)
    go (some k) h = named k h
    go none h = only (elim sibling [ none ↦ none | some s ↦ s.commitment ]) _ refl h

-- The notes that a step is resolved to stand in the wallet and are worth the step's inputs.
pub resolve-Holds :
    (s : PlannedStep) (notes : List SpendableNote) {ns : List SpendableNote}
    → resolve s notes ≡ ok ns
    → HoldsAll notes ns × (worth ns ≡ in_sum s)
unfolding resolve
resolve-Holds s notes {ns} ran =
    let (first, got, ran1) = >>=-eq-ok (resolve_input_note s.inputs.0 notes s.inputs.1) _ ran in
    let (held, same) = resolve_input_note-Holds s.inputs.0 notes s.inputs.1 got in
    elim (Option-cases s.inputs.1) [
      | inl alone ↦
          let single : Outcome PlanError (List SpendableNote) = ok (first ∷ []) in
          let ran2 : single ≡ ok ns = ground (arith, alone, ran1) in
          let rest : second_amount s.inputs.1 ≡ 0 = ap second_amount alone in
          subst (λ xs. HoldsAll notes xs × (worth xs ≡ in_sum s)) (ok-injective ran2)
            ((held, tt), omega (arith, same, rest))
      | inr (second, two) ↦
          let ran2 : (resolve_input_note second notes (some s.inputs.0) >>= λ other.
          ok (first ∷ other ∷ []))
              ≡ ok ns =
            ground (arith, two, ran1) in
          let rest : second_amount s.inputs.1 ≡ second.amount = ap second_amount two in
          let (other, got2, ran3) =
            >>=-eq-ok (resolve_input_note second notes (some s.inputs.0)) _ ran2 in
          let (held2, same2) = resolve_input_note-Holds second notes (some s.inputs.0) got2 in
          subst (λ xs. HoldsAll notes xs × (worth xs ≡ in_sum s)) (ok-injective ran3)
            ((held, (held2, tt)), omega (arith, same, same2, rest))
    ]
