-- ===== src/Verifier/Sound.antt =====
-- What the verifier accepts.
use veil_server_v.Prelude.{
  ℕ, suc, ◌+◌, ◌^◌, ◌<◌, ◌≡◌, refl, sym, ap, ◌∙◌, subst, Bool, true, false, Option, none, some,
  List, [], ◌∷◌, ◌++◌, arith, length, length-append, get_elem?, get_elem?-append_self, ok, err,
  ok_or, unwrap, unwrap-inv, ensure, checked_add, >>=-eq-ok, ok-injective, if◌then◌else◌, lt→ltb,
}
use mathlib.Core.List.{append_assoc}
use mathlib.Core.Option.{some-injective}
use veil_server_v.Pool.Types.{Bytes, Groth16Proof}
use veil_server_v.Verifier.{
  invalid_proof, malformed_public_inputs, Curve, VerificationKey, lengths_fit, combine,
  verify_with_vk,
}

-- `out` is `acc` and each point times its scalar, added from the left.
pub data Combines (bn : Curve) : List Bytes → List Bytes → Bytes → Bytes → Type 0 where
  done : {acc : Bytes} → Combines bn [] [] acc acc
  next :
      {v s acc prod sum out : Bytes} {vs ss : List Bytes}
      → bn.g1_mul v s ≡ some prod
      → bn.g1_add acc prod ≡ some sum
      → Combines bn vs ss sum out
      → Combines bn (v ∷ vs) (s ∷ ss) acc out

-- The Groth16 equation holds for the proof and the public inputs.
pub record Passes (bn : Curve) (vk : VerificationKey) (proof : Groth16Proof)
    (pub_inputs : List Bytes) : Type 0 where
  pub start : Bytes
  pub points : List Bytes
  pub vk_x : Bytes
  pub neg_a : Bytes
  pub ic_is : vk.ic ≡ start ∷ points
  pub combined : Combines bn points pub_inputs start vk_x
  pub negated : bn.g1_neg proof.a ≡ some neg_a
  pub paired :
      bn.pairing_check
        (neg_a ∷ vk.alpha ∷ vk_x ∷ proof.c ∷ [])
        (proof.b ∷ vk.beta ∷ vk.gamma ∷ vk.delta ∷ [])
      ≡ some true

pub Combines-length :
    {bn : Curve} {vs ss : List Bytes} {acc out : Bytes}
    → Combines bn vs ss acc out
    → length vs ≡ length ss
Combines-length done = refl
Combines-length (next m a c) = ap suc (Combines-length c)

module _ (bn : Curve) where
  -- A run of the loop, from an index on.
  combine-Combines :
      (pre vs ss : List Bytes) (i : ℕ) (acc : Bytes) {out : Bytes}
      → length pre ≡ suc i
      → length vs ≡ length ss
      → combine bn (pre ++ vs) i ss acc ≡ ok out
      → Combines bn vs ss acc out
  unfolding combine
  combine-Combines pre [] [] i acc placed same ran =
      subst (Combines bn [] [] acc) (ok-injective ran) done
  combine-Combines pre [] (s ∷ ss) i acc placed same ran = absurd (omega (arith, same))
  combine-Combines pre (v ∷ vs) [] i acc placed same ran = absurd (omega (arith, same))
  combine-Combines pre (v ∷ vs) (s ∷ ss) i acc {out} placed same ran =
      let (idx, counted, r1) =
        >>=-eq-ok (ok_or (checked_add 32 i 1) malformed_public_inputs) _ ran in
      let at : idx ≡ length pre = ground (arith, counted, placed) in
      let (w, found, r2) =
        >>=-eq-ok (ok_or (get_elem? (pre ++ (v ∷ vs)) idx) malformed_public_inputs) _ r1 in
      let here : get_elem? (pre ++ (v ∷ vs)) idx ≡ some v =
        ap (get_elem? (pre ++ (v ∷ vs))) at ∙ get_elem?-append_self pre vs v in
      let it : v ≡ w = some-injective _ _ (sym here ∙ ok_or-inv _ found) in
      let (prod, times, r3) = >>=-eq-ok (unwrap (bn.g1_mul w s)) _ r2 in
      let (sum, plus, r4) = >>=-eq-ok (unwrap (bn.g1_add acc prod)) _ r3 in
      next (subst (λ x. bn.g1_mul x s ≡ some prod) (sym it) (unwrap-inv _ times))
        (unwrap-inv _ plus)
        (combine-Combines (pre ++ (v ∷ [])) vs ss (i + 1) sum
          (length-append pre (v ∷ []) ∙ omega (arith, placed)) (omega (arith, same))
          (subst (λ xs. combine bn xs (i + 1) ss sum ≡ ok out) (sym (append_assoc pre (v ∷ []) vs))
            r4))
    where
      ok_or-inv :
          (o : Option Bytes) {a : Bytes} → ok_or o malformed_public_inputs ≡ ok a → o ≡ some a
      ok_or-inv none e = cc
      ok_or-inv (some b) e = ap some (ok-injective e)

  Combines-combine :
      (pre vs ss : List Bytes) (i : ℕ) (acc : Bytes) {out : Bytes}
      → length pre ≡ suc i
      → i + length ss < 2 ^ 32
      → Combines bn vs ss acc out
      → combine bn (pre ++ vs) i ss acc ≡ ok out
  unfolding combine
  Combines-combine pre [] [] i acc placed small done = refl
  Combines-combine pre [] (s ∷ ss) i acc placed small c = elim c [ ]
  Combines-combine pre (v ∷ vs) [] i acc placed small c = elim c [ ]
  Combines-combine pre (v ∷ vs) (s ∷ ss) i acc {out} placed small
        (next {prod} {sum} times plus rest) =
      let counted : checked_add 32 i 1 ≡ some (i + 1) =
        simp (lt→ltb (i + 1) (2 ^ 32) (omega (arith, small))) in
      let at : i + 1 ≡ length pre = omega (arith, placed) in
      let here : get_elem? (pre ++ (v ∷ vs)) (i + 1) ≡ some v =
        ap (get_elem? (pre ++ (v ∷ vs))) at ∙ get_elem?-append_self pre vs v in
      let below =
        Combines-combine (pre ++ (v ∷ [])) vs ss (i + 1) sum
          (length-append pre (v ∷ []) ∙ omega (arith, placed)) (omega (arith, small)) rest in
      let below' : combine bn (pre ++ (v ∷ vs)) (i + 1) ss sum ≡ ok out =
        subst (λ xs. combine bn xs (i + 1) ss sum ≡ ok out) (append_assoc pre (v ∷ []) vs) below in
      simp (counted, here, times, plus, below')

lengths_fit-eq : (ss ic : List Bytes) → lengths_fit ss ic ≡ true → length ic ≡ suc (length ss)
unfolding lengths_fit
lengths_fit-eq ss ic e = ground (arith, e)

fits :
    (ss ic : List Bytes)
    → length ss + 1 < 2 ^ 32
    → length ic ≡ suc (length ss)
    → lengths_fit ss ic ≡ true
unfolding lengths_fit
fits ss ic small e = ground (arith, e)

-- Whatever the host's operations on points do: an answer of the verifier is `true`, and it is given
-- only if the key has one point more than there are public inputs and the pairing equation holds, for
-- the first of these points and each other one times its input.
pub verify_with_vk-Passes :
    (bn : Curve) (vk : VerificationKey) (proof : Groth16Proof) (pub_inputs : List Bytes) {b : Bool}
    → verify_with_vk bn vk proof pub_inputs ≡ ok b
    → (b ≡ true) × (length vk.ic ≡ suc (length pub_inputs)) × Passes bn vk proof pub_inputs
unfolding verify_with_vk
verify_with_vk-Passes bn vk proof pub_inputs {b} ran =
    let (_, sized, r1) =
      >>=-eq-ok (ensure (lengths_fit pub_inputs vk.ic) malformed_public_inputs) _ ran in
    let (start, first, r2) = >>=-eq-ok (ok_or (get_elem? vk.ic 0) malformed_public_inputs) _ r1 in
    let (vk_x, sum, r3) = >>=-eq-ok (combine bn vk.ic 0 pub_inputs start) _ r2 in
    let (neg_a, negated, r4) = >>=-eq-ok (unwrap (bn.g1_neg proof.a)) _ r3 in
    let (holds, paired, r5) =
      >>=-eq-ok
        (unwrap (
          bn.pairing_check (neg_a ∷ vk.alpha ∷ vk_x ∷ proof.c ∷ [])
            (proof.b ∷ vk.beta ∷ vk.gamma ∷ vk.delta ∷ [])))
        _ r4 in
    let len : length vk.ic ≡ suc (length pub_inputs) =
      lengths_fit-eq pub_inputs vk.ic (ground (arith, sized)) in
    let (points, ic_is) = split vk.ic start first in
    let (yes_holds, yes_b) = last holds b r5 in
    (
      yes_b,
      len,
      record {
        start = start;
        points = points;
        vk_x = vk_x;
        neg_a = neg_a;
        ic_is = ic_is;
        combined =
            combine-Combines bn (start ∷ []) points pub_inputs 0 start refl
              (omega (arith, len, ap length ic_is))
              (subst (λ ic. combine bn ic 0 pub_inputs start ≡ ok vk_x) ic_is sum);
        negated = unwrap-inv _ negated;
        paired = unwrap-inv _ paired ∙ ap some yes_holds;
      },
    )
  where
    split :
        (ic : List Bytes) (start : Bytes)
        → ok_or (get_elem? ic 0) malformed_public_inputs ≡ ok start
        → (points : List Bytes) × (ic ≡ start ∷ points)
    split [] start e = cc
    split (v ∷ vs) start e = (vs, ap (λ x. x ∷ vs) (ok-injective e))

    last :
        (holds b : Bool)
        → (if holds then ok true else err invalid_proof) ≡ ok b
        → (holds ≡ true) × (b ≡ true)
    last true b e = (refl, sym (ok-injective e))
    last false b e = cc

-- With fewer than 2 ^ 32 - 1 public inputs, a proof for which the pairing equation holds, for the
-- first point of the key and each other one times its input, is accepted.
pub Passes-verify_with_vk :
    (bn : Curve) (vk : VerificationKey) (proof : Groth16Proof) (pub_inputs : List Bytes)
    → length pub_inputs + 1 < 2 ^ 32
    → Passes bn vk proof pub_inputs
    → verify_with_vk bn vk proof pub_inputs ≡ ok true
unfolding verify_with_vk
Passes-verify_with_vk bn vk proof pub_inputs small p =
    let len : length vk.ic ≡ suc (length pub_inputs) =
      ap length p.ic_is ∙ ap suc (Combines-length p.combined) in
    let sized : lengths_fit pub_inputs vk.ic ≡ true = fits pub_inputs vk.ic small len in
    let first : get_elem? vk.ic 0 ≡ some p.start = ap (λ ic. get_elem? ic 0) p.ic_is in
    let sum : combine bn vk.ic 0 pub_inputs p.start ≡ ok p.vk_x =
      ap (λ ic. combine bn ic 0 pub_inputs p.start) p.ic_is
      ∙ Combines-combine bn (p.start ∷ []) p.points pub_inputs 0 p.start refl (omega (arith, small))
          p.combined in
    simp (sized, first, sum, p.negated, p.paired)
