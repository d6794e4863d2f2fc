-- ===== src/Verifier/InPool.antt =====
-- The pool with this verifier behind the address that it calls.
use veil_server_v.Prelude.{
  suc, ◌+◌, ◌*◌, ◌≡◌, refl, sym, ap, ◌∙◌, Bool, Option, none, some, List, [], ◌∷◌, ◌++◌, map, arith,
  length, length-append, Outcome, ok, err, trap,
}
use mathlib.Core.Option.{some-injective}
use veil_server_v.Poseidon.{U256}
use veil_server_v.Admin.{Address}
use veil_server_v.Pool.Types.{Bytes, Groth16Proof, Proof, ExtData, State, World}
use veil_server_v.Pool.Proofs.{u256_to_bytes, repeat, public_inputs}
use veil_server_v.Pool.Transact.{check_transact}
use veil_server_v.Pool.Transact.Checks.{check_transact-Accepted}
use veil_server_v.Verifier.{Groth16Error, Curve, VerificationKey, verify_with_vk}
use veil_server_v.Verifier.Sound.{Passes, verify_with_vk-Passes}

-- What a call of the contract gives its caller: an error of the contract makes the call fail.
abbrev pub answer : Outcome Groth16Error Bool → Option Bool
answer (ok b) = some b
answer (err e) = none
answer trap = none

answer-some : (o : Outcome Groth16Error Bool) {b : Bool} → answer o ≡ some b → o ≡ ok b
answer-some (ok c) e = ap ok (some-injective _ _ e)
answer-some (err x) e = cc
answer-some trap e = cc

length-map : (ns : List U256) → length (map u256_to_bytes ns) ≡ length ns
length-map [] = refl
length-map (n ∷ ns) = ap suc (length-map ns)

length-repeat : (v : U256) (ns : List U256) → length (repeat v ns) ≡ length ns
unfolding repeat
length-repeat v [] = refl
length-repeat v (n ∷ ns) = ap suc (length-repeat v ns)

length-public_inputs : (p : Proof) → length (public_inputs p) ≡ 5 + 3 * length p.input_nullifiers
unfolding public_inputs
length-public_inputs p =
    let ns = p.input_nullifiers in
    let all = length-append (map u256_to_bytes ns) (
      u256_to_bytes p.output_commitment0
      ∷ u256_to_bytes p.output_commitment1
      ∷ (repeat p.asp_membership_root ns ++ repeat p.asp_non_membership_root ns)) in
    let roots =
      length-append (repeat p.asp_membership_root ns) (repeat p.asp_non_membership_root ns) in
    omega (
      arith,
      all,
      roots,
      length-map ns,
      length-repeat p.asp_membership_root ns,
      length-repeat p.asp_non_membership_root ns,
    )

-- Where the verifier that a pool calls is this contract, with a verification key and whatever operations
-- on points the host has: the proof of a transaction that passes the pool's checks satisfies the pairing
-- equation for the public inputs that the pool makes of it, and it spends the one number of nullifiers
-- that the key is made for.
pub check_transact-Passes :
    (w : World) (bn : Curve) (vk : VerificationKey) (p : Proof) (ext : ExtData) (s : State)
    → ((verifier : Address) (proof : Groth16Proof) (inputs : List Bytes)
        → w.verify verifier proof inputs ≡ answer (verify_with_vk bn vk proof inputs))
    → check_transact w p ext s ≡ ok tt
    → Passes bn vk p.proof (public_inputs p) × (length vk.ic ≡ 6 + 3 * length p.input_nullifiers)
check_transact-Passes w bn vk p ext s contract ran =
    let accepted = check_transact-Accepted w p ext s ran in
    let verified =
      answer-some _
        (sym (contract accepted.checked_by p.proof (public_inputs p)) ∙ accepted.verified) in
    let (yes_true, sized, passes) =
      verify_with_vk-Passes bn vk p.proof (public_inputs p) verified in
    (passes, sized ∙ omega (arith, length-public_inputs p))
