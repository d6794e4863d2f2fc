-- ===== src/Pool/Transact/Checks.antt =====
-- What the checks of `internal_transact` establish, and that they ask for nothing else.
use veil_server_v.Prelude.{
  ℕ, ◌<◌, ◌≡◌, refl, sym, ap, ◌∙◌, Bool, true, false, not, ◌&&◌, Option, none, some, List, [], ◌∷◌,
  arith, ◌==◌, Outcome, ok, err, trap, >>=-eq-ok, ok-injective, ok_or, unwrap, ensure, ==_iff,
  Bool-cases, inl, inr,
}
use veil_server_v.Poseidon.{U256, bn256_modulus}
use veil_server_v.Admin.{Address}
use veil_server_v.PoolTree
use veil_server_v.Pool.Types.{
  Error, Proof, ExtData, State, World, lift, unknown_root, wrong_ext_hash, wrong_ext_amount,
  not_initialized, invalid_proof, already_spent_nullifier,
}
use veil_server_v.Pool.Amount.{calculate_public_amount}
use veil_server_v.Pool.Nullifiers.{is_spent, check_nullifiers}
use veil_server_v.Pool.Proofs.{
  hash_ext_data, bytes_eq, bytes_eq_sound, bytes_eq_refl, get_asp_membership_root,
  get_asp_non_membership_root, verify_proof, public_inputs, is_empty, get_verifier,
  validate_bn256_public_inputs, validate_bn256_public_input, validate_each,
}
use veil_server_v.Pool.Transact.{check_transact}

abbrev pub AllUnspent : List U256 → State → Type 0
AllUnspent [] s = Unit {0}
AllUnspent (n ∷ ns) s = (is_spent n s ≡ ok false) × AllUnspent ns s

abbrev pub AllCanonical : List U256 → Type 0
AllCanonical [] = Unit {0}
AllCanonical (n ∷ ns) = (n < bn256_modulus) × AllCanonical ns

-- What makes a transaction acceptable in a state.
pub record Accepted (w : World) (p : Proof) (ext : ExtData) (s : State) : Type 0 where
  pub root_known : PoolTree.is_known_root p.root s.tree ≡ ok true
  pub unspent : AllUnspent p.input_nullifiers s
  pub ext_bound : hash_ext_data w ext ≡ p.ext_data_hash
  pub amount_bound : calculate_public_amount ext.ext_amount ≡ ok p.public_amount
  pub member_root : get_asp_membership_root w s ≡ ok p.asp_membership_root
  pub non_member_root : get_asp_non_membership_root w s ≡ ok p.asp_non_membership_root
  pub not_empty : is_empty p.proof ≡ false
  pub canonical : AllCanonical (
      p.root ∷ p.public_amount ∷ p.output_commitment0 ∷ p.output_commitment1 ∷ p.asp_membership_root
      ∷ p.asp_non_membership_root ∷ p.input_nullifiers)
  pub checked_by : Address
  pub verifier_set : s.verifier ≡ some checked_by
  pub verified : w.verify checked_by p.proof (public_inputs p) ≡ some true

ensure-true : (b : Bool) (e : Error) → ensure b e ≡ ok tt → b ≡ true
ensure-true b e h = ground arith

and_true : (a b : Bool) → (a && b) ≡ true → (a ≡ true) × (b ≡ true)
and_true a b h = ground arith

pub lift-ok : {A : Type 0} (o : Outcome PoolTree.Error A) {a : A} → lift o ≡ ok a → o ≡ ok a
unfolding lift
lift-ok (ok b) e = ap ok (ok-injective e)
lift-ok (err x) e = cc
lift-ok trap e = cc

pub check_nullifiers-inv :
    (ns : List U256) (s : State) → check_nullifiers ns s ≡ ok tt → AllUnspent ns s
unfolding check_nullifiers
check_nullifiers-inv [] s e = tt
check_nullifiers-inv (n ∷ ns) s e =
    let (spent, is, rest) = >>=-eq-ok (is_spent n s) _ e in
    let (_, free, more) = >>=-eq-ok (ensure (not spent) already_spent_nullifier) _ rest in
    (is ∙ ap ok (unspent spent free), check_nullifiers-inv ns s more)
  where
    unspent : (b : Bool) → ensure (not b) already_spent_nullifier ≡ ok tt → b ≡ false
    unspent b e = ground arith

check_nullifiers-ok : (ns : List U256) (s : State) → AllUnspent ns s → check_nullifiers ns s ≡ ok tt
unfolding check_nullifiers
check_nullifiers-ok [] s h = refl
check_nullifiers-ok (n ∷ ns) s h = rw h.0 (check_nullifiers-ok ns s h.1)

validate-inv : (v : U256) → validate_bn256_public_input v bn256_modulus ≡ ok tt → v < bn256_modulus
unfolding validate_bn256_public_input
validate-inv v e = ground arith

validate-ok : (v : U256) → v < bn256_modulus → validate_bn256_public_input v bn256_modulus ≡ ok tt
unfolding validate_bn256_public_input
validate-ok v h = ground arith

validate_each-inv : (vs : List U256) → validate_each vs bn256_modulus ≡ ok tt → AllCanonical vs
unfolding validate_each
validate_each-inv [] e = tt
validate_each-inv (v ∷ vs) e =
    let (_, one, rest) = >>=-eq-ok (validate_bn256_public_input v bn256_modulus) _ e in
    (validate-inv v one, validate_each-inv vs rest)

validate_each-ok : (vs : List U256) → AllCanonical vs → validate_each vs bn256_modulus ≡ ok tt
unfolding validate_each
validate_each-ok [] h = refl
validate_each-ok (v ∷ vs) h = rw (validate-ok v h.0) (validate_each-ok vs h.1)

-- The seven checks of `validate_bn256_public_inputs` are one check of a list.
abbrev checked_values : Proof → List U256
checked_values p =
    p.root ∷ p.public_amount ∷ p.output_commitment0 ∷ p.output_commitment1 ∷ p.asp_membership_root
    ∷ p.asp_non_membership_root ∷ p.input_nullifiers

validate_all-inv :
    (p : Proof)
    → validate_bn256_public_inputs p bn256_modulus ≡ ok tt
    → AllCanonical (checked_values p)
unfolding validate_bn256_public_inputs
validate_all-inv p e =
    let m = bn256_modulus in
    let (_, a, r1) = >>=-eq-ok (validate_bn256_public_input p.root m) _ e in
    let (_, b, r2) = >>=-eq-ok (validate_bn256_public_input p.public_amount m) _ r1 in
    let (_, c, r3) = >>=-eq-ok (validate_each p.input_nullifiers m) _ r2 in
    let (_, d, r4) = >>=-eq-ok (validate_bn256_public_input p.output_commitment0 m) _ r3 in
    let (_, f, r5) = >>=-eq-ok (validate_bn256_public_input p.output_commitment1 m) _ r4 in
    let (_, g, h) = >>=-eq-ok (validate_bn256_public_input p.asp_membership_root m) _ r5 in
    (
      validate-inv p.root a,
      (
        validate-inv p.public_amount b,
        (
          validate-inv p.output_commitment0 d,
          (
            validate-inv p.output_commitment1 f,
            (
              validate-inv p.asp_membership_root g,
              (validate-inv p.asp_non_membership_root h, validate_each-inv p.input_nullifiers c),
            ),
          ),
        ),
      ),
    )

validate_all-ok :
    (p : Proof)
    → AllCanonical (checked_values p)
    → validate_bn256_public_inputs p bn256_modulus ≡ ok tt
unfolding validate_bn256_public_inputs
validate_all-ok p (a, (b, (d, (f, (g, (h, c)))))) = rw (
  validate-ok p.root a,
  validate-ok p.public_amount b,
  validate_each-ok p.input_nullifiers c,
  validate-ok p.output_commitment0 d,
  validate-ok p.output_commitment1 f,
  validate-ok p.asp_membership_root g,
  validate-ok p.asp_non_membership_root h,
)

-- What `verify_proof` has checked when it gives true.
verify_proof-inv :
    (w : World) (p : Proof) (s : State)
    → verify_proof w p s ≡ ok true
    → (v : Address) × (s.verifier ≡ some v)
      × (is_empty p.proof ≡ false)
      × (validate_bn256_public_inputs p bn256_modulus ≡ ok tt)
      × (w.verify v p.proof (public_inputs p) ≡ some true)
unfolding verify_proof get_verifier
verify_proof-inv w p s e = elim (Bool-cases (is_empty p.proof)) [
  | inl bad ↦ cc (rw bad at e)
  | inr good ↦
      let (v, set, r1) = >>=-eq-ok (get_verifier s) _ (rw good at e) in
      let (_, all, r2) = >>=-eq-ok (validate_bn256_public_inputs p bn256_modulus) _ r1 in
      (
        v,
        from_ok s.verifier v set,
        good,
        all,
        from_unwrap (w.verify v p.proof (public_inputs p)) r2,
      )
]
  where
    from_ok : (o : Option Address) (v : Address) → ok_or o not_initialized ≡ ok v → o ≡ some v
    from_ok none v e = cc
    from_ok (some u) v e = ap some (ok-injective e)

    from_unwrap : (o : Option Bool) → unwrap {E = Error} o ≡ ok true → o ≡ some true
    from_unwrap none e = cc
    from_unwrap (some b) e = ap some (ok-injective e)

verify_proof-ok :
    (w : World) (p : Proof) (s : State) (v : Address)
    → s.verifier ≡ some v
    → is_empty p.proof ≡ false
    → AllCanonical (checked_values p)
    → w.verify v p.proof (public_inputs p) ≡ some true
    → verify_proof w p s ≡ ok true
unfolding verify_proof get_verifier
verify_proof-ok w p s v set good all yes_true =
    rw (good) (simp (set, validate_all-ok p all, yes_true))

-- A transaction that passes the checks has a known root, unspent nullifiers, the hash of its external
-- data, the public amount of its external amount, the roots that the two ASP contracts give, public
-- inputs below the modulus, and a proof that is not empty and that the verifier takes.
pub check_transact-Accepted :
    (w : World) (p : Proof) (ext : ExtData) (s : State)
    → check_transact w p ext s ≡ ok tt
    → Accepted w p ext s
unfolding check_transact
check_transact-Accepted w p ext s e =
    let (known, k, r1) = >>=-eq-ok (lift (PoolTree.is_known_root p.root s.tree)) _ e in
    let (_, is_known, r2) = >>=-eq-ok (ensure known unknown_root) _ r1 in
    let (_, free, r3) = >>=-eq-ok (check_nullifiers p.input_nullifiers s) _ r2 in
    let (_, bound, r4) =
      >>=-eq-ok (ensure (bytes_eq (hash_ext_data w ext) p.ext_data_hash) wrong_ext_hash) _ r3 in
    let (amount, given, r5) = >>=-eq-ok (calculate_public_amount ext.ext_amount) _ r4 in
    let (_, same, r6) = >>=-eq-ok (ensure (p.public_amount == amount) wrong_ext_amount) _ r5 in
    let (m, member, r7) = >>=-eq-ok (get_asp_membership_root w s) _ r6 in
    let (n, non_member, r8) = >>=-eq-ok (get_asp_non_membership_root w s) _ r7 in
    let (_, roots, r9) =
      >>=-eq-ok
        (ensure (m == p.asp_membership_root && n == p.asp_non_membership_root) invalid_proof) _
        r8 in
    let (valid, run, last) = >>=-eq-ok (verify_proof w p s) _ r9 in
    let (v, set, good, all, fine) =
      verify_proof-inv w p s (run ∙ ap ok (ensure-true valid invalid_proof last)) in
    let both =
      and_true (m == p.asp_membership_root) (n == p.asp_non_membership_root)
        (ensure-true _ invalid_proof roots) in
    record {
      root_known =
          lift-ok (PoolTree.is_known_root p.root s.tree) k
          ∙ ap ok (ensure-true known unknown_root is_known);
      unspent = check_nullifiers-inv p.input_nullifiers s free;
      ext_bound = bytes_eq_sound _ _ (ensure-true _ wrong_ext_hash bound);
      amount_bound =
          given
          ∙ ap ok (sym ((==_iff p.public_amount amount).0 (ensure-true _ wrong_ext_amount same)));
      member_root = member ∙ ap ok ((==_iff m p.asp_membership_root).0 both.0);
      non_member_root = non_member ∙ ap ok ((==_iff n p.asp_non_membership_root).0 both.1);
      not_empty = good;
      canonical = validate_all-inv p all;
      checked_by = v;
      verifier_set = set;
      verified = fine;
    }

-- A transaction with a known root, unspent nullifiers, the hash of its external data, the public
-- amount of its external amount, the roots of the two ASP contracts, public inputs below the modulus,
-- and a proof that is not empty and that the verifier takes passes the checks: nothing else is
-- asked for.
pub Accepted-check_transact :
    (w : World) (p : Proof) (ext : ExtData) (s : State)
    → Accepted w p ext s
    → check_transact w p ext s ≡ ok tt
unfolding check_transact lift
Accepted-check_transact w p ext s a = rw (
  a.root_known,
  check_nullifiers-ok p.input_nullifiers s a.unspent,
  hash_same,
  a.amount_bound,
  same p.public_amount,
  a.member_root,
  a.non_member_root,
  same p.asp_membership_root,
  same p.asp_non_membership_root,
  verify_proof-ok w p s a.checked_by a.verifier_set a.not_empty a.canonical a.verified,
)
  where
    same : (n : ℕ) → (n == n) ≡ true
    same n = ground arith

    hash_same : bytes_eq (hash_ext_data w ext) p.ext_data_hash ≡ true
    hash_same = rw a.ext_bound (bytes_eq_refl p.ext_data_hash)
