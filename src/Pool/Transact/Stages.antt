-- ===== src/Pool/Transact/Stages.antt =====
-- The stages of a transaction that succeeds: the deposit, the marks, the withdrawal, the commitments.
use veil_server_v.Prelude.{
  ℕ, ◌≡◌, sym, ap, ◌∙◌, subst, Bool, true, false, ◌||◌, Option, some, List, [], ◌∷◌, ◌++◌, map,
  arith, contains, ok, ◌>>=◌, >>=-eq-ok, ok-injective, require, Option-cases, inl, inr,
}
use mathlib.Core.List.{append-nil}
use veil_server_v.Poseidon.{U256}
use veil_server_v.Admin.{Address}
use veil_server_v.PoolTree.{insert_two_leaves, Storage}
use veil_server_v.Pool.Types.{
  Error, lift, Proof, ExtData, Transfer, new_commitment, new_nullifier, State, World,
}
use veil_server_v.Pool.Nullifiers.{is_spent, mark_nullifiers, mark_nullifiers-ok, is_spent-marked}
use veil_server_v.Pool.Proofs.{get_asp_membership_root, get_asp_non_membership_root}
use veil_server_v.Pool.Transact.{
  check_transact, withdraw, insert_commitments, internal_transact, deposit, transact,
}
use veil_server_v.Pool.Transact.Checks.{Accepted, AllUnspent, check_transact-Accepted, lift-ok}
use veil_server_v.Pool.Transact.Effects.{payout, payin, withdraw-inv, deposit-inv}

-- The nullifiers that `t` records as spent: those of `s` and the listed ones.
abbrev pub SpentAlso : List U256 → State → State → Type 0
SpentAlso ns s t = (n : U256) → is_spent n t ≡ (is_spent n s >>= λ b. ok (b || contains n ns))

not_marked : (s : State) (n : U256) → is_spent n s ≡ (is_spent n s >>= λ b. ok (b || contains n []))
unfolding is_spent
not_marked s n = ground arith

has_nullifiers :
    (n : U256) (s : State)
    → is_spent n s ≡ ok false
    → (m : U256 → Option Bool) × (s.nullifiers ≡ some m)
unfolding is_spent
has_nullifiers n s e = elim (Option-cases s.nullifiers) [
  | inl absent ↦ cc (rw absent at e)
  | inr found ↦ found
]

marked_none :
    (s t : State)
    → mark_nullifiers [] s ≡ ok t
    → SpentAlso [] s t × (t ≡ record s { nullifiers = t.nullifiers; events = s.events ++ [] })
unfolding mark_nullifiers
marked_none s t e =
    let same = ok-injective e in
    subst
      (λ t.
        SpentAlso [] s t × (t ≡ record s { nullifiers = t.nullifiers; events = s.events ++ [] }))
      same (not_marked s, λ i. record s { events = sym (append-nil s.events) i })

-- Marking unspent nullifiers.
marked-inv :
    (ns : List U256) (s t : State)
    → AllUnspent ns s
    → mark_nullifiers ns s ≡ ok t
    → SpentAlso ns s t
      × (t ≡ record s { nullifiers = t.nullifiers; events = s.events ++ map new_nullifier ns })
marked-inv [] s t u e = marked_none s t e
marked-inv (n ∷ ns) s t u e =
    let (m, set) = has_nullifiers n s u.0 in
    let same = ok-injective (sym (mark_nullifiers-ok (n ∷ ns) s m set) ∙ e) in
    let marks = sym (ap (λ (v : State). v.nullifiers) same) in
    (
      λ k. is_spent-marked (n ∷ ns) s t m k set marks,
      sym same ∙ λ i. record s {
        nullifiers = sym marks i;
        events = s.events ++ map new_nullifier (n ∷ ns);
      },
    )

AllUnspent-frame :
    (ns : List U256) (s : State) (ts : List Transfer)
    → AllUnspent ns (record s { transfers = ts })
    → AllUnspent ns s
unfolding is_spent
AllUnspent-frame [] s ts u = tt
AllUnspent-frame (n ∷ ns) s ts u = (u.0, AllUnspent-frame ns s ts u.1)

-- The deposit does not bear on what makes a transaction acceptable.
pub Accepted-frame :
    (w : World) (p : Proof) (ext : ExtData) (s : State) (ts : List Transfer)
    → Accepted w p ext (record s { transfers = ts })
    → Accepted w p ext s
unfolding get_asp_membership_root get_asp_non_membership_root
Accepted-frame w p ext s ts a = record {
  root_known = a.root_known;
  unspent = AllUnspent-frame p.input_nullifiers s ts a.unspent;
  ext_bound = a.ext_bound;
  amount_bound = a.amount_bound;
  member_root = a.member_root;
  non_member_root = a.non_member_root;
  not_empty = a.not_empty;
  canonical = a.canonical;
  checked_by = a.checked_by;
  verifier_set = a.verifier_set;
  verified = a.verified;
}

insert_commitments-inv :
    (w : World) (p : Proof) (ext : ExtData) (s t : State)
    → insert_commitments w p ext s ≡ ok t
    → (i : ℕ) × (j : ℕ) × (insert_two_leaves w.host p.output_commitment0 p.output_commitment1 s.tree
        ≡ ok ((i, j), t.tree))
      × (t ≡ record s {
        tree = t.tree;
        events =
            s.events
            ++ (new_commitment p.output_commitment0 i ext.encrypted_output0
                ∷ new_commitment p.output_commitment1 j ext.encrypted_output1
                ∷ []);
      })
unfolding insert_commitments
insert_commitments-inv w p ext s t e =
    let (r, run, last) =
      >>=-eq-ok (lift (insert_two_leaves w.host p.output_commitment0 p.output_commitment1 s.tree)) _
        e in
    let same = ok-injective last in
    let trees = ap (λ (v : State). v.tree) same in
    (
      (r.0).0,
      (r.0).1,
      lift-ok _ run ∙ ap (λ (q : Storage). ok (r.0, q)) trees,
      sym same ∙ λ k. record s {
        tree = trees k;
        events =
            s.events
            ++ (new_commitment p.output_commitment0 (r.0).0 ext.encrypted_output0
                ∷ new_commitment p.output_commitment1 (r.0).1 ext.encrypted_output1
                ∷ []);
      },
    )

-- The states between the stages.
pub record Stages (w : World) (p : Proof) (ext : ExtData) (sender : Address) (s t : State)
    : Type 0 where
  pub s1 : State
  pub s2 : State
  pub s3 : State
  pub token : Address
  pub token2 : Address
  pub index0 : ℕ
  pub index1 : ℕ
  pub authorised : w.auth sender ≡ true
  pub token_set : s.token ≡ some token
  pub deposited : s1 ≡ record s { transfers = s.transfers ++ payin w token ext sender }
  pub accepted : Accepted w p ext s1
  pub spent : SpentAlso p.input_nullifiers s1 s2
  pub marked : s2 ≡ record s1 {
    nullifiers = s2.nullifiers;
    events = s1.events ++ map new_nullifier p.input_nullifiers;
  }
  pub token_set2 : s2.token ≡ some token2
  pub withdrawn : s3 ≡ record s2 { transfers = s2.transfers ++ payout w token2 ext }
  pub inserted :
      insert_two_leaves w.host p.output_commitment0 p.output_commitment1 s3.tree
      ≡ ok ((index0, index1), t.tree)
  pub committed : t ≡ record s3 {
    tree = t.tree;
    events =
        s3.events
        ++ (new_commitment p.output_commitment0 index0 ext.encrypted_output0
            ∷ new_commitment p.output_commitment1 index1 ext.encrypted_output1
            ∷ []);
  }

required : (b : Bool) → require {E = Error} b ≡ ok tt → b ≡ true
required b h = ground arith

pub transact-Stages :
    (w : World) (p : Proof) (ext : ExtData) (sender : Address) (s t : State)
    → transact w p ext sender s ≡ ok t
    → Stages w p ext sender s t
unfolding transact internal_transact
transact-Stages w p ext sender s t e =
    let (_, auth, r1) = >>=-eq-ok (require {E = Error} (w.auth sender)) _ e in
    let (s1, run1, r2) = >>=-eq-ok (deposit w ext sender s) _ r1 in
    let (_, checked, r3) = >>=-eq-ok (check_transact w p ext s1) _ r2 in
    let (s2, run2, r4) = >>=-eq-ok (mark_nullifiers p.input_nullifiers s1) _ r3 in
    let (s3, run3, run4) = >>=-eq-ok (withdraw w ext s2) _ r4 in
    let (token, token_set, e1) = deposit-inv w ext sender s s1 run1 in
    let accepted1 = check_transact-Accepted w p ext s1 checked in
    let (spent, e2) = marked-inv p.input_nullifiers s1 s2 accepted1.unspent run2 in
    let (token2, token_set2, e3) = withdraw-inv w ext s2 s3 run3 in
    let (i, j, inserted, e4) = insert_commitments-inv w p ext s3 t run4 in
    record {
      s1 = s1;
      s2 = s2;
      s3 = s3;
      token = token;
      token2 = token2;
      index0 = i;
      index1 = j;
      authorised = required (w.auth sender) auth;
      token_set = token_set;
      deposited = e1;
      accepted = accepted1;
      spent = spent;
      marked = e2;
      token_set2 = token_set2;
      withdrawn = e3;
      inserted = inserted;
      committed = e4;
    }
