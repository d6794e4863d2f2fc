-- ===== src/Pool/Transact/Settled.antt =====
-- A transaction that succeeds: what was checked, and the whole of what was written.
use veil_server_v.Prelude.{
  ℕ, ◌≡◌, sym, ap, ◌∙◌, subst, true, ◌||◌, some, List, [], ◌∷◌, ◌++◌, map, contains, ok, ◌>>=◌,
}
use mathlib.Core.Option.{some-injective}
use mathlib.Core.List.{append_assoc}
use veil_server_v.Poseidon.{U256}
use veil_server_v.Admin.{Address}
use veil_server_v.PoolTree.{insert_two_leaves, Storage}
use veil_server_v.Pool.Types.{
  Proof, ExtData, Event, new_commitment, new_nullifier, State, World, addresses,
}
use veil_server_v.Pool.Nullifiers.{is_spent}
use veil_server_v.Pool.Transact.{transact}
use veil_server_v.Pool.Transact.Stages.{SpentAlso, Accepted-frame, Stages, transact-Stages}
use veil_server_v.Pool.Transact.Checks.{Accepted}
use veil_server_v.Pool.Transact.Effects.{payout, payin}

-- The events of a transaction: its nullifiers, then its two commitments with their indices.
abbrev pub published : Proof → ExtData → ℕ → ℕ → List Event
published p ext i j =
    map new_nullifier p.input_nullifiers
    ++ (new_commitment p.output_commitment0 i ext.encrypted_output0
        ∷ new_commitment p.output_commitment1 j ext.encrypted_output1
        ∷ [])

-- The state `t` is what the transaction makes of `s`.
pub record Settled (w : World) (p : Proof) (ext : ExtData) (sender : Address) (s t : State)
    : Type 0 where
  pub authorised : w.auth sender ≡ true
  pub accepted : Accepted w p ext s
  pub spent_also : SpentAlso p.input_nullifiers s t
  pub token : Address
  pub token_set : s.token ≡ some token
  pub paid : t.transfers ≡ (s.transfers ++ payin w token ext sender) ++ payout w token ext
  pub index0 : ℕ
  pub index1 : ℕ
  pub inserted :
      insert_two_leaves w.host p.output_commitment0 p.output_commitment1 s.tree
      ≡ ok ((index0, index1), t.tree)
  pub events : t.events ≡ s.events ++ published p ext index0 index1
  pub same_addresses : addresses t ≡ addresses s

is_spent-frame :
    (n : U256) (s t : State) → s.nullifiers ≡ t.nullifiers → is_spent n s ≡ is_spent n t
unfolding is_spent
is_spent-frame n s t e = simp e

module _ {w : World} {p : Proof} {ext : ExtData} {sender : Address} {s t : State}
    (st : Stages w p ext sender s t) where
  -- A field that the stages leave alone.
  same_addresses : addresses t ≡ addresses s
  same_addresses =
      ap addresses st.committed
      ∙ ap addresses st.withdrawn
      ∙ ap addresses st.marked
      ∙ ap addresses st.deposited

  same_tree : (st.s3).tree ≡ s.tree
  same_tree =
      ap (λ (v : State). v.tree) st.withdrawn
      ∙ ap (λ (v : State). v.tree) st.marked
      ∙ ap (λ (v : State). v.tree) st.deposited

  same_token : st.token2 ≡ st.token
  same_token = some-injective st.token2 st.token (
      sym st.token_set2
      ∙ ap (λ (v : State). v.token) st.marked
      ∙ ap (λ (v : State). v.token) st.deposited
      ∙ st.token_set)

  all_spent : SpentAlso p.input_nullifiers s t
  all_spent n =
      is_spent-frame n t st.s2 (
        ap (λ (v : State). v.nullifiers) st.committed
        ∙ ap (λ (v : State). v.nullifiers) st.withdrawn)
      ∙ (st.spent) n
      ∙ ap (λ o. o >>= λ b. ok (b || contains n p.input_nullifiers))
          (is_spent-frame n st.s1 s (ap (λ (v : State). v.nullifiers) st.deposited))

  all_paid : t.transfers ≡ (s.transfers ++ payin w st.token ext sender) ++ payout w st.token ext
  all_paid =
      ap (λ (v : State). v.transfers) st.committed
      ∙ ap (λ (v : State). v.transfers) st.withdrawn
      ∙ ap (λ a. (st.s2).transfers ++ payout w a ext) same_token
      ∙ ap (λ ts. ts ++ payout w st.token ext)
          (ap (λ (v : State). v.transfers) st.marked ∙ ap (λ (v : State). v.transfers) st.deposited)

  all_published : t.events ≡ s.events ++ published p ext st.index0 st.index1
  all_published =
      let commitments : List Event =
        new_commitment p.output_commitment0 st.index0 ext.encrypted_output0
        ∷ new_commitment p.output_commitment1 st.index1 ext.encrypted_output1
        ∷ [] in
      ap (λ (v : State). v.events) st.committed
      ∙ ap (λ (ev : List Event). ev ++ commitments)
          (ap (λ (v : State). v.events) st.withdrawn
            ∙ ap (λ (v : State). v.events) st.marked
            ∙ ap (λ (ev : List Event). ev ++ map new_nullifier p.input_nullifiers)
                (ap (λ (v : State). v.events) st.deposited))
      ∙ append_assoc s.events (map new_nullifier p.input_nullifiers) commitments

-- A transaction that succeeds was authorised by its sender and passed every check; it has recorded
-- exactly its nullifiers as spent beside the earlier ones, made the transfers of its deposit or
-- withdrawal and no others, inserted its two commitments, published their events, and left the
-- addresses as they were.
pub transact-Settled :
    (w : World) (p : Proof) (ext : ExtData) (sender : Address) (s t : State)
    → transact w p ext sender s ≡ ok t
    → Settled w p ext sender s t
transact-Settled w p ext sender s t e =
    let st = transact-Stages w p ext sender s t e in
    record {
      authorised = st.authorised;
      accepted =
          Accepted-frame w p ext s (s.transfers ++ payin w st.token ext sender)
            (subst (Accepted w p ext) st.deposited st.accepted);
      spent_also = all_spent st;
      token = st.token;
      token_set = st.token_set;
      paid = all_paid st;
      index0 = st.index0;
      index1 = st.index1;
      inserted =
          ap (λ (q : Storage). insert_two_leaves w.host p.output_commitment0 p.output_commitment1 q)
            (sym (same_tree st))
          ∙ st.inserted;
      events = all_published st;
      same_addresses = same_addresses st;
    }
