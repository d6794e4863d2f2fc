-- ===== src/Pool/Transact/Effects.antt =====
-- What a transaction that succeeds has written.
use veil_server_v.Prelude.{
  ℕ, suc, ◌≡◌, sym, ◌∙◌, some, List, [], ◌∷◌, ◌++◌, arith, if◌then◌else◌, ok, ◌>>=◌, >>=-eq-ok,
  ok-injective, ltb, Bool-cases, inl, inr,
}
use mathlib.Core.List.{append-nil}
use veil_server_v.Prelude.Int.{ℤ, pos, negsuc, is_negative, is_positive, magnitude}
use veil_server_v.Admin.{Address}
use veil_server_v.Pool.Types.{ExtData, Transfer, State, World}
use veil_server_v.Pool.Amount.{zero_sub, i256_to_i128_nonneg}
use veil_server_v.Pool.Transact.{get_token, transfer, withdraw, deposit}

-- The transfer of a withdrawal: the magnitude of a negative external amount, to the recipient.
abbrev pub payout : World → Address → ExtData → List Transfer
payout w token ext =
    if is_negative ext.ext_amount
    then record {
      token = token;
      sender = w.this;
      receiver = ext.recipient;
      amount = pos (magnitude ext.ext_amount);
    }
      ∷ []
    else []

-- The transfer of a deposit: a positive external amount, from the sender.
abbrev pub payin : World → Address → ExtData → Address → List Transfer
payin w token ext sender =
    if is_positive ext.ext_amount
    then record {
      token = token;
      sender = sender;
      receiver = w.this;
      amount = pos (magnitude ext.ext_amount);
    }
      ∷ []
    else []

transfer-inv :
    (w : World) (token from to : Address) (amount : ℤ) (s t : State)
    → transfer w token from to amount s ≡ ok t
    → t ≡ record s {
      transfers =
          s.transfers
          ++ (record { token = token; sender = from; receiver = to; amount = amount } ∷ []);
    }
unfolding transfer
transfer-inv w token from to amount s t e = elim (Bool-cases (w.carries_out made s.transfers)) [
  | inl y ↦ sym (ok-injective (rw y at e))
  | inr n ↦ cc (rw n at e)
]
  where
    made : Transfer
    made = record { token = token; sender = from; receiver = to; amount = amount }

-- The two conversions of an amount keep its value.
zero_sub-inv : (n : ℕ) (v : ℤ) → zero_sub (negsuc n) ≡ ok v → v ≡ pos (suc n)
unfolding zero_sub
zero_sub-inv n v e = ground arith

to_i128-inv : (v a : ℤ) → i256_to_i128_nonneg v ≡ ok a → a ≡ v
unfolding i256_to_i128_nonneg
to_i128-inv v a e = ground arith

token-inv : (s : State) (token : Address) → get_token s ≡ ok token → s.token ≡ some token
unfolding get_token
token-inv s token e = ground arith

no_transfer : (s : State) → s ≡ record s { transfers = s.transfers ++ [] }
no_transfer s = λ i. record s { transfers = sym (append-nil s.transfers) i }

withdraw_amount :
    (w : World) (ext : ExtData) (token : Address) (x : ℤ) (s t : State)
    → (if is_negative x
        then (do
          abs ← zero_sub x
          amount ← i256_to_i128_nonneg abs
          transfer w token w.this ext.recipient amount s)
        else ok s)
      ≡ ok t
    → t ≡ record s { transfers = s.transfers ++ payout w token (record ext { ext_amount = x }) }
withdraw_amount w ext token (pos n) s t e = sym (ok-injective e) ∙ no_transfer s
withdraw_amount w ext token (negsuc n) s t e =
    let (abs, a, r1) = >>=-eq-ok (zero_sub (negsuc n)) _ e in
    let (amount, b, r2) = >>=-eq-ok (i256_to_i128_nonneg abs) _ r1 in
    let same : amount ≡ pos (suc n) = to_i128-inv abs amount b ∙ zero_sub-inv n abs a in
    rw same at (transfer-inv w token w.this ext.recipient amount s t r2)

pub withdraw-inv :
    (w : World) (ext : ExtData) (s t : State)
    → withdraw w ext s ≡ ok t
    → (token : Address) × (s.token ≡ some token)
      × (t ≡ record s { transfers = s.transfers ++ payout w token ext })
unfolding withdraw
withdraw-inv w ext s t e =
    let (token, set, rest) = >>=-eq-ok (get_token s) _ e in
    (token, token-inv s token set, withdraw_amount w ext token ext.ext_amount s t rest)

deposit_amount :
    (w : World) (ext : ExtData) (token sender : Address) (x : ℤ) (s t : State)
    → (if is_positive x
        then (do amount ← i256_to_i128_nonneg x; transfer w token sender w.this amount s)
        else ok s)
      ≡ ok t
    → t
      ≡ record s { transfers = s.transfers ++ payin w token (record ext { ext_amount = x }) sender }
deposit_amount w ext token sender (negsuc n) s t e = sym (ok-injective e) ∙ no_transfer s
deposit_amount w ext token sender (pos n) s t e = elim (Bool-cases (ltb 0 n)) [
  | inr none_in ↦ rw none_in (sym (ok-injective (rw none_in at e)) ∙ no_transfer s)
  | inl some_in ↦
      let (amount, b, r2) = >>=-eq-ok (i256_to_i128_nonneg (pos n)) _ (rw some_in at e) in
      let same = to_i128-inv (pos n) amount b in
      rw some_in (rw same at (transfer-inv w token sender w.this amount s t r2))
]

pub deposit-inv :
    (w : World) (ext : ExtData) (sender : Address) (s t : State)
    → deposit w ext sender s ≡ ok t
    → (token : Address) × (s.token ≡ some token)
      × (t ≡ record s { transfers = s.transfers ++ payin w token ext sender })
unfolding deposit
deposit-inv w ext sender s t e =
    let (token, set, rest) = >>=-eq-ok (get_token s) _ e in
    (token, token-inv s token set, deposit_amount w ext token sender ext.ext_amount s t rest)
