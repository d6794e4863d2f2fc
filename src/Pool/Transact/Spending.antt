-- ===== src/Pool/Transact/Spending.antt =====
-- Sequences of calls of the pool: no nullifier is spent twice, and the commitment tree only grows.
use veil_server_v.Prelude.{
  ◌≡◌, refl, sym, ◌∙◌, true, false, List, [], ◌∷◌, arith, contains, ◌==◌, Outcome, ok, err, trap,
  kept, is_set, ==_iff, Bool-cases, inl, inr,
}
use veil_server_v.Poseidon.{U256}
use veil_server_v.Admin
use veil_server_v.Admin.{Address}
use veil_server_v.Pool.Types.{Error, Proof, ExtData, State, World}
use veil_server_v.Pool.Nullifiers.{is_spent, Spent}
use veil_server_v.Pool.Settings.{update_admin, update_asp_membership, update_asp_non_membership}
use veil_server_v.Pool.Transact.{transact}
use veil_server_v.Pool.Transact.Checks.{AllUnspent}
use veil_server_v.Pool.Transact.Settled.{Settled, transact-Settled}

-- The entry points that write.
pub data Call : Type 0 where
  pay : Proof → ExtData → Address → Call
  hand_over : Address → Call
  set_membership : Address → Call
  set_non_membership : Address → Call

unfoldable pub perform : World → Call → State → Outcome Error State
perform w (pay p ext sender) s = transact w p ext sender s
perform w (hand_over new_admin) s = update_admin w.auth new_admin s
perform w (set_membership asp) s = update_asp_membership w.auth asp s
perform w (set_non_membership asp) s = update_asp_non_membership w.auth asp s

-- Each call meets a world of its own: the other contracts may have changed.
unfoldable pub run : List (World × Call) → State → State
run [] s = s
run ((w, c) ∷ cs) s = run cs (kept s (perform w c s))

-- A setting leaves the nullifiers and the tree alone.
abbrev pub Untouched : State → State → Type 0
Untouched s t = (t.nullifiers ≡ s.nullifiers) × (t.tree ≡ s.tree)

pub update_admin-Untouched :
    (w : World) (a : Address) (s t : State) → update_admin w.auth a s ≡ ok t → Untouched s t
unfolding update_admin Admin.update_admin is_set
update_admin-Untouched w a s t e = ground arith

pub membership-Untouched :
    (w : World) (a : Address) (s t : State)
    → update_asp_membership w.auth a s ≡ ok t
    → Untouched s t
unfolding update_asp_membership
membership-Untouched w a s t e = ground arith

pub non_membership-Untouched :
    (w : World) (a : Address) (s t : State)
    → update_asp_non_membership w.auth a s ≡ ok t
    → Untouched s t
unfolding update_asp_non_membership
non_membership-Untouched w a s t e = ground arith

Spent-Untouched : (n : U256) (s t : State) → Untouched s t → Spent n s → Spent n t
unfolding is_spent
Spent-Untouched n s t same h = simp same.0 h

Spent-Settled :
    {w : World} {p : Proof} {ext : ExtData} {sender : Address} (n : U256) (s t : State)
    → Settled w p ext sender s t
    → Spent n s
    → Spent n t
Spent-Settled n s t done h = done.spent_also n ∙ rw h

perform-Spent :
    (w : World) (c : Call) (n : U256) (s t : State) → perform w c s ≡ ok t → Spent n s → Spent n t
unfolding perform
perform-Spent w (pay p ext sender) n s t e h =
    Spent-Settled n s t (transact-Settled w p ext sender s t e) h
perform-Spent w (hand_over a) n s t e h = Spent-Untouched n s t (update_admin-Untouched w a s t e) h
perform-Spent w (set_membership a) n s t e h =
    Spent-Untouched n s t (membership-Untouched w a s t e) h
perform-Spent w (set_non_membership a) n s t e h =
    Spent-Untouched n s t (non_membership-Untouched w a s t e) h

kept-Spent :
    (w : World) (c : Call) (n : U256) (s : State) → Spent n s → Spent n (kept s (perform w c s))
unfolding kept
kept-Spent w c n s h = go (perform w c s) refl
  where
    go : (o : Outcome Error State) → perform w c s ≡ o → Spent n (kept s o)
    go (ok t) e = perform-Spent w c n s t e h
    go (err x) e = h
    go trap e = h

-- A spent nullifier stays spent.
pub run-Spent : (cs : List (World × Call)) (n : U256) (s : State) → Spent n s → Spent n (run cs s)
unfolding run
run-Spent [] n s h = h
run-Spent ((w, c) ∷ cs) n s h = run-Spent cs n (kept s (perform w c s)) (kept-Spent w c n s h)

unspent-not_listed :
    (ns : List U256) (n : U256) (s : State) → AllUnspent ns s → Spent n s → contains n ns ≡ false
unspent-not_listed [] n s u h = refl
unspent-not_listed (x ∷ xs) n s u h = elim (Bool-cases (x == n)) [
  | inl e ↦ let same : x ≡ n = (==_iff x n).0 e in cc (sym h ∙ rw same at (u.0))
  | inr e ↦ rw e (unspent-not_listed xs n s u.1 h)
]

listed-unspent :
    (ns : List U256) (n : U256) (s : State)
    → AllUnspent ns s
    → contains n ns ≡ true
    → is_spent n s ≡ ok false
listed-unspent [] n s u h = cc
listed-unspent (x ∷ xs) n s u h = elim (Bool-cases (x == n)) [
  | inl e ↦ let same : x ≡ n = (==_iff x n).0 e in rw same at (u.0)
  | inr e ↦ listed-unspent xs n s u.1 (rw e at h)
]

listed-Spent :
    {w : World} {p : Proof} {ext : ExtData} {sender : Address} (n : U256) (s t : State)
    → Settled w p ext sender s t
    → contains n p.input_nullifiers ≡ true
    → Spent n t
listed-Spent {p = p} n s t done h =
    done.spent_also n ∙ rw (listed-unspent p.input_nullifiers n s (done.accepted).unspent h, h)

-- No nullifier is spent twice: once a transaction that lists `n` has succeeded, then whatever calls
-- follow, no transaction that succeeds lists `n`.
pub no_double_spend :
    (w w' : World) (p p' : Proof) (ext ext' : ExtData) (sender sender' : Address) (s t v : State)
    (cs : List (World × Call)) (n : U256)
    → transact w p ext sender s ≡ ok t
    → contains n p.input_nullifiers ≡ true
    → transact w' p' ext' sender' (run cs t) ≡ ok v
    → contains n p'.input_nullifiers ≡ false
no_double_spend w w' p p' ext ext' sender sender' s t v cs n first listed second =
    let one = transact-Settled w p ext sender s t first in
    let two = transact-Settled w' p' ext' sender' (run cs t) v second in
    unspent-not_listed p'.input_nullifiers n (run cs t) (two.accepted).unspent
      (run-Spent cs n t (listed-Spent n s t one listed))
