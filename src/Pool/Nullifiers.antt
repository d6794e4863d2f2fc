-- ===== src/Pool/Nullifiers.antt =====
-- The set of spent nullifiers.
use veil_server_v.Prelude.{
  ◌≡◌, refl, Bool, true, false, not, Option, none, some, List, [], ◌∷◌, ◌++◌, arith, update,
  Outcome, ok, err, trap, ◌>>=◌, ◌>>◌, ok_or, ensure, contains, ◌||◌, ap, sym, ◌∙◌, map,
}
use mathlib.Core.List.{append-nil, append_assoc}
use veil_server_v.Poseidon.{U256}
use veil_server_v.Pool.Types.{
  Error, already_spent_nullifier, not_initialized, Event, new_nullifier, State,
}

unfoldable pub get_nullifiers : State → Outcome Error (U256 → Option Bool)
get_nullifiers s = ok_or s.nullifiers not_initialized

unfoldable pub set_nullifiers : (U256 → Option Bool) → State → State
set_nullifiers m s = record s { nullifiers = some m }

unfoldable pub is_spent : U256 → State → Outcome Error Bool
unfolding get_nullifiers
is_spent n s = do nulls ← get_nullifiers s; ok (elim (nulls n) [ none ↦ false | some b ↦ b ])

unfoldable pub mark_spent : U256 → State → Outcome Error State
unfolding get_nullifiers set_nullifiers
mark_spent n s = do nulls ← get_nullifiers s; ok (set_nullifiers (update nulls n (some true)) s)

-- Step 2 of `internal_transact`.
unfoldable pub check_nullifiers : List U256 → State → Outcome Error (Unit {0})
unfolding is_spent
check_nullifiers [] s = ok tt
check_nullifiers (n ∷ ns) s = do
  spent ← is_spent n s
  ensure (not spent) already_spent_nullifier
  check_nullifiers ns s

-- `let _ = mark_spent(..)`: an error is dropped.
unfoldable pub mark_ignoring : U256 → State → Outcome Error State
mark_ignoring n s = elim (mark_spent n s) [ ok t ↦ ok t | err e ↦ ok s | trap ↦ trap ]

-- Step 6 of `internal_transact`.
unfoldable pub mark_nullifiers : List U256 → State → Outcome Error State
unfolding mark_ignoring
mark_nullifiers [] s = ok s
mark_nullifiers (n ∷ ns) s = mark_ignoring n s >>= λ t.
    mark_nullifiers ns (record t { events = t.events ++ (new_nullifier n ∷ []) })

-- The nullifier `n` is recorded as spent.
abbrev pub Spent : U256 → State → Type 0
Spent n s = is_spent n s ≡ ok true

-- The marks of a list of nullifiers.
unfoldable pub mark_map : List U256 → (U256 → Option Bool) → U256 → Option Bool
mark_map [] m = m
mark_map (n ∷ ns) m = mark_map ns (update m n (some true))

mark_spent-ok :
    (n : U256) (s : State) (m : U256 → Option Bool)
    → s.nullifiers ≡ some m
    → mark_spent n s ≡ ok (record s { nullifiers = some (update m n (some true)) })
unfolding mark_spent
mark_spent-ok n s m e = simp e

mark_ignoring-ok :
    (n : U256) (s : State) (m : U256 → Option Bool)
    → s.nullifiers ≡ some m
    → mark_ignoring n s ≡ ok (record s { nullifiers = some (update m n (some true)) })
unfolding mark_ignoring
mark_ignoring-ok n s m e = rw (mark_spent-ok n s m e, mark_ignoring)

-- Marking succeeds, and writes the marks and the events alone.
pub mark_nullifiers-ok :
    (ns : List U256) (s : State) (m : U256 → Option Bool)
    → s.nullifiers ≡ some m
    → mark_nullifiers ns s
      ≡ ok (record s {
        nullifiers = some (mark_map ns m);
        events = s.events ++ map new_nullifier ns;
      })
unfolding mark_nullifiers mark_map
mark_nullifiers-ok [] s m e =
    ap ok (λ i. record s { nullifiers = e i; events = sym (append-nil s.events) i })
mark_nullifiers-ok (n ∷ ns) s m e = rw (mark_ignoring-ok n s m e) (
    mark_nullifiers-ok ns
      (record s {
        nullifiers = some (update m n (some true));
        events = s.events ++ (new_nullifier n ∷ []);
      })
      (update m n (some true)) refl
    ∙ ap
        (λ (ev : List Event).
          ok (record s { nullifiers = some (mark_map ns (update m n (some true))); events = ev }))
        (append_assoc s.events (new_nullifier n ∷ []) (map new_nullifier ns)))

-- An absent key reads as not spent.
abbrev pub flag : Option Bool → Bool
flag none = false
flag (some b) = b

mark_map-contains :
    (ns : List U256) (m : U256 → Option Bool) (n : U256)
    → flag (mark_map ns m n) ≡ (flag (m n) || contains n ns)
unfolding mark_map
mark_map-contains [] m n = ground arith
mark_map-contains (x ∷ xs) m n = mark_map-contains xs (update m x (some true)) n ∙ ground arith

-- In a state with these marks a nullifier is spent if it was, or is among those marked.
pub is_spent-marked :
    (ns : List U256) (s t : State) (m : U256 → Option Bool) (n : U256)
    → s.nullifiers ≡ some m
    → t.nullifiers ≡ some (mark_map ns m)
    → is_spent n t ≡ (is_spent n s >>= λ b. ok (b || contains n ns))
unfolding is_spent
is_spent-marked ns s t m n e f = simp (e, f) (ap ok (mark_map-contains ns m n))
