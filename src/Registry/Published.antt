-- ===== src/Registry/Published.antt =====
-- The stream of events tells every registration.
use veil_server_v.Prelude.{
  ◌≡◌, refl, true, Option, none, some, List, [], ◌∷◌, ◌++◌, ◌==◌, arith, if◌then◌else◌, update,
  Bool-cases, inl, inr, ok, length,
}
use veil_server_v.Admin.{Address, Auth}
use mathlib.Core.Path.{ap₂}
use veil_server_v.Pool.Types.{Bytes}
use veil_server_v.Pool.Proofs.{bytes_eq_sound}
use veil_server_v.Registry.{
  Account, Registration, PublicKeyEvent, State, stored_is, keys_of, register,
}

-- The keys of the last event of an address.
unfoldable pub last_event : Address → List PublicKeyEvent → Option Registration
last_event a [] = none
last_event a (e ∷ es) = elim (last_event a es) [
  | some r ↦ some r
  | none ↦ if e.owner == a then some e.keys else none
]

-- What is registered for an address is what its last event says.
abbrev pub Published : State → Type 0
Published s = (a : Address) → s.registrations a ≡ last_event a s.events

last_event-append :
    (a : Address) (es : List PublicKeyEvent) (e : PublicKeyEvent)
    → last_event a (es ++ (e ∷ [])) ≡ (if e.owner == a then some e.keys else last_event a es)
unfolding last_event
last_event-append a [] e = refl
last_event-append a (d ∷ es) e = elim (Bool-cases (e.owner == a)) [
  | inl same ↦ simp (last_event-append a es e, same)
  | inr other ↦ simp (last_event-append a es e, other)
]

-- The state with the keys of an account written and published.
abbrev written : Account → State → State
written account s = record {
  registrations = update s.registrations account.owner (some (keys_of account));
  events = s.events ++ (record { owner = account.owner; keys = keys_of account } ∷ []);
}

written-Published : (account : Account) (s : State) → Published s → Published (written account s)
written-Published account s agree a = elim (Bool-cases (account.owner == a)) [
  | inl same ↦ simp (
    last_event-append a s.events (record { owner = account.owner; keys = keys_of account }),
    same,
  )
  | inr other ↦ simp (
    last_event-append a s.events (record { owner = account.owner; keys = keys_of account }),
    other,
    agree a,
  )
]

stored_is_sound : (o : Option Registration) (r : Registration) → stored_is o r ≡ true → o ≡ some r
unfolding stored_is
stored_is_sound none r h = cc
stored_is_sound (some q) r h =
    let e : q.encryption_key ≡ r.encryption_key = bytes_eq_sound _ _ (ground (arith, h)) in
    let n : q.note_key ≡ r.note_key = bytes_eq_sound _ _ (ground (arith, h)) in
    let both : Bytes → Bytes → Option Registration =
      λ x y. some (record { encryption_key = x; note_key = y }) in
    ap₂ both e n

-- A registration that its owner authorised, with two keys of 32 bytes, is accepted; the keys are then
-- the ones registered for the owner, and the last event of every address still tells its registration.
pub register-Published :
    (auth : Auth) (account : Account) (s : State)
    → Published s
    → auth account.owner ≡ true
    → length account.encryption_key ≡ 32
    → length account.note_key ≡ 32
    → (t : State) × (register auth account s ≡ ok t)
      × (t.registrations account.owner ≡ some (keys_of account))
      × Published t
unfolding register
register-Published auth account s agree may le ln =
    elim (Bool-cases (stored_is (s.registrations account.owner) (keys_of account))) [
      | inl same ↦ (
        s,
        ground (arith, may, le, ln, same),
        stored_is_sound (s.registrations account.owner) (keys_of account) same,
        agree,
      )
      | inr new ↦ (
        written account s,
        ground (arith, may, le, ln, new),
        ground arith,
        written-Published account s agree,
      )
    ]
