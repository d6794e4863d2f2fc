-- ===== src/Prelude/Outcomes.antt =====
-- What a contract function gives: a value, an error of its own, or a trap (a Rust panic, or a
-- refusal of the host). The writes of a call that does not give a value are discarded by the host,
-- so a stateful function returns its new state inside `ok`.
use mathlib.Core.Path.{ap, ◌≡◌, refl}
use mathlib.Core.Bool.{Bool, true, false}
use mathlib.Core.Option.{Option, none, some}

pub data Outcome {ℓ} (E : Type 0) (A : Type ℓ) : Type ℓ where
  ok : A → Outcome E A
  err : E → Outcome E A
  trap : Outcome E A

infixl 5 ◌>>=◌ ◌>>◌
abbrev pub ◌>>=◌ {ℓ κ} :
    {E : Type 0} {V : Type ℓ} {W : Type κ} (call : Outcome E V) (next : V → Outcome E W)
    → Outcome E W
trap >>= next = trap
err reason >>= next = err reason
ok value >>= next = next value

abbrev pub ◌>>◌ {ℓ} :
    {E : Type 0} {W : Type ℓ} (check : Outcome E (Unit {0})) (rest : Outcome E W) → Outcome E W
check >> rest = check >>= λ done. rest

-- `option.ok_or(e)?`
abbrev pub ok_or {ℓ} : {E : Type 0} {A : Type ℓ} → Option A → E → Outcome E A
ok_or none e = err e
ok_or (some a) e = ok a

-- `option.unwrap()`
abbrev pub unwrap {ℓ} : {E : Type 0} {A : Type ℓ} → Option A → Outcome E A
unwrap none = trap
unwrap (some a) = ok a

-- `if !test { return Err(reason) }`
abbrev pub ensure : {E : Type 0} (test : Bool) (reason : E) → Outcome E (Unit {0})
ensure false reason = err reason
ensure true reason = ok tt

-- The host traps unless the test holds.
abbrev pub require : {E : Type 0} → Bool → Outcome E (Unit {0})
require true = ok tt
require false = trap

-- A bind that gave a value: its call gave one, and so did the rest on that.
pub >>=-eq-ok {ℓ κ} :
    {E : Type 0} {V : Type ℓ} {W : Type κ} (call : Outcome E V) (next : V → Outcome E W) {w : W}
    → (call >>= next) ≡ ok w
    → (v : V) × (call ≡ ok v) × (next v ≡ ok w)
>>=-eq-ok trap next gave = cc
>>=-eq-ok (err reason) next gave = cc
>>=-eq-ok (ok value) next gave = (value, refl, gave)

-- `storage.has(key)`
unfoldable pub is_set {ℓ} : {A : Type ℓ} → Option A → Bool
is_set none = false
is_set (some a) = true

pub is_set-none {ℓ} : {A : Type ℓ} (o : Option A) → o ≡ none → is_set o ≡ false
unfolding is_set
is_set-none o e = rw e

pub is_set-some {ℓ} : {A : Type ℓ} {a : A} (o : Option A) → o ≡ some a → is_set o ≡ true
unfolding is_set
is_set-some o e = rw e

pub ok-injective {ℓ} :
    {E : Type 0} {A : Type ℓ} {a b : A} → ◌≡◌ {A = Outcome E A} (ok a) (ok b) → a ≡ b
ok-injective p = cc

-- The host keeps the writes of a call that succeeds, and no others.
unfoldable pub kept {ℓ} : {E : Type 0} {S : Type ℓ} → S → Outcome E S → S
kept s (ok t) = t
kept s (err e) = s
kept s trap = s

pub unwrap-inv {ℓ} :
    {E : Type 0} {A : Type ℓ} (o : Option A) {a : A} → unwrap {E = E} o ≡ ok a → o ≡ some a
unwrap-inv none e = cc
unwrap-inv (some b) e = ap some (ok-injective e)
