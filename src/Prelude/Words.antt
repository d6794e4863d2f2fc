-- ===== src/Prelude/Words.antt =====
-- Checked arithmetic on Rust's unsigned integers.
use Prim.Native.Nat.{ℕ, ◌+◌, ◌-◌, ◌^◌}
use mathlib.Core.Option.{Option, none, some}
use veil_server_v.Prelude.Tests.{ltb, leb, if◌then◌else◌}

-- `a.checked_add(b)` of a `w`-bit integer.
abbrev pub checked_add : ℕ → ℕ → ℕ → Option ℕ
checked_add w a b = if ltb (a + b) (2 ^ w) then some (a + b) else none

-- `a.checked_sub(b)`
abbrev pub checked_sub : ℕ → ℕ → Option ℕ
checked_sub a b = if leb b a then some (a - b) else none

-- `1u64.checked_shl(n)`
abbrev pub checked_shl_one : ℕ → Option ℕ
checked_shl_one n = if ltb n 64 then some (2 ^ n) else none

-- `T::try_from(a)` for a `w`-bit T.
abbrev pub try_from : ℕ → ℕ → Option ℕ
try_from w a = if ltb a (2 ^ w) then some a else none
