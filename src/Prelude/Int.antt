-- ===== src/Prelude/Int.antt =====
-- Signed integers over the native numbers, under the library's names, with the operations of the
-- host's 256-bit signed type.
use Prim.Native.Nat.{ℕ, suc, ◌-◌, ◌^◌}
use mathlib.Core.Bool.{Bool, true, false}
use veil_server_v.Prelude.Tests.{ltb, if◌then◌else◌}

-- `negsuc n` is -(n + 1).
pub data ℤ : Type 0 where
  pos : ℕ → ℤ
  negsuc : ℕ → ℤ

abbrev pub is_negative : ℤ → Bool
is_negative (pos n) = false
is_negative (negsuc n) = true

abbrev pub is_positive : ℤ → Bool
is_positive (pos n) = ltb 0 n
is_positive (negsuc n) = false

-- The absolute value.
abbrev pub magnitude : ℤ → ℕ
magnitude (pos n) = n
magnitude (negsuc n) = suc n

-- 0 - v, before any check of the range.
abbrev pub negate : ℤ → ℤ
negate (pos n) = if ltb 0 n then negsuc (n - 1) else pos 0
negate (negsuc n) = pos (suc n)

-- -2 ^ (w - 1) ≤ v < 2 ^ (w - 1), with `bits` for w - 1.
abbrev pub fits_signed : ℕ → ℤ → Bool
fits_signed bits (pos n) = ltb n (2 ^ bits)
fits_signed bits (negsuc n) = ltb n (2 ^ bits)

-- The two's complement of 256 bits, read as an unsigned number.
abbrev pub twos_complement : ℤ → ℕ
twos_complement (pos n) = n
twos_complement (negsuc n) = 2 ^ 256 - suc n
