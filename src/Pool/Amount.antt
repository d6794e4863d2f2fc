-- ===== src/Pool/Amount.antt =====
-- Amounts: the conversions of pool.rs between the signed external amount, the token's 128-bit
-- amount and the field.
use veil_server_v.Prelude.{
  ◌-◌, ◌*◌, ◌^◌, ◌≤◌, ◌<◌, ◌≡◌, ◌≢◌, arith, leb, if◌then◌else◌, Outcome, ok, err, trap, ◌>>=◌,
  ok-injective, sym, ◌∙◌, ap,
}
use native.Mathlib.Decide.{dec_lt}
use veil_server_v.Prelude.Int.{
  ℤ, pos, negsuc, is_negative, magnitude, negate, fits_signed, twos_complement,
}
use veil_server_v.Poseidon.{U256, bn256_modulus}
use veil_server_v.Pool.Types.{Error, wrong_ext_amount}

-- I256::sub of the host from zero, which traps on overflow.
unfoldable pub zero_sub : ℤ → Outcome Error ℤ
zero_sub v = if fits_signed 255 (negate v) then ok (negate v) else trap

-- U256::sub of the host, which traps on underflow.
unfoldable pub u256_sub : U256 → U256 → Outcome Error U256
u256_sub a b = if leb b a then ok (a - b) else trap

abbrev pub max_ext_amount : U256
max_ext_amount = 0x0100_0000_0000_0000 * 2 ^ 192

unfoldable pub i256_to_i128_nonneg : ℤ → Outcome Error ℤ
i256_to_i128_nonneg v =
    if is_negative v
    then err wrong_ext_amount
    else if fits_signed 127 v
    then ok v
    else err wrong_ext_amount

unfoldable pub i256_abs_to_u256 : ℤ → Outcome Error U256
unfolding zero_sub
i256_abs_to_u256 v =
    if is_negative v
    then (zero_sub v >>= λ abs. ok (twos_complement abs))
    else ok (twos_complement v)

unfoldable pub calculate_public_amount : ℤ → Outcome Error U256
unfolding i256_abs_to_u256 u256_sub
calculate_public_amount ext_amount = do
  abs_ext ← i256_abs_to_u256 ext_amount
  if leb max_ext_amount abs_ext
      then err wrong_ext_amount
      else if is_negative ext_amount
      then (do neg ← zero_sub ext_amount; u256_sub bn256_modulus (twos_complement neg))
      else ok (twos_complement ext_amount)

-- An external amount of magnitude below 2 ^ 248 has the public amount of its residue in the field:
-- its value if it is not negative, and the modulus less its magnitude if it is.
pub calculate_public_amount-ok :
    (x : ℤ)
    → magnitude x < 2 ^ 248
    → calculate_public_amount x
      ≡ ok (if is_negative x then bn256_modulus - magnitude x else magnitude x)
unfolding calculate_public_amount bn256_modulus zero_sub
calculate_public_amount-ok (pos n) h = ground arith
calculate_public_amount-ok (negsuc n) h = ground arith

-- An external amount of magnitude 2 ^ 248 or more is refused.
pub calculate_public_amount-ne_ok :
    (x : ℤ) (a : U256) → 2 ^ 248 ≤ magnitude x → calculate_public_amount x ≢ ok a
unfolding calculate_public_amount zero_sub
calculate_public_amount-ne_ok (pos n) a h e = ground arith
calculate_public_amount-ne_ok (negsuc n) a h e = ground arith

public_amount-small :
    (x : ℤ) (a : U256)
    → calculate_public_amount x ≡ ok a
    → (magnitude x < 2 ^ 248)
      × ((if is_negative x then bn256_modulus - magnitude x else magnitude x) ≡ a)
public_amount-small x a e = elim (dec_lt (magnitude x) (2 ^ 248)) [
  | yes b ↦ (b, ok-injective (sym (calculate_public_amount-ok x b) ∙ e))
  | no b ↦ absurd (calculate_public_amount-ne_ok x a (omega arith) e)
]

residue-injective :
    (x y : ℤ)
    → magnitude x < 2 ^ 248
    → magnitude y < 2 ^ 248
    → (if is_negative x then bn256_modulus - magnitude x else magnitude x)
      ≡ (if is_negative y then bn256_modulus - magnitude y else magnitude y)
    → x ≡ y
unfolding bn256_modulus
residue-injective (pos n) (pos m) a b e = ground arith
residue-injective (pos n) (negsuc m) a b e = absurd (omega arith)
residue-injective (negsuc n) (pos m) a b e = absurd (omega arith)
residue-injective (negsuc n) (negsuc m) a b e = let same : n ≡ m = omega arith in ap negsuc same

-- Two external amounts for which the same public amount is calculated are equal.
pub calculate_public_amount-injective :
    (x y : ℤ) (a : U256)
    → calculate_public_amount x ≡ ok a
    → calculate_public_amount y ≡ ok a
    → x ≡ y
calculate_public_amount-injective x y a p q =
    let (hx, ex) = public_amount-small x a p in
    let (hy, ey) = public_amount-small y a q in residue-injective x y hx hy (ex ∙ sym ey)
