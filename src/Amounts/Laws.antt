-- ===== src/Amounts/Laws.antt =====
-- What the client's amounts have in common with the contract's, and the arithmetic of the field.
use veil_server_v.Prelude.{◌+◌, ◌-◌, ◌%◌, ◌^◌, ◌<◌, ◌≡◌, refl, true, arith, ok, lt-or-le, inl, inr}
use veil_server_v.Prelude.Int.{pos, negsuc, magnitude, fits_signed}
use veil_server_v.Poseidon.{U256, bn256_modulus}
use veil_server_v.Pool.Amount.{calculate_public_amount, calculate_public_amount-ok}
use veil_server_v.Amounts.{
  ExtAmount, NoteAmount, Field, field_from_ext, field_from_note, field_add, field_sub,
  note_from_ext, ext_from_note, checked_i128,
}

-- Every external amount of 128 bits is accepted by the client and by the contract, and they make the
-- same field element of it.
pub field_from_ext-eq-calculate_public_amount :
    (x : ExtAmount)
    → fits_signed 127 x ≡ true
    → (a : U256) × (field_from_ext x ≡ ok a) × (calculate_public_amount x ≡ ok a)
unfolding field_from_ext bn256_modulus
field_from_ext-eq-calculate_public_amount (pos n) fits =
    (n, ground arith, calculate_public_amount-ok (pos n) (ground arith))
field_from_ext-eq-calculate_public_amount (negsuc n) fits = (
  bn256_modulus - magnitude (negsuc n),
  ground arith,
  calculate_public_amount-ok (negsuc n) (ground arith),
)

-- The sum of two field elements is given without a panic: it is the sum modulo the field, and the
-- difference takes it back to the first.
pub field_add-field_sub :
    (a b : Field)
    → a < bn256_modulus
    → b < bn256_modulus
    → (c : Field) × (field_add a b ≡ ok c)
      × (c < bn256_modulus)
      × (c ≡ (a + b) % bn256_modulus)
      × (field_sub c b ≡ ok a)
unfolding field_add field_sub bn256_modulus
field_add-field_sub a b ha hb = elim (lt-or-le (a + b) bn256_modulus) [
  | inl below ↦ (a + b, ground arith, below, omega arith, ground arith)
  | inr above ↦ (a + b - bn256_modulus, ground arith, omega arith, omega arith, ground arith)
]

-- An amount of a note is a field element, and becomes an external amount and back where it is below
-- 2 ^ 127; its field element is then that of the external amount.
pub ext_from_note-note_from_ext :
    (a : NoteAmount)
    → a < 2 ^ 127
    → (x : ExtAmount) × (ext_from_note a ≡ ok x)
      × (note_from_ext x ≡ ok a)
      × (field_from_ext x ≡ ok (field_from_note a))
unfolding ext_from_note checked_i128 note_from_ext field_from_ext field_from_note bn256_modulus
ext_from_note-note_from_ext a small = (pos a, ground arith, refl, ground arith)
