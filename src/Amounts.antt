-- ===== src/Amounts.antt =====
-- app/crates/core/types/src/amounts.rs: the amounts of the notes, the external amounts and the field
-- elements of the client.
pub mod Laws
mod Tests
use veil_server_v.Prelude.{
  ℕ, suc, ◌+◌, ◌-◌, ◌^◌, Bool, true, false, Option, none, some, leb, ltb, if◌then◌else◌, Outcome,
  ok, err, trap, ◌>>=◌, checked_add, checked_sub, ok_or, unwrap,
}
use veil_server_v.Prelude.Int.{ℤ, pos, negsuc, is_negative, magnitude, negate, fits_signed}
use veil_server_v.Poseidon.{U256, bn256_modulus}

pub data Error : Type 0 where
  note_amount_out_of_range ext_amount_out_of_range : Error

-- A u128.
abbrev pub NoteAmount : Type 0
NoteAmount = ℕ

-- An i128.
abbrev pub ExtAmount : Type 0
ExtAmount = ℤ

-- A field element, below the modulus where the constructors check it.
abbrev pub Field : Type 0
Field = U256

unfoldable pub note_checked_add : NoteAmount → NoteAmount → Option NoteAmount
note_checked_add a b = checked_add 128 a b

unfoldable pub note_checked_sub : NoteAmount → NoteAmount → Option NoteAmount
note_checked_sub a b = checked_sub a b

unfoldable pub note_add : NoteAmount → NoteAmount → Outcome Error NoteAmount
note_add a b = unwrap (note_checked_add a b)

unfoldable pub note_sub : NoteAmount → NoteAmount → Outcome Error NoteAmount
note_sub a b = unwrap (note_checked_sub a b)

-- A value that is an i128, or nothing.
unfoldable pub checked_i128 : ℤ → Option ExtAmount
checked_i128 v = if fits_signed 127 v then some v else none

unfoldable pub ext_checked_neg : ExtAmount → Option ExtAmount
ext_checked_neg v = checked_i128 (negate v)

unfoldable pub note_from_ext : ExtAmount → Outcome Error NoteAmount
note_from_ext v = if is_negative v then err note_amount_out_of_range else ok (magnitude v)

unfoldable pub ext_from_note : NoteAmount → Outcome Error ExtAmount
ext_from_note a = ok_or (checked_i128 (pos a)) ext_amount_out_of_range

unfoldable pub field_from_note : NoteAmount → Field
field_from_note a = a

unfoldable pub field_from_ext : ExtAmount → Outcome Error Field
field_from_ext v =
    if is_negative v
    then (if leb bn256_modulus (magnitude v)
        then err ext_amount_out_of_range
        else unwrap (checked_sub bn256_modulus (magnitude v)))
    else if leb bn256_modulus (magnitude v)
    then err ext_amount_out_of_range
    else ok (magnitude v)

unfoldable pub field_add : Field → Field → Outcome Error Field
field_add a b = do
  v ← unwrap (checked_add 256 a b)
  if leb bn256_modulus v then unwrap (checked_sub v bn256_modulus) else ok v

unfoldable pub field_sub : Field → Field → Outcome Error Field
field_sub a b =
    if leb b a
    then unwrap (checked_sub a b)
    else do diff ← unwrap (checked_sub b a); unwrap (checked_sub bn256_modulus diff)
