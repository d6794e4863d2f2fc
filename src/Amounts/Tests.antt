-- ===== src/Amounts/Tests.antt =====
-- The theorems on amounts at concrete inputs.
use veil_server_v.Prelude.{◌+◌, ◌-◌, ◌%◌, ◌^◌, ◌<◌, ◌≡◌, refl, arith, ok, none}
use veil_server_v.Prelude.Int.{negsuc}
use veil_server_v.Poseidon.{U256, bn256_modulus}
use veil_server_v.Pool.Amount.{calculate_public_amount}
use veil_server_v.Amounts.{
  ExtAmount, Field, field_from_ext, field_from_note, field_add, field_sub, note_from_ext,
  ext_from_note, ext_checked_neg, checked_i128,
}
use veil_server_v.Amounts.Laws.{
  field_from_ext-eq-calculate_public_amount, field_add-field_sub, ext_from_note-note_from_ext,
}

field_from_ext-eq-calculate_public_amount_example :
    (a : U256) × (field_from_ext (negsuc 6) ≡ ok a) × (calculate_public_amount (negsuc 6) ≡ ok a)
field_from_ext-eq-calculate_public_amount_example =
    field_from_ext-eq-calculate_public_amount (negsuc 6) refl

field_size : 100 < bn256_modulus
unfolding bn256_modulus
field_size = omega arith

field_add-field_sub_example :
    (c : Field) × (field_add 40 60 ≡ ok c)
    × (c < bn256_modulus)
    × (c ≡ (40 + 60) % bn256_modulus)
    × (field_sub c 60 ≡ ok 40)
field_add-field_sub_example =
    field_add-field_sub 40 60 (omega (arith, field_size)) (omega (arith, field_size))

ext_from_note-note_from_ext_example :
    (x : ExtAmount) × (ext_from_note 12 ≡ ok x)
    × (note_from_ext x ≡ ok 12)
    × (field_from_ext x ≡ ok (field_from_note 12))
ext_from_note-note_from_ext_example = ext_from_note-note_from_ext 12 (omega arith)

-- The least external amount has no negation.
least_is_not_negated : ext_checked_neg (negsuc (2 ^ 127 - 1)) ≡ none
unfolding ext_checked_neg checked_i128
least_is_not_negated = refl
