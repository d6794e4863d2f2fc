-- ===== src/Samples.antt =====
-- A concrete host, at which the tests of the other modules run.
use veil_server_v.Prelude.{◌+◌, ◌*◌, ◌%◌, List, [], ◌∷◌, get_or, refl}
use native.Mathlib.Nat.{mod-lt}
use veil_server_v.Poseidon.{U256, bn256_modulus, Host}
use veil_server_v.Poseidon.Digest.{IsPermutation, modulus_bounds}

-- A permutation in name only: two field elements that depend on both inputs.
abbrev pub mix : List U256 → List U256
mix inputs =
    (get_or inputs 0 0 + 2 * get_or inputs 1 0 + 1) % bn256_modulus
    ∷ (get_or inputs 1 0 + 3) % bn256_modulus
    ∷ []

abbrev pub host : Host
host = record { permutation = λ inputs t d rounds_f rounds_p diagonal. mix inputs }

pub host-IsPermutation : IsPermutation host
host-IsPermutation = record {
  width = λ l r hl hr. refl;
  in_field = λ l r hl hr. mod-lt _ modulus_bounds.0;
}
