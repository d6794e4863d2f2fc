-- ===== src/NonMembership/Tree/Refines.antt =====
-- The contract's search and insertion refine those of the specification's tree.
use veil_server_v.Prelude.{◌^◌, ◌<◌, ◌≡◌, ◌≢◌, arith, ok}
use veil_server_v.Poseidon.{U256, bn256_modulus, Host}
use veil_server_v.Poseidon.Digest.{modulus_bounds}
use veil_server_v.NonMembership.{FindResult, State, split_bits, find_key_internal, root_or_zero}
use veil_server_v.NonMembership.Tree.{
  Smt, empty, entry, fork, Keys, InField, search, Differs, Holds,
}
use veil_server_v.NonMembership.Tree.Hashes.{find_key_internal-eq-search}
use veil_server_v.NonMembership.Tree.Insert.{Keys-map}
use veil_server_v.NonMembership.Tree.Lookup.{Differs-ne}

abbrev pub found_in : Host → U256 → Smt → FindResult
found_in h key t = search h key (split_bits key) t

-- On a state that holds a tree, the search gives the specification's result.
pub find_key-eq-search :
    {h : Host} {read : U256 → Smt} {t : Smt} {s : State} (key : U256)
    → read 0 ≡ empty
    → Holds h read t s
    → find_key_internal s.nodes key (split_bits key) (root_or_zero s) ≡ ok (found_in h key t)
unfolding split_bits root_or_zero
find_key-eq-search {h} {read} {t} {s} key none_is_zero holds = rw holds.root_set (
    find_key_internal-eq-search h read none_is_zero s.nodes key 256 (λ k. k) t holds.stored
      holds.reads holds.placed)

Keys-InField : (t : Smt) → InField t → Keys (λ k. k < bn256_modulus) t
Keys-InField empty fits = tt
Keys-InField (entry k v) fits = fits.0
Keys-InField (fork l r) (in_l, in_r) = (Keys-InField l in_l, Keys-InField r in_r)

in_256 : (k : U256) → k < bn256_modulus → k < 2 ^ 256
in_256 k small = omega (arith, small, modulus_bounds)

pub all_differ :
    (key : U256) (t : Smt)
    → key < bn256_modulus
    → InField t
    → Keys (λ k. k ≢ key) t
    → Keys (λ k. Differs 256 k key) t
all_differ key t key_in fits without =
    Keys-map t (λ k small other. Differs-ne 256 k key other (in_256 k small) (in_256 key key_in))
      (Keys-InField t fits) without
