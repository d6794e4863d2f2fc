-- ===== src/NonMembership/Verify.antt =====
-- `verify_non_membership` of contracts/asp-non-membership/src/lib.rs.
use veil_server_v.Prelude.{
  Bool, true, false, not, ◌&&◌, List, [], ◌∷◌, ◌==◌, if◌then◌else◌, length, Outcome, ok, ◌>>=◌,
  ◌>>◌, ok_or, ensure,
}
use veil_server_v.Poseidon.{U256, Host}
use veil_server_v.NonMembership.{
  Error, invalid_proof, State, hash_leaf, hash_internal, split_bits, find_key_internal,
  root_or_zero,
}
use veil_server_v.NonMembership.Insert.{tail, head?, in_order}

-- `for (i, sibling) in siblings.iter().enumerate()`: each is compared with the one found.
unfoldable pub same_siblings : List U256 → List U256 → Outcome Error (Unit {0})
same_siblings [] expected = ok tt
same_siblings (s ∷ ss) expected = do
  e ← ok_or (head? expected) invalid_proof
  ensure (s == e) invalid_proof
  same_siblings ss (tail expected)

-- `for level_idx in 0..siblings_len`, from the last sibling to the first.
unfoldable pub rebuild_root : Host → List U256 → List Bool → U256 → Outcome Error U256
rebuild_root h [] bits bottom = ok bottom
rebuild_root h (s ∷ ss) bits bottom = do
  below ← rebuild_root h ss (tail bits) bottom
  bit ← ok_or (head? bits) invalid_proof
  let pair : U256 × U256 = in_order bit s below
  hash_internal h pair.0 pair.1

unfoldable pub proof_bottom : Host → U256 → U256 → U256 → Outcome Error U256
proof_bottom h key not_found_key not_found_value =
    if not (not_found_key == key) && not (not_found_value == 0)
    then hash_leaf h not_found_key not_found_value
    else ok 0

unfoldable pub verify_non_membership :
    Host → U256 → List U256 → U256 → U256 → State → Outcome Error Bool
verify_non_membership h key siblings not_found_key not_found_value s =
    let key_bits : List Bool = split_bits key in
    find_key_internal s.nodes key key_bits (root_or_zero s) >>= λ r.
    if r.found then ok false else do
      ensure (length r.siblings == length siblings) invalid_proof
      same_siblings siblings r.siblings
      ensure (r.not_found_key == not_found_key && r.not_found_value == not_found_value)
          invalid_proof
      bottom ← proof_bottom h key not_found_key not_found_value
      computed_root ← rebuild_root h siblings key_bits bottom
      ensure (computed_root == root_or_zero s) invalid_proof
      ok true
