-- ===== src/NonMembership/Delete.antt =====
-- `delete_leaf` of contracts/asp-non-membership/src/lib.rs.
use veil_server_v.Prelude.{
  Bool, true, false, not, ◌||◌, Option, none, some, List, [], ◌∷◌, ◌++◌, ◌==◌, if◌then◌else◌,
  update, Outcome, ok, err, ◌>>=◌, ◌>>◌, ok_or, ensure, require,
}
use veil_server_v.Poseidon.{U256, Host}
use veil_server_v.Admin.{Auth}
use veil_server_v.NonMembership.{
  Error, key_not_found, not_initialized, FindResult, leaf_deleted, Nodes, State, leaf, internal,
  invalid, view, hash_leaf, hash_internal, split_bits, find_key_internal,
}
use veil_server_v.NonMembership.Insert.{tail, head?, in_order}

-- What the loop of `delete_leaf` changes.
pub record Collapse : Type 0 where
  pub mixed : Bool
  pub rt_old : U256
  pub rt_new : U256
  pub nodes : Nodes

unfoldable pub delete_round : Host → U256 → Option Bool → Collapse → Outcome Error Collapse
delete_round h sibling key_bit c = do
  bit ← ok_or key_bit key_not_found
  let old_pair : U256 × U256 = in_order bit sibling c.rt_old
  rt_old ← hash_internal h old_pair.0 old_pair.1
  let removed : Nodes = update c.nodes rt_old none
  let mixed : Bool = c.mixed || not (sibling == 0)
  let pair : U256 × U256 = in_order bit sibling c.rt_new
  if mixed
      then (do
        rt_new ← hash_internal h pair.0 pair.1
        ok (record {
          mixed = true;
          rt_old = rt_old;
          rt_new = rt_new;
          nodes = update removed rt_new (some (pair.0 ∷ pair.1 ∷ []));
        }))
      else ok (record c { rt_old = rt_old; nodes = removed })

-- `for level_idx in 0..siblings_len`, from the last sibling to the first.
unfoldable pub delete_climb : Host → List U256 → List Bool → Collapse → Outcome Error Collapse
delete_climb h [] bits c = ok c
delete_climb h (sibling ∷ siblings) bits c =
    delete_climb h siblings (tail bits) c >>= λ below. delete_round h sibling (head? bits) below

unfoldable pub last? : List U256 → Option U256
last? [] = none
last? (x ∷ []) = some x
last? (x ∷ y ∷ xs) = last? (y ∷ xs)

unfoldable pub pop_back : List U256 → List U256
pop_back [] = []
pop_back (x ∷ []) = []
pop_back (x ∷ y ∷ xs) = x ∷ pop_back (y ∷ xs)

-- The new bottom of the path and the siblings above it: a last sibling that is a leaf is promoted.
unfoldable pub promoted : Nodes → List U256 → Outcome Error (U256 × List U256)
promoted nodes siblings = elim (last? siblings) [
  | none ↦ ok (0, siblings)
  | some last ↦ ok_or (nodes last) key_not_found >>= λ node_data. elim (view node_data) [
    | leaf k v ↦ ok (last, pop_back siblings)
    | internal l r ↦ ok (0, siblings)
    | invalid ↦ err key_not_found
  ]
]

unfoldable pub delete_found : Host → U256 → List Bool → FindResult → State → Outcome Error State
delete_found h key key_bits r s = do
  ensure r.found key_not_found
  rt_old ← hash_leaf h key r.found_value
  let removed : Nodes = update s.nodes rt_old none
  start ← promoted removed r.siblings
  top ←
      delete_climb h start.1 key_bits
        (record { mixed = false; rt_old = rt_old; rt_new = start.0; nodes = removed })
  ok (record s {
    root = some top.rt_new;
    nodes = top.nodes;
    events = s.events ++ (leaf_deleted key top.rt_new ∷ []);
  })

unfoldable pub delete_leaf : Auth → Host → U256 → State → Outcome Error State
delete_leaf auth h key s = do
  admin ← ok_or s.admin not_initialized
  require (auth admin)
  root ← ok_or s.root not_initialized
  let key_bits : List Bool = split_bits key
  r ← find_key_internal s.nodes key key_bits root
  delete_found h key key_bits r s
