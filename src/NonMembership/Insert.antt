-- ===== src/NonMembership/Insert.antt =====
-- `insert_leaf` of contracts/asp-non-membership/src/lib.rs.
use veil_server_v.Prelude.{
  ℕ, Bool, true, false, not, ◌&&◌, ◌||◌, Option, none, some, List, [], ◌∷◌, ◌++◌, ◌==◌,
  if◌then◌else◌, length, update, drop, Outcome, ok, ◌>>=◌, ◌>>◌, ok_or, ensure, require,
}
use veil_server_v.Poseidon.{U256, Host}
use veil_server_v.Admin.{Auth}
use veil_server_v.NonMembership.{
  Error, key_not_found, key_already_exists, not_initialized, FindResult, leaf_inserted, Nodes,
  State, hash_leaf, hash_internal, split_bits, find_key_internal, root_or_zero,
}

-- What the loop of `insert_leaf` changes.
pub record Climb : Type 0 where
  pub mixed : Bool
  pub rt_old : U256
  pub rt : U256
  pub nodes : Nodes

unfoldable pub bits_eq : Bool → Bool → Bool
bits_eq true b = b
bits_eq false b = not b

-- The zeros pushed while the bits of the two keys agree, from the end of the siblings on.
unfoldable pub common_zeros : List Bool → List Bool → List U256
unfolding bits_eq
common_zeros [] bs = []
common_zeros (o ∷ os) [] = []
common_zeros (o ∷ os) (b ∷ bs) =
    let rest = common_zeros os bs in if bits_eq o b then 0 ∷ rest else []

abbrev pub is_nil {ℓ} : {A : Type ℓ} → List A → Bool
is_nil [] = true
is_nil (x ∷ xs) = false

abbrev pub tail {ℓ} : {A : Type ℓ} → List A → List A
tail [] = []
tail (x ∷ xs) = xs

abbrev pub head? {ℓ} : {A : Type ℓ} → List A → Option A
head? [] = none
head? (x ∷ xs) = some x

abbrev pub in_order : Bool → U256 → U256 → U256 × U256
in_order bit sibling here = if bit then (sibling, here) else (here, sibling)

-- One round: the removal of the old node of this level, then the new node. `last` says that no
-- sibling stands behind this one, `old` is the sibling that was found, if there was one.
unfoldable pub insert_round :
    Host → Bool → Bool → U256 → Option Bool → Option U256 → Climb → Outcome Error Climb
insert_round h added_one last sibling key_bit old c = do
  bit ← ok_or key_bit key_not_found
  let mixed : Bool = c.mixed || (not last && not (sibling == 0))
  let old_sibling : U256 = elim old [ none ↦ 0 | some o ↦ o ]
  let old_pair : U256 × U256 = in_order bit old_sibling c.rt_old
  rt_old ←
      if mixed && not (added_one && last)
      then hash_internal h old_pair.0 old_pair.1
      else ok c.rt_old
  let removed : Nodes =
      if mixed && not (added_one && last) then update c.nodes rt_old none else c.nodes
  let pair : U256 × U256 = in_order bit sibling c.rt
  rt ← hash_internal h pair.0 pair.1
  ok (record {
    mixed = mixed;
    rt_old = rt_old;
    rt = rt;
    nodes = update removed rt (some (pair.0 ∷ pair.1 ∷ []));
  })

-- `for (i, sibling) in siblings.iter().enumerate().rev()`: the rounds of the siblings behind the
-- first come before its own. `bits` and `olds` are the bits of the key and the siblings that were
-- found, from the index of the first sibling on.
unfoldable pub insert_climb :
    Host → Bool → List U256 → List Bool → List U256 → Climb → Outcome Error Climb
insert_climb h added_one [] bits olds c = ok c
insert_climb h added_one (sibling ∷ siblings) bits olds c =
    insert_climb h added_one siblings (tail bits) (tail olds) c >>= λ below.
    insert_round h added_one (is_nil siblings) sibling (head? bits) (head? olds) below

-- The siblings of the new path, with the old leaf where there was a collision, and the state before
-- the loop without the new leaf: `mixed` and `rt_old`.
unfoldable pub new_siblings :
    Host → List Bool → FindResult → Outcome Error (List U256 × Bool × U256)
new_siblings h key_bits r = if r.is_old0 then ok (r.siblings, not (is_nil r.siblings), 0) else (do
  let n : ℕ = length r.siblings
  let zeros : List U256 = common_zeros (drop n (split_bits r.not_found_key)) (drop n key_bits)
  rt_old ← hash_leaf h r.not_found_key r.not_found_value
  ok (r.siblings ++ (zeros ++ (rt_old ∷ [])), false, rt_old))

unfoldable pub insert_found :
    Host → U256 → U256 → List Bool → FindResult → State → Outcome Error State
insert_found h key value key_bits r s = do
  ensure (not r.found) key_already_exists
  start ← new_siblings h key_bits r
  new_leaf ← hash_leaf h key value
  top ← insert_climb h (not r.is_old0) start.0 key_bits r.siblings (record {
    mixed = start.1;
    rt_old = start.2;
    rt = new_leaf;
    nodes = update s.nodes new_leaf (some (1 ∷ key ∷ value ∷ []));
  })
  ok (record s {
    root = some top.rt;
    nodes = top.nodes;
    events = s.events ++ (leaf_inserted key value top.rt ∷ []);
  })

unfoldable pub insert_leaf : Auth → Host → U256 → U256 → State → Outcome Error State
insert_leaf auth h key value s = do
  admin ← ok_or s.admin not_initialized
  require (auth admin)
  let key_bits : List Bool = split_bits key
  r ← find_key_internal s.nodes key key_bits (root_or_zero s)
  insert_found h key value key_bits r s
