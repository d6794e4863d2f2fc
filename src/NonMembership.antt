-- ===== src/NonMembership.antt =====
-- contracts/asp-non-membership/src/lib.rs: the state and the reading operations of the sparse Merkle
-- tree. The operations that write stand in Insert and Delete.
pub mod Tree
pub mod Access
mod Tests
pub mod Insert
pub mod Delete
pub mod Verify
use veil_server_v.Prelude.{
  ℕ, zero, suc, ◌/◌, ◌%◌, Bool, true, false, not, ◌&&◌, ◌||◌, Option, none, some, List, [], ◌∷◌,
  ◌==◌, if◌then◌else◌, length, get_elem?, Outcome, ok, err, trap, ◌>>=◌, ◌>>◌, ok_or, unwrap,
  ensure, require,
}
use veil_server_v.Poseidon.{U256, Host, poseidon2_compress, poseidon2_hash2}
use veil_server_v.Admin
use veil_server_v.Admin.{Address, Auth}

pub data Error : Type 0 where
  not_authorized key_not_found key_already_exists invalid_proof not_initialized overflow : Error

pub record FindResult : Type 0 where
  pub found : Bool
  pub siblings : List U256
  pub found_value : U256
  pub not_found_key : U256
  pub not_found_value : U256
  pub is_old0 : Bool

pub data Event : Type 0 where
  leaf_inserted : U256 → U256 → U256 → Event
  leaf_deleted : U256 → U256 → Event

abbrev pub Nodes : Type 0
Nodes = U256 → Option (List U256)

-- A field for each constructor of DataKey, and the events published.
pub record State : Type 0 where
  pub admin : Option Address
  pub root : Option U256
  pub nodes : Nodes
  pub events : List Event

unfoldable pub constructor : Address → State → Outcome Error State
constructor admin s = ok (record s { admin = some admin; root = some 0 })

unfoldable pub update_admin : Auth → Address → State → Outcome Error State
update_admin auth new_admin s =
    Admin.update_admin auth s.admin new_admin >>= λ a. ok (record s { admin = a })

unfoldable pub hash_leaf : Host → U256 → U256 → Outcome Error U256
hash_leaf h key value = poseidon2_hash2 h key value (some 1)

unfoldable pub hash_internal : Host → U256 → U256 → Outcome Error U256
hash_internal h left right = poseidon2_compress h left right

-- The `n` low bits of a number, the lowest first.
unfoldable pub low_bits : ℕ → U256 → List Bool
low_bits zero k = []
low_bits (suc n) k = (k % 2 == 1) ∷ low_bits n (k / 2)

unfoldable pub split_bits : U256 → List Bool
split_bits key = low_bits 256 key

-- What the branches of `find_key_internal` take a stored vector for.
pub data NodeData : Type 0 where
  leaf : U256 → U256 → NodeData
  internal : U256 → U256 → NodeData
  invalid : NodeData

unfoldable pub view : List U256 → NodeData
view (l ∷ r ∷ []) = internal l r
view (tag ∷ key ∷ value ∷ []) = if tag == 1 then leaf key value else invalid
view _ = invalid

unfoldable pub empty_result : U256 → FindResult
empty_result key = record {
  found = false;
  siblings = [];
  found_value = 0;
  not_found_key = key;
  not_found_value = 0;
  is_old0 = true;
}

unfoldable pub leaf_result : U256 → U256 → U256 → FindResult
leaf_result key stored_key stored_value =
    if stored_key == key
    then record {
      found = true;
      siblings = [];
      found_value = stored_value;
      not_found_key = 0;
      not_found_value = 0;
      is_old0 = false;
    }
    else record {
      found = false;
      siblings = [];
      found_value = 0;
      not_found_key = stored_key;
      not_found_value = stored_value;
      is_old0 = false;
    }

abbrev pub push_sibling : U256 → FindResult → FindResult
push_sibling sibling r = record r { siblings = sibling ∷ r.siblings }

-- `key_bits` are the bits of the key from the level on, so that the recursion is on them. The level
-- counts to 256 at most, and its addition does not overflow.
unfoldable pub find_key_internal : Nodes → U256 → List Bool → U256 → Outcome Error FindResult
find_key_internal nodes key [] root = elim (root == 0) [
  | true ↦ ok (empty_result key)
  | false ↦ ok_or (nodes root) key_not_found >>= λ node_data. elim (view node_data) [
    | leaf k v ↦ ok (leaf_result key k v)
    | internal l r ↦ err key_not_found
    | invalid ↦ err key_not_found
  ]
]
find_key_internal nodes key (bit ∷ bits) root = elim (root == 0) [
  | true ↦ ok (empty_result key)
  | false ↦ ok_or (nodes root) key_not_found >>= λ node_data. elim (view node_data) [
    | leaf k v ↦ ok (leaf_result key k v)
    | internal l r ↦ find_key_internal nodes key bits (if bit then r else l) >>= λ result.
        ok (push_sibling (if bit then l else r) result)
    | invalid ↦ err key_not_found
  ]
]

-- `unwrap_or(zero)` of the stored root.
unfoldable pub root_or_zero : State → U256
root_or_zero s = elim s.root [ none ↦ 0 | some r ↦ r ]

unfoldable pub find_key : U256 → State → Outcome Error FindResult
find_key key s = find_key_internal s.nodes key (split_bits key) (root_or_zero s)

unfoldable pub get_root : State → Outcome Error U256
get_root s = ok_or s.root not_initialized
