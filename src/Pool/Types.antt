-- ===== src/Pool/Types.antt =====
-- The data of pool.rs, its storage, and the outside world that its functions call.
use veil_server_v.Prelude.{ℕ, Bool, Option, List, Outcome, ok, err, trap}
use veil_server_v.Prelude.Int.{ℤ}
use veil_server_v.Poseidon.{U256, Host}
use veil_server_v.Admin.{Address, Auth}
use veil_server_v.PoolTree
use veil_server_v.PoolTree.{Storage}

-- A byte string.
abbrev pub Bytes : Type 0
Bytes = List ℕ

pub data Error : Type 0 where
  not_authorized merkle_tree_full already_initialized wrong_levels next_index_not_even
        wrong_ext_amount invalid_proof unknown_root already_spent_nullifier wrong_ext_hash
        not_initialized overflow non_canonical_public_input :
      Error

-- `impl From<MerkleError> for Error`
unfoldable pub from_merkle_error : PoolTree.Error → Error
from_merkle_error PoolTree.already_initialized = already_initialized
from_merkle_error PoolTree.merkle_tree_full = merkle_tree_full
from_merkle_error PoolTree.wrong_levels = wrong_levels
from_merkle_error PoolTree.next_index_not_even = next_index_not_even
from_merkle_error PoolTree.not_initialized = not_initialized
from_merkle_error PoolTree.overflow = overflow

-- `?` on a result of the tree.
unfoldable pub lift {ℓ} : {A : Type ℓ} → Outcome PoolTree.Error A → Outcome Error A
lift (ok a) = ok a
lift (err e) = err (from_merkle_error e)
lift trap = trap

-- contracts/types/src/lib.rs: the points of a proof, as the bytes that `is_empty` measures.
pub record Groth16Proof : Type 0 where
  pub a : Bytes
  pub b : Bytes
  pub c : Bytes

pub record Proof : Type 0 where
  pub proof : Groth16Proof
  pub root : U256
  pub input_nullifiers : List U256
  pub output_commitment0 : U256
  pub output_commitment1 : U256
  pub public_amount : U256
  pub ext_data_hash : Bytes
  pub asp_membership_root : U256
  pub asp_non_membership_root : U256

pub record ExtData : Type 0 where
  pub recipient : Address
  pub ext_amount : ℤ
  pub encrypted_output0 : Bytes
  pub encrypted_output1 : Bytes

pub data Event : Type 0 where
  new_commitment : U256 → ℕ → Bytes → Event
  new_nullifier : U256 → Event

-- A call of `transfer` of the token contract at the first address.
pub record Transfer : Type 0 where
  pub token : Address
  pub sender : Address
  pub receiver : Address
  pub amount : ℤ

-- The persistent storage, a field for each constructor of DataKey and the storage of the tree;
-- then the events published, and the transfers that the token contracts have carried out.
pub record State : Type 0 where
  pub admin : Option Address
  pub token : Option Address
  pub verifier : Option Address
  pub nullifiers : Option (U256 → Option Bool)
  pub asp_membership : Option Address
  pub asp_non_membership : Option Address
  pub tree : Storage
  pub events : List Event
  pub transfers : List Transfer

-- What the contract calls: the host (hashes, authorisations, its own address), the token contract
-- (whether it carries out a transfer after those before it), the two ASP contracts (the root that
-- the one at an address gives, `none` if that call fails), and the verifier contract (`none` if
-- that call fails).
pub record World : Type 0 where
  pub host : Host
  pub auth : Auth
  pub this : Address
  pub to_xdr : ExtData → Bytes
  pub keccak256 : Bytes → Bytes
  pub carries_out : Transfer → List Transfer → Bool
  pub root_at : Address → Option U256
  pub verify : Address → Groth16Proof → List Bytes → Option Bool

-- The administrator and the addresses of the other contracts.
abbrev pub addresses :
    State → Option Address × Option Address × Option Address × Option Address × Option Address
addresses s = (s.admin, s.token, s.verifier, s.asp_membership, s.asp_non_membership)
