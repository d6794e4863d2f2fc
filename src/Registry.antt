-- ===== src/Registry.antt =====
-- The public key registry, contracts/public-key-registry/src/lib.rs.
pub mod Published
mod Tests
use veil_server_v.Prelude.{
  ℕ, Bool, true, false, ◌&&◌, Option, none, some, List, [], ◌∷◌, ◌++◌, ◌==◌, if◌then◌else◌, length,
  update, Outcome, ok, ◌>>=◌, ◌>>◌, require,
}
use veil_server_v.Admin.{Address, Auth}
use veil_server_v.Pool.Types.{Bytes}
use veil_server_v.Pool.Proofs.{bytes_eq}

pub record Account : Type 0 where
  pub owner : Address
  pub encryption_key : Bytes
  pub note_key : Bytes

pub record Registration : Type 0 where
  pub encryption_key : Bytes
  pub note_key : Bytes

pub record PublicKeyEvent : Type 0 where
  pub owner : Address
  pub keys : Registration

-- The storage, by the address of its key, and the events published.
pub record State : Type 0 where
  pub registrations : Address → Option Registration
  pub events : List PublicKeyEvent

-- `get(&key) == Some(next)`
unfoldable pub stored_is : Option Registration → Registration → Bool
stored_is none next = false
stored_is (some r) next =
    bytes_eq r.encryption_key next.encryption_key && bytes_eq r.note_key next.note_key

abbrev pub keys_of : Account → Registration
keys_of a = record { encryption_key = a.encryption_key; note_key = a.note_key }

-- No error of its own: a failed assertion is a panic.
unfoldable pub register : Auth → Account → State → Outcome ⊥ State
register auth account s = do
  require (auth account.owner)
  require (length account.encryption_key == 32)
  require (length account.note_key == 32)
  if stored_is (s.registrations account.owner) (keys_of account)
      then ok s
      else ok (record {
        registrations = update s.registrations account.owner (some (keys_of account));
        events = s.events ++ (record { owner = account.owner; keys = keys_of account } ∷ []);
      })
