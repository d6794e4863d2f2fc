-- ===== src/Pool/Samples.antt =====
-- A pool and a transaction for the tests.
use veil_server_v.Prelude.{◌+◌, true, none, some, List, [], ◌∷◌, ◌==◌, kept}
use veil_server_v.Prelude.Int.{pos}
use veil_server_v.Poseidon.{U256}
use veil_server_v.Poseidon.Zeroes.{zero_at}
use veil_server_v.Samples.{host}
use veil_server_v.PoolTree.{Storage, init}
use veil_server_v.Pool.Types.{Proof, ExtData, State, World}
use veil_server_v.Pool.Proofs.{hash_ext_data}

abbrev pub world : World
world = record {
  host = host;
  auth = λ a. a == 7;
  this = 100;
  to_xdr = λ e. e.encrypted_output0;
  keccak256 = λ b. b;
  carries_out = λ t ts. true;
  root_at = λ a. some (a + 1000);
  verify = λ v p inputs. some true;
}

abbrev pub blank : Storage
blank = record {
  levels = none;
  current_root_index = none;
  next_index = none;
  filled_subtree = λ l. none;
  zeroes = λ l. none;
  root = λ i. none;
}

-- A pool over an empty tree of two levels.
abbrev pub pool : State
pool = record {
  admin = some 1;
  token = some 2;
  verifier = some 3;
  nullifiers = some (λ n. none);
  asp_membership = some 50;
  asp_non_membership = some 60;
  tree = kept blank (init 2 blank);
  events = [];
  transfers = [];
}

abbrev pub payment : ExtData
payment = record {
  recipient = 9;
  ext_amount = pos 5;
  encrypted_output0 = 1 ∷ 2 ∷ [];
  encrypted_output1 = 3 ∷ [];
}

-- A proof that lists two nullifiers against a root.
abbrev pub proof_with : U256 → List U256 → Proof
proof_with root ns = record {
  proof = record { a = 1 ∷ []; b = 1 ∷ []; c = 1 ∷ [] };
  root = root;
  input_nullifiers = ns;
  output_commitment0 = 21;
  output_commitment1 = 22;
  public_amount = 5;
  ext_data_hash = hash_ext_data world payment;
  asp_membership_root = 1050;
  asp_non_membership_root = 1060;
}

abbrev pub first : Proof
first = proof_with (zero_at 2) (11 ∷ 12 ∷ [])
