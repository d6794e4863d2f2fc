-- ===== src/Merkle/Climb.antt =====
-- The loop that both contracts run to insert: from the hash of a node up to the root.
pub mod Stored
pub mod Root
use veil_server_v.Prelude.{
  ℕ, zero, suc, ◌+◌, ◌/◌, ◌%◌, Option, some, ◌==◌, if◌then◌else◌, update, Outcome, ok, ◌>>=◌, ok_or,
}
use veil_server_v.Poseidon.{U256, Host, poseidon2_compress}

abbrev pub Filled : Type 0
Filled = ℕ → Option U256

module _ {E : Type 0} (h : Host) (not_initialized : E) (zeroes : ℕ → Option U256) where
  -- One round of `for lvl in ..`: the new hash and the keys FilledSubtree.
  unfoldable pub climb_step : Filled → ℕ → U256 → ℕ → Outcome E (U256 × Filled)
  climb_step filled lvl current_hash current_index =
      if current_index % 2 == 1
      then (do
        left ← ok_or (filled lvl) not_initialized
        hash ← poseidon2_compress h left current_hash
        ok (hash, filled))
      else (do
        zero_val ← ok_or (zeroes lvl) not_initialized
        hash ← poseidon2_compress h current_hash zero_val
        ok (hash, update filled lvl (some current_hash)))

  -- `rounds` rounds from level `lvl` on.
  unfoldable pub climb : ℕ → Filled → ℕ → U256 → ℕ → Outcome E (U256 × Filled)
  climb zero filled lvl current_hash current_index = ok (current_hash, filled)
  climb (suc rounds) filled lvl current_hash current_index =
      climb_step filled lvl current_hash current_index >>= λ r.
      climb rounds r.1 (lvl + 1) r.0 (current_index / 2)
