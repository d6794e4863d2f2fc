-- ===== src/Prefix/Tests.antt =====
-- Runs of the client's tree, and its theorems at concrete inputs.
use veil_server_v.Prelude.{
  zero, suc, ◌+◌, ◌-◌, ◌≡◌, refl, [], ◌∷◌, arith, length, ok, ◌≢◌, ◌<◌, none, true,
}
use veil_server_v.Poseidon.{bn256_modulus, Host, get_zeroes}
use veil_server_v.Prefix.Known.{client_proof-is_known_root}
use veil_server_v.PoolTree.{Storage, init, insert_two_leaves, is_known_root}
use veil_server_v.PoolTree.Tree.{Tree}
use veil_server_v.PoolTree.Init.{init-Tree}
use veil_server_v.PoolTree.Insert.{insert_two_leaves_refines}
use veil_server_v.Merkle.Node.{node, width}
use veil_server_v.Poseidon.Digest.{IsPermutation, digest}
use veil_server_v.Poseidon.Zeroes.{zero_at}
use veil_server_v.Samples.{host}
use veil_server_v.Merkle.Leaves.{leaf_at, merkle_root}
use veil_server_v.Prefix.{
  MerklePrefixTree, MerkleProof, new, build, prefix_root, built_root, leaf_count, proof,
  build_from_parts, build_levels, padded,
}
use veil_server_v.Prefix.Root.{IsZeroChain, fresh_tree, prefix_root-eq-merkle_root}
use veil_server_v.Prefix.Path.{fold_path, proof-ok}

-- A host whose compression takes the first entry of the zero table to the second.
abbrev chain_host : Host
chain_host = record {
  permutation = λ inputs t d rounds_f rounds_p diagonal.
      (0x21f4ea2492ade006a8ee7fb764060a95a4eef5ca931e037bcdf05fc28067d008 + bn256_modulus
        - 0x25302288db99350344974183ce310d63b53abb9ef0f8575753eed36e0118f9ce)
      ∷ 0
      ∷ [];
}

one_link : IsZeroChain chain_host 1
unfolding zero_at get_zeroes digest bn256_modulus
one_link zero below = refl
one_link (suc l) below = absurd (omega (arith, below))

prefix_root-eq-merkle_root_example :
    (t : MerklePrefixTree) × (new chain_host 1 (7 ∷ []) ≡ ok t)
    × (prefix_root chain_host t ≡ merkle_root chain_host 1 (7 ∷ []))
    × (built_root (build chain_host t) ≡ merkle_root chain_host 1 (7 ∷ []))
prefix_root-eq-merkle_root_example =
    prefix_root-eq-merkle_root chain_host 1 (7 ∷ []) (omega arith) (omega arith) one_link

proof-ok_example :
    (p : MerkleProof) × (proof (build host (fresh_tree host 2 (7 ∷ 9 ∷ 11 ∷ []))) 2 ≡ ok p)
    × (p.path_indices ≡ 2)
    × (p.levels ≡ 2)
    × (length p.path_elements ≡ 2)
    × (p.root ≡ prefix_root host (fresh_tree host 2 (7 ∷ 9 ∷ 11 ∷ [])))
    × (fold_path host (leaf_at (7 ∷ 9 ∷ 11 ∷ []) 2) p.path_elements p.path_indices ≡ p.root)
proof-ok_example =
    proof-ok host 2 (7 ∷ 9 ∷ 11 ∷ []) 2 (omega arith) (omega arith) (omega arith) (omega arith)

chain_host-IsPermutation : IsPermutation chain_host
unfolding bn256_modulus
chain_host-IsPermutation = record { width = λ l r hl hr. refl; in_field = λ l r hl hr. omega arith }

field_size : 100 < bn256_modulus
unfolding bn256_modulus
field_size = omega arith

abbrev blank : Storage
blank = record {
  levels = none;
  current_root_index = none;
  next_index = none;
  filled_subtree = λ l. none;
  zeroes = λ l. none;
  root = λ i. none;
}

abbrev of_init : (t : Storage) × (init 1 blank ≡ ok t) × Tree chain_host 1 [] (zero_at 1 ∷ []) t
of_init = init-Tree chain_host 1 blank (omega arith) (omega arith) refl (λ i. refl)

abbrev of_pair :
    (t : Storage) × (insert_two_leaves chain_host 5 6 of_init.0 ≡ ok ((0, 1), t))
    × Tree chain_host 1 (5 ∷ 6 ∷ []) (merkle_root chain_host 1 (5 ∷ 6 ∷ []) ∷ zero_at 1 ∷ []) t
of_pair =
    insert_two_leaves_refines 5 6 chain_host-IsPermutation of_init.2 (omega (arith, field_size))
      (omega (arith, field_size)) (omega arith)

root_is_set : merkle_root chain_host 1 (5 ∷ 6 ∷ []) ≢ 0
unfolding merkle_root node width digest bn256_modulus
root_is_set = omega arith

client_proof-is_known_root_example :
    (t : MerklePrefixTree) × (new chain_host 1 (5 ∷ 6 ∷ []) ≡ ok t)
    × (p : MerkleProof) × (proof (build chain_host t) 1 ≡ ok p)
    × (fold_path chain_host (leaf_at (5 ∷ 6 ∷ []) 1) p.path_elements p.path_indices ≡ p.root)
    × (is_known_root p.root of_pair.0 ≡ ok true)
client_proof-is_known_root_example =
    client_proof-is_known_root 1 of_pair.2 one_link root_is_set (omega arith)

-- The built tree over no leaf counts one.
no_leaf_counts_one : leaf_count (build host (fresh_tree host 2 [])) ≡ 1
unfolding leaf_count build build_from_parts build_levels padded
no_leaf_counts_one = refl
