-- ===== src/Prefix/Known.antt =====
-- The client's proofs against the pool's tree: contracts/pool/src/merkle_with_history.rs.
use veil_server_v.Prelude.{
  ℕ, suc, ◌<◌, ◌≡◌, ◌≢◌, sym, ◌∙◌, ap, true, List, [], ◌∷◌, some, arith, ok, contains, take,
  get_elem?, ok-injective, ne→==, length,
}
use veil_server_v.Poseidon.{U256, Host}
use veil_server_v.Merkle.Leaves.{leaf_at, merkle_root}
use veil_server_v.PoolTree.{Storage, is_known_root}
use veil_server_v.PoolTree.Tree.{Tree}
use veil_server_v.PoolTree.Known.{is_known_root-Tree}
use veil_server_v.Prefix.{MerklePrefixTree, MerkleProof, new, build, prefix_root, proof}
use veil_server_v.Prefix.Root.{IsZeroChain, fresh_tree, new-ok, prefix_root-eq-merkle_root}
use veil_server_v.Prefix.Path.{fold_path, proof-ok}

first-contained :
    (r : U256) (n : ℕ) (xs : List U256)
    → get_elem? xs 0 ≡ some r
    → contains r (take (suc n) xs) ≡ true
first-contained r n [] at = cc
first-contained r n (x ∷ xs) at = ground (arith, at)

newest_is_known :
    {h : Host} {levels : ℕ} {leaves history : List U256} {s : Storage}
    → Tree h levels leaves history s
    → merkle_root h levels leaves ≢ 0
    → is_known_root (merkle_root h levels leaves) s ≡ ok true
newest_is_known {h} {levels} {leaves} {history} tree set =
    is_known_root-Tree (merkle_root h levels leaves) tree
    ∙ rw (ne→== (merkle_root h levels leaves) 0 set)
        (ap ok (first-contained _ 89 history tree.newest))

-- A client that has the leaves of the pool's tree gets a proof for each of them: its siblings lead from
-- the leaf to a root that the pool knows. The root is taken not to be zero, and the zero table to be
-- the chain of hashes from the zero leaf on.
pub client_proof-is_known_root :
    {h : Host} {levels : ℕ} {leaves history : List U256} {s : Storage} (index : ℕ)
    → Tree h levels leaves history s
    → IsZeroChain h levels
    → merkle_root h levels leaves ≢ 0
    → index < length leaves
    → (t : MerklePrefixTree) × (new h levels leaves ≡ ok t)
      × (p : MerkleProof) × (proof (build h t) index ≡ ok p)
      × (fold_path h (leaf_at leaves index) p.path_elements p.path_indices ≡ p.root)
      × (is_known_root p.root s ≡ ok true)
client_proof-is_known_root {h} {levels} {leaves} {history} {s} index tree chain set lt =
    let (p, run, _, _, _, same, leads) =
      proof-ok h levels leaves index tree.levels_pos tree.levels_max lt tree.next_fits in
    let (t, made, is_root, _) =
      prefix_root-eq-merkle_root h levels leaves tree.levels_pos tree.levels_max chain in
    let fresh = new-ok h levels leaves tree.levels_pos tree.levels_max in
    let root_is : p.root ≡ merkle_root h levels leaves =
      same ∙ ap (prefix_root h) (ok-injective (sym fresh ∙ made)) ∙ is_root in
    (
      fresh_tree h levels leaves,
      fresh,
      p,
      run,
      leads,
      ap (λ x. is_known_root x s) root_is ∙ newest_is_known tree set,
    )
