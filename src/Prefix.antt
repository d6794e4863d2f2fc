-- ===== src/Prefix.antt =====
-- app/crates/core/prover/src/merkle.rs: the Merkle tree that the client builds over the leaves it has
-- seen, and the proofs for them, with the compression of circuits/src/core/merkle.rs.
pub mod Levels
pub mod Root
pub mod Path
pub mod Known
mod Tests
use veil_server_v.Prelude.{
  ℕ, zero, suc, ◌+◌, ◌-◌, ◌*◌, ◌/◌, ◌%◌, ◌^◌, Bool, true, false, ◌||◌, List, [], ◌∷◌, ◌==◌, leb,
  ltb, if◌then◌else◌, length, get_or, Outcome, ok, err, ◌>>=◌, ◌>>◌, ensure,
}
use veil_server_v.Poseidon.{U256, bn256_modulus, Host, compress_state}

pub data Error : Type 0 where
  wrong_depth index_out_of_range field_element_out_of_range : Error

-- The permutation of the client is a library's, and the same as the host's.
unfoldable pub poseidon2_compression : Host → U256 → U256 → U256
poseidon2_compression h left right =
    (get_or (compress_state h left right) 0 0 + left) % bn256_modulus

unfoldable pub hash_pair : Host → U256 → U256 → U256
hash_pair h left right = poseidon2_compression h left right

unfoldable pub zero_leaf : U256
zero_leaf = 0x25302288db99350344974183ce310d63b53abb9ef0f8575753eed36e0118f9ce

unfoldable pub try_from_u256 : U256 → Outcome Error U256
try_from_u256 v = if leb bn256_modulus v then err field_element_out_of_range else ok v

-- `empty[level]` is the node above no leaf. It has an entry for each level and one for the root, so
-- that no index of it is out of range.
pub record MerklePrefixTree : Type 0 where
  pub depth : ℕ
  pub leaves : List U256
  pub empty : List U256

pub record MerklePrefixTreeBuilt : Type 0 where
  pub depth : ℕ
  pub empty : List U256
  pub levels : List (List U256)

pub record MerkleProof : Type 0 where
  pub path_elements : List U256
  pub path_indices : U256
  pub root : U256
  pub levels : ℕ

-- The node above no leaf, and those of the levels above it.
unfoldable pub empty_chain : Host → ℕ → U256 → List U256
empty_chain h zero e = e ∷ []
empty_chain h (suc n) e = e ∷ empty_chain h n (hash_pair h e e)

unfoldable pub new : Host → ℕ → List U256 → Outcome Error MerklePrefixTree
new h depth leaves = do
  ensure (if (depth == 0) || ltb 32 depth then false else true) wrong_depth
  zero_node ← try_from_u256 zero_leaf
  ok (record { depth = depth; leaves = leaves; empty = empty_chain h depth zero_node })

unfoldable pub padded : U256 → List U256 → List U256
padded e [] = e ∷ []
padded e (x ∷ xs) = x ∷ xs

-- The first `n` values of a function, from the index `i` on.
unfoldable pub collect : (ℕ → U256) → ℕ → ℕ → List U256
collect f i zero = []
collect f i (suc n) = f i ∷ collect f (suc i) n

unfoldable pub next_level : Host → U256 → List U256 → List U256
next_level h e nodes =
    collect (λ i. hash_pair h (get_or nodes (2 * i) e) (get_or nodes (2 * i + 1) e)) 0
      ((length nodes + 1) / 2)

-- `for level in 0..depth` from `level` on, with `n` levels left.
unfoldable pub build_levels : Host → List U256 → ℕ → ℕ → List U256 → List (List U256)
build_levels h empty zero level nodes = nodes ∷ []
build_levels h empty (suc n) level nodes =
    let e : U256 = get_or empty level 0 in
    let here : List U256 = padded e nodes in
    here ∷ build_levels h empty n (suc level) (next_level h e here)

unfoldable pub build_from_parts : Host → ℕ → List U256 → List U256 → MerklePrefixTreeBuilt
build_from_parts h depth leaves empty = record {
  depth = depth;
  empty = empty;
  levels = build_levels h empty depth 0 leaves;
}

unfoldable pub build : Host → MerklePrefixTree → MerklePrefixTreeBuilt
build h t = build_from_parts h t.depth t.leaves t.empty

-- The loop of `MerklePrefixTree::root`.
unfoldable pub root_loop : Host → List U256 → ℕ → ℕ → List U256 → List U256
root_loop h empty zero level nodes = nodes
root_loop h empty (suc n) level nodes =
    let e : U256 = get_or empty level 0 in
    root_loop h empty n (suc level) (next_level h e (padded e nodes))

unfoldable pub prefix_root : Host → MerklePrefixTree → U256
prefix_root h t = get_or (root_loop h t.empty t.depth 0 t.leaves) 0 (get_or t.empty t.depth 0)

unfoldable pub leaf_count : MerklePrefixTreeBuilt → ℕ
leaf_count b = length (get_or b.levels 0 [])

unfoldable pub built_root : MerklePrefixTreeBuilt → U256
built_root b = get_or (get_or b.levels b.depth []) 0 (get_or b.empty b.depth 0)

-- index ^ 1
unfoldable pub xor_one : ℕ → ℕ
xor_one i = if i % 2 == 0 then i + 1 else i - 1

-- The loop of `proof` from `level` on, with `n` levels left: the siblings and the bits. The bit that
-- is set is not set before, so that the disjunction is a sum.
unfoldable pub proof_loop : MerklePrefixTreeBuilt → ℕ → ℕ → ℕ → ℕ → List U256 × ℕ
proof_loop b zero level current bits = ([], bits)
proof_loop b (suc n) level current bits =
    let sib : U256 = get_or (get_or b.levels level []) (xor_one current) (get_or b.empty level 0) in
    let set : ℕ = if current % 2 == 0 then bits else bits + 2 ^ level in
    let rest : List U256 × ℕ = proof_loop b n (suc level) (current / 2) set in
    (sib ∷ rest.0, rest.1)

unfoldable pub proof : MerklePrefixTreeBuilt → ℕ → Outcome Error MerkleProof
proof b index = do
  ensure (ltb index (leaf_count b)) index_out_of_range
  let (path_elements, path_indices_bits) = proof_loop b b.depth 0 index 0
  path_indices ← try_from_u256 path_indices_bits
  ok (record {
    path_elements = path_elements;
    path_indices = path_indices;
    root = built_root b;
    levels = b.depth;
  })
