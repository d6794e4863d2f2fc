-- ===== src/NonMembership/Tree.antt =====
-- The specification of the sparse Merkle tree: a binary tree with entries at its leaves. A key goes
-- right where its bit is set, from the lowest bit on; `f key` is the key shifted to a level's bit.
pub mod Hashes
pub mod Apart
pub mod Fresh
pub mod Round
pub mod JoinClimb
pub mod Climb
pub mod Descent
pub mod Lookup
pub mod Refines
pub mod Accepts
pub mod Proofs
pub mod Roundtrip
pub mod Insert
use veil_server_v.Prelude.{
  ℕ, zero, suc, ◌+◌, ◌/◌, ◌%◌, ◌≤◌, ◌<◌, ◌≡◌, ◌≢◌, ◌⊎◌, Bool, true, false, Option, some, List, [],
  ◌∷◌, ◌==◌, if◌then◌else◌, get_or,
}
use veil_server_v.Poseidon.{U256, bn256_modulus, Host, hash2_state}
use veil_server_v.Poseidon.Digest.{digest}
use veil_server_v.NonMembership.{Nodes, FindResult, State, empty_result, leaf_result, push_sibling}
use veil_server_v.NonMembership.Insert.{bits_eq}

pub data Smt : Type 0 where
  empty : Smt
  entry : U256 → U256 → Smt
  fork : Smt → Smt → Smt

unfoldable pub leaf_hash : Host → U256 → U256 → U256
leaf_hash h key value = get_or (hash2_state h key value 1) 0 0

abbrev pub root_of : Host → Smt → U256
root_of h empty = 0
root_of h (entry key value) = leaf_hash h key value
root_of h (fork l r) = digest h (root_of h l) (root_of h r)

-- Every key of the tree has the property.
abbrev pub Keys {ℓ} : (U256 → Type ℓ) → Smt → Type ℓ
Keys P empty = Unit
Keys P (entry key value) = P key
Keys P (fork l r) = Keys P l × Keys P r

abbrev pub count : Smt → ℕ
count empty = 0
count (entry key value) = 1
count (fork l r) = count l + count r

abbrev pub size : Smt → ℕ
size empty = 0
size (entry key value) = 1
size (fork l r) = size l + size r + 1

-- Keys and values are field elements.
abbrev pub InField : Smt → Type 0
InField empty = Unit
InField (entry key value) = (key < bn256_modulus) × (value < bn256_modulus)
InField (fork l r) = InField l × InField r

-- A fork stands above two entries or more.
abbrev pub IsProper : Smt → Type 0
IsProper empty = Unit
IsProper (entry key value) = Unit
IsProper (fork l r) = (2 ≤ count l + count r) × IsProper l × IsProper r

abbrev pub odd : ℕ → Bool
odd x = x % 2 == 1

abbrev pub half : (U256 → ℕ) → U256 → ℕ
half f k = f k / 2

-- Every entry stands on the path of its key, on which `m` bits are left.
abbrev pub IsPlaced : ℕ → (U256 → ℕ) → Smt → Type 0
IsPlaced m f empty = Unit
IsPlaced m f (entry key value) = Unit
IsPlaced zero f (fork l r) = ⊥
IsPlaced (suc m) f (fork l r) =
    Keys (λ k. odd (f k) ≡ false) l
    × Keys (λ k. odd (f k) ≡ true) r
    × IsPlaced m (half f) l
    × IsPlaced m (half f) r

-- Every node of the tree is stored under its hash.
abbrev pub Stored : Host → Nodes → Smt → Type 0
Stored h nodes empty = Unit
Stored h nodes (entry key value) = nodes (leaf_hash h key value) ≡ some (1 ∷ key ∷ value ∷ [])
Stored h nodes (fork l r) =
    (nodes (digest h (root_of h l) (root_of h r)) ≡ some (root_of h l ∷ root_of h r ∷ []))
    × Stored h nodes l
    × Stored h nodes r

-- The hashes do not collide on the tree: `read` tells each of its subtrees from its hash.
abbrev pub Decodes : Host → (U256 → Smt) → Smt → Type 0
Decodes h read empty = Unit
Decodes h read (entry key value) = read (leaf_hash h key value) ≡ entry key value
Decodes h read (fork l r) =
    (read (digest h (root_of h l) (root_of h r)) ≡ fork l r) × Decodes h read l × Decodes h read r

-- No node of the tree has the hash.
abbrev pub Avoids : Host → U256 → Smt → Type 0
Avoids h x empty = Unit
Avoids h x (entry key value) = leaf_hash h key value ≢ x
Avoids h x (fork l r) = (digest h (root_of h l) (root_of h r) ≢ x) × Avoids h x l × Avoids h x r

-- The search for a key, with its bits from this level on.
unfoldable pub search : Host → U256 → List Bool → Smt → FindResult
search h key bits empty = empty_result key
search h key bits (entry k v) = leaf_result key k v
search h key [] (fork l r) = empty_result key
search h key (b ∷ bits) (fork l r) = elim b [
  | true ↦ push_sibling (root_of h l) (search h key bits r)
  | false ↦ push_sibling (root_of h r) (search h key bits l)
]

-- The entry of a key and a new one, parted at the first bit at which they differ.
unfoldable pub join : ℕ → (U256 → ℕ) → U256 → U256 → U256 → U256 → Smt
join zero f k v key value = fork (entry k v) (entry key value)
join (suc m) f k v key value =
    let deeper = join m (half f) k v key value in
    if bits_eq (odd (f k)) (odd (f key))
    then (if odd (f key) then fork empty deeper else fork deeper empty)
    else if odd (f key)
    then fork (entry k v) (entry key value)
    else fork (entry key value) (entry k v)

unfoldable pub insert : ℕ → (U256 → ℕ) → U256 → U256 → Smt → Smt
insert m f key value empty = entry key value
insert m f key value (entry k v) = join m f k v key value
insert zero f key value (fork l r) = fork l r
insert (suc m) f key value (fork l r) = elim (odd (f key)) [
  | true ↦ fork l (insert m (half f) key value r)
  | false ↦ fork (insert m (half f) key value l) r
]

-- Two numbers differ in one of their `m` low bits.
abbrev pub Differs : ℕ → ℕ → ℕ → Type 0
Differs zero x y = ⊥
Differs (suc m) x y = if bits_eq (odd x) (odd y) then Differs m (x / 2) (y / 2) else Unit {0}

-- The tree has the entry.
abbrev pub Has : U256 → U256 → Smt → Type 0
Has key value empty = ⊥
Has key value (entry k v) = (k ≡ key) × (v ≡ value)
Has key value (fork l r) = Has key value l ⊎ Has key value r

-- The state holds the tree, whose hashes `read` tells apart.
pub record Holds (h : Host) (read : U256 → Smt) (t : Smt) (s : State) : Type 0 where
  pub root_set : s.root ≡ some (root_of h t)
  pub placed : IsPlaced 256 (λ k. k) t
  pub proper : IsProper t
  pub fits : InField t
  pub reads : Decodes h read t
  pub stored : Stored h s.nodes t
