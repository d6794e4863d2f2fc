-- ===== src/PoolTree/Window.antt =====
-- Runs of insertions: the window of known roots that the header of merkle_with_history.rs promises.
use veil_server_v.Prelude.{
  ℕ, suc, ◌+◌, ◌*◌, ◌^◌, ◌≤◌, ◌<◌, ◌≡◌, ◌≢◌, refl, ◌∙◌, true, false, ◌&&◌, not, some, List, [], ◌∷◌,
  ◌++◌, arith, length, get_elem?, length-append, take, contains, ◌==◌, Outcome, ok, ◌>>=◌,
  Bool-cases, inl, inr, ap, contains-take-false,
}
use veil_server_v.Poseidon.{U256, bn256_modulus, Host}
use veil_server_v.Poseidon.Digest.{IsPermutation}
use veil_server_v.PoolTree.{Error, Storage, root_history_size, insert_two_leaves, is_known_root}
use veil_server_v.Merkle.Leaves.{merkle_root}
use veil_server_v.PoolTree.Tree.{Tree}
use veil_server_v.PoolTree.Insert.{insert_two_leaves_refines}
use veil_server_v.PoolTree.Known.{is_known_root-Tree}

-- The insertions that the pool makes, one for each pair of outputs.
unfoldable pub insert_pairs : Host → List (U256 × U256) → Storage → Outcome Error Storage
insert_pairs h [] s = ok s
insert_pairs h ((a, b) ∷ ps) s = insert_two_leaves h a b s >>= λ r. insert_pairs h ps r.1

abbrev pub PairsInField : List (U256 × U256) → Type 0
PairsInField [] = Unit {0}
PairsInField ((a, b) ∷ ps) = (a < bn256_modulus) × (b < bn256_modulus) × PairsInField ps

-- What a run has made of a tree with `n` leaves and this history.
record Ran (h : Host) (levels n k : ℕ) (history : List U256) (t : Storage) : Type 0 where
  leaves' : List U256
  history' : List U256
  count : length leaves' ≡ n + 2 * k
  older : (j : ℕ) → get_elem? history' (k + j) ≡ get_elem? history j
  tree : Tree h levels leaves' history' t

insert_pairs-Ran :
    {h : Host} {levels : ℕ} (ps : List (U256 × U256)) (leaves history : List U256) (s : Storage)
    → IsPermutation h
    → Tree h levels leaves history s
    → PairsInField ps
    → length leaves + 2 * length ps ≤ 2 ^ levels
    → (t : Storage) × (insert_pairs h ps s ≡ ok t)
      × Ran h levels (length leaves) (length ps) history t
unfolding insert_pairs
insert_pairs-Ran [] leaves history s law tree f room = (
  s,
  refl,
  record {
    leaves' = leaves;
    history' = history;
    count = omega arith;
    older = λ j. ap (get_elem? history) (omega arith);
    tree = tree;
  },
)
insert_pairs-Ran {h} {levels} ((a, b) ∷ ps) leaves history s law tree f room =
    let (s', one, tree') = insert_two_leaves_refines a b law tree f.0 f.1 (omega arith) in
    let grown = length-append leaves (a ∷ b ∷ []) in
    let (t, run, r) =
      insert_pairs-Ran ps (leaves ++ (a ∷ b ∷ []))
        (merkle_root h levels (leaves ++ (a ∷ b ∷ [])) ∷ history) s' law tree' f.2 (omega arith) in
    (
      t,
      rw one run,
      record {
        leaves' = r.leaves';
        history' = r.history';
        count = omega (arith, r.count);
        older = λ j.
            let e : suc (length ps) + j ≡ length ps + suc j = omega arith in rw e (r.older (suc j));
        tree = r.tree;
      },
    )

-- A root that is not zero stays known through the next 89 insertions of field elements that fit.
pub known_for_89_insertions :
    {h : Host} {levels : ℕ} {leaves history : List U256} {s : Storage} (ps : List (U256 × U256))
    → IsPermutation h
    → Tree h levels leaves history s
    → PairsInField ps
    → length leaves + 2 * length ps ≤ 2 ^ levels
    → length ps < root_history_size
    → merkle_root h levels leaves ≢ 0
    → (t : Storage) × (insert_pairs h ps s ≡ ok t)
      × (is_known_root (merkle_root h levels leaves) t ≡ ok true)
known_for_89_insertions {h} {levels} {leaves} {history} {s} ps law tree f room few nonzero =
    let (t, run, r) = insert_pairs-Ran ps leaves history s law tree f room in
    let e : length ps + 0 ≡ length ps = omega arith in
    let at = rw e at (r.older 0) ∙ tree.newest in
    (t, run, is_known_root-Tree (merkle_root h levels leaves) r.tree ∙ ap ok (seen r.history' at))
  where
    not_zero : (merkle_root h levels leaves == 0) ≡ false
    not_zero = ground arith

    seen :
        (history' : List U256)
        → get_elem? history' (length ps) ≡ some (merkle_root h levels leaves)
        → (not (merkle_root h levels leaves == 0)
            && contains (merkle_root h levels leaves) (take root_history_size history'))
          ≡ true
    seen history' at =
        elim (Bool-cases
          (contains (merkle_root h levels leaves) (take root_history_size history'))) [
            | inl y ↦ rw (not_zero, y)
            | inr n ↦ absurd (
                contains-take-false (merkle_root h levels leaves) root_history_size history'
                  (length ps) n few at)
          ]
