-- ===== src/PoolTree/Append.antt =====
-- Whatever `insert_two_leaves` accepts, it appends.
use veil_server_v.Prelude.{
  ℕ, ◌+◌, ◌%◌, ◌^◌, ◌≤◌, ◌<◌, ◌≡◌, sym, ◌∙◌, subst, ap, true, List, [], ◌∷◌, ◌++◌, arith, length,
  ◌==◌, leb, lt→ltb, ok, >>=-eq-ok, ok-injective,
}
use native.Mathlib.Nat.{pow-le-pow_right}
use native.Mathlib.Decide.{dec_le}
use veil_server_v.Poseidon.{U256, bn256_modulus, Host, poseidon2_compress}
use veil_server_v.Poseidon.Digest.{IsPermutation, poseidon2_compress-inv}
use veil_server_v.Merkle.Leaves.{merkle_root}
use veil_server_v.PoolTree.{Error, Storage, insert_two_leaves}
use veil_server_v.PoolTree.Tree.{Tree}
use veil_server_v.PoolTree.Insert.{insert_two_leaves_refines, insert_two_leaves-full}

insert_two_leaves-room :
    {h : Host} (a b : U256) {levels : ℕ} {leaves history : List U256} {s : Storage}
    {r : (ℕ × ℕ) × Storage}
    → Tree h levels leaves history s
    → insert_two_leaves h a b s ≡ ok r
    → length leaves + 2 ≤ 2 ^ levels
insert_two_leaves-room a b {levels} {leaves} tree e =
    elim (dec_le (length leaves + 2) (2 ^ levels)) [
      | yes room ↦ room
      | no none_left ↦ cc (insert_two_leaves-full a b tree (omega arith))
    ]

insert_two_leaves-inv :
    {h : Host} (a b : U256) {levels : ℕ} {leaves history : List U256} {s : Storage}
    {r : (ℕ × ℕ) × Storage}
    → Tree h levels leaves history s
    → insert_two_leaves h a b s ≡ ok r
    → (a < bn256_modulus) × (b < bn256_modulus)
unfolding insert_two_leaves
insert_two_leaves-inv {h} a b {levels} {leaves} tree e =
    let room = insert_two_leaves-room a b tree e in
    let small : 2 ^ levels ≤ 2 ^ 32 = pow-le-pow_right (omega arith) tree.levels_max in
    let (x, run, _) = >>=-eq-ok (poseidon2_compress {E = Error} h a b) _ (
      simp
        (
          tree.levels_set,
          tree.next_set,
          tree.current_set,
          lt→ltb levels 64 (omega (arith, tree.levels_max)),
          even,
          lt→ltb (length leaves + 2) (2 ^ 64) (omega arith),
          fits room,
        )
        at e) in
    poseidon2_compress-inv h a b run
  where
    even : (length leaves % 2 == 0) ≡ true
    even = ground (arith, tree.next_even)

    fits : length leaves + 2 ≤ 2 ^ levels → leb (length leaves + 2) (2 ^ levels) ≡ true
    fits room = ground arith

-- Two leaves that a tree accepts are field elements, get the next two indices, and are appended; the
-- root over all leaves becomes the newest of the history.
pub insert_two_leaves-appends :
    {h : Host} (a b : U256) {levels : ℕ} {leaves history : List U256} {s t : Storage} {i j : ℕ}
    → IsPermutation h
    → Tree h levels leaves history s
    → insert_two_leaves h a b s ≡ ok ((i, j), t)
    → (i ≡ length leaves)
      × (j ≡ length leaves + 1)
      × Tree h levels
          (leaves ++ (a ∷ b ∷ []))
          (merkle_root h levels (leaves ++ (a ∷ b ∷ [])) ∷ history)
          t
insert_two_leaves-appends {h} a b {levels} {leaves} {history} {s} {t} law tree e =
    let (ha, hb) = insert_two_leaves-inv a b tree e in
    let (u, run, grown) =
      insert_two_leaves_refines a b law tree ha hb (insert_two_leaves-room a b tree e) in
    let same = ok-injective (sym e ∙ run) in
    (
      ap (λ (r : (ℕ × ℕ) × Storage). (r.0).0) same,
      ap (λ (r : (ℕ × ℕ) × Storage). (r.0).1) same,
      subst
          (Tree h levels (leaves ++ (a ∷ b ∷ []))
            (merkle_root h levels (leaves ++ (a ∷ b ∷ [])) ∷ history))
          (sym (ap (λ (r : (ℕ × ℕ) × Storage). r.1) same)) grown,
    )
