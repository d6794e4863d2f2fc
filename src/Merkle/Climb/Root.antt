-- ===== src/Merkle/Climb/Root.antt =====
-- The loop computes the root of the tree with the new leaves.
use veil_server_v.Prelude.{
  ℕ, zero, suc, ◌+◌, ◌-◌, ◌*◌, ◌%◌, ◌≤◌, ◌<◌, ◌≡◌, ◌≢◌, ◌∙◌, Option, some, arith, ◌==◌, Bool-cases,
  inl, inr, ok, >>=-eq-ok, ok_or, ltb, ltb→lt,
}
use veil_server_v.Poseidon.{U256, bn256_modulus, Host, poseidon2_compress}
use veil_server_v.Poseidon.Digest.{
  IsPermutation, digest, digest-lt, poseidon2_compress-ok, poseidon2_compress-inv,
}
use veil_server_v.Merkle.Node.{
  shift, width, full, node, node_inner, node_empty, node-eq-full, shift-le-width, width-shift-suc,
}
use veil_server_v.Merkle.Climb.{Filled, climb_step, climb}
use veil_server_v.Merkle.Climb.Stored.{Stored, on_path, filled_step, filled_step-ne, filled_after}

module _ (h : Host) (empty leaf : ℕ → ℕ) (m top : ℕ) where
  -- Every value that the tree is built from is a field element.
  pub record InField : Type 0 where
    pub empty_in : (l : ℕ) → l ≤ top → empty l < bn256_modulus
    pub leaf_in : (k : ℕ) → k < m → leaf k < bn256_modulus

  pub node-lt : InField → (l p : ℕ) → l ≤ top → node (digest h) empty leaf m l p < bn256_modulus
  unfolding node
  node-lt f zero p b = elim (Bool-cases (ltb p m)) [
    | inl e ↦ rw e (f.leaf_in p (ltb→lt p m e))
    | inr e ↦ rw e (f.empty_in 0 b)
  ]
  node-lt f (suc l) p b = elim (Bool-cases (ltb p (width m (suc l)))) [
    | inl e ↦ rw e (digest-lt h _ _)
    | inr e ↦ rw e (f.empty_in (suc l) b)
  ]

module _ {E : Type 0} (h : Host) (not_initialized : E) (zeroes : ℕ → Option U256)
    (empty leaf : ℕ → ℕ) (m n top : ℕ) (law : IsPermutation h) (values : InField h empty leaf m top)
    (table : (l : ℕ) → l < top → zeroes l ≡ some (empty l)) where
  abbrev pub path_node : ℕ → ℕ
  path_node l = on_path (digest h) empty leaf m n l

  path_node-lt : (l p : ℕ) → l ≤ top → node (digest h) empty leaf m l p < bn256_modulus
  path_node-lt = node-lt h empty leaf m top values

  -- The hash of a right child with its stored sibling.
  path_node-odd :
      (l : ℕ)
      → width m l ≡ shift n l + 1
      → shift n l % 2 ≡ 1
      → digest h (full (digest h) leaf l (shift n l - 1)) (path_node l) ≡ path_node (suc l)
  path_node-odd l w odd =
      let inner =
        node_inner (digest h) empty leaf m l (shift n (suc l))
          (omega (arith, width-shift-suc m n l w)) in
      let left : 2 * shift n (suc l) ≡ shift n l - 1 = unfold shift in omega arith in
      let right : 2 * shift n (suc l) + 1 ≡ shift n l = unfold shift in omega arith in
      rw (
        inner,
        right,
        left,
        node-eq-full (digest h) empty leaf m l (shift n l - 1) (omega (arith, shift-le-width m l)),
      )

  -- The hash of a left child with the empty subtree.
  path_node-even :
      (l : ℕ)
      → width m l ≡ shift n l + 1
      → shift n l % 2 ≢ 1
      → digest h (path_node l) (empty l) ≡ path_node (suc l)
  path_node-even l w even =
      let inner =
        node_inner (digest h) empty leaf m l (shift n (suc l))
          (omega (arith, width-shift-suc m n l w)) in
      let left : 2 * shift n (suc l) ≡ shift n l = unfold shift in omega arith in
      rw (inner, left, node_empty (digest h) empty leaf m l (shift n l + 1) (omega arith))

  sibling_lt :
      (l : ℕ)
      → l < top
      → width m l ≡ shift n l + 1
      → shift n l % 2 ≡ 1
      → full (digest h) leaf l (shift n l - 1) < bn256_modulus
  sibling_lt l b w odd =
      rw
        (← node-eq-full (digest h) empty leaf m l (shift n l - 1)
          (omega (arith, shift-le-width m l)))
        (path_node-lt l (shift n l - 1) (omega arith))

  climb_step_lem :
      (filled : Filled) (l : ℕ)
      → l < top
      → width m l ≡ shift n l + 1
      → (shift n l % 2 ≡ 1 → filled l ≡ some (full (digest h) leaf l (shift n l - 1)))
      → climb_step h not_initialized zeroes filled l (path_node l) (shift n l)
        ≡ ok (path_node (suc l), filled_step (digest h) empty leaf m n filled l)
  unfolding climb_step filled_step
  climb_step_lem filled l b w st = elim (Bool-cases (shift n l % 2 == 1)) [
    | inl e ↦
        let odd : shift n l % 2 ≡ 1 = ground arith in
        rw (
          e,
          st odd,
          poseidon2_compress-ok (full (digest h) leaf l (shift n l - 1)) (path_node l) law
              (sibling_lt l b w odd) (path_node-lt l (shift n l) (omega arith)),
          path_node-odd l w odd,
        )
    | inr e ↦
        let even : shift n l % 2 ≢ 1 = ground arith in
        rw (
          e,
          table l b,
          poseidon2_compress-ok (path_node l) (empty l) law
              (path_node-lt l (shift n l) (omega arith)) (values.empty_in l (omega arith)),
          path_node-even l w even,
        )
  ]

  pub climb_lem :
      (rounds l : ℕ) (filled : Filled)
      → l + rounds ≡ top
      → width m l ≡ shift n l + 1
      → Stored (digest h) leaf n l top filled
      → climb h not_initialized zeroes rounds filled l (path_node l) (shift n l)
        ≡ ok (path_node top, filled_after (digest h) empty leaf m n rounds filled l)
  unfolding climb filled_after shift
  climb_lem zero l filled e w st = let same : l ≡ top = omega arith in rw same
  climb_lem (suc rounds) l filled e w st =
      let up : l + 1 ≡ suc l = omega arith in
      rw (climb_step_lem filled l (omega arith) w (st l (omega arith) (omega arith)), up)
        (climb_lem rounds (suc l) (filled_step (digest h) empty leaf m n filled l) (omega arith)
          (width-shift-suc m n l w)
          (λ j a b odd.
            filled_step-ne (digest h) empty leaf m n filled l j (omega arith)
            ∙ st j (omega arith) b odd))

-- A climb of at least one round gives a value for the hash of a field element alone.
pub climb-inv :
    {E : Type 0} (h : Host) (not_initialized : E) (zeroes : ℕ → Option U256) (rounds : ℕ)
    (filled : Filled) (lvl : ℕ) (hash : U256) (index : ℕ) {r : U256 × Filled}
    → 0 < rounds
    → climb h not_initialized zeroes rounds filled lvl hash index ≡ ok r
    → hash < bn256_modulus
unfolding climb climb_step
climb-inv h not_initialized zeroes zero filled lvl hash index pos e = absurd (omega arith)
climb-inv {E} h not_initialized zeroes (suc rounds) filled lvl hash index pos e =
    let (q, step, _) = >>=-eq-ok (climb_step h not_initialized zeroes filled lvl hash index) _ e in
    elim (Bool-cases (index % 2 == 1)) [
      | inl odd ↦
          let (left, _, more) = >>=-eq-ok (ok_or (filled lvl) not_initialized) _ (rw odd at step) in
          let (x, run, _) = >>=-eq-ok (poseidon2_compress {E = E} h left hash) _ more in
          (poseidon2_compress-inv h left hash run).1
      | inr even ↦
          let (z, _, more) = >>=-eq-ok (ok_or (zeroes lvl) not_initialized) _ (rw even at step) in
          let (x, run, _) = >>=-eq-ok (poseidon2_compress {E = E} h hash z) _ more in
          (poseidon2_compress-inv h hash z run).0
    ]
