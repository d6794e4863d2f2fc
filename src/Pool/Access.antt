-- ===== src/Pool/Access.antt =====
-- Who may change the settings of the pool, and the state that the constructor makes.
mod Tests
use veil_server_v.Prelude.{
  ℕ, ◌<◌, ◌≤◌, ◌≡◌, refl, Bool, true, false, ◌⊎◌, Option, none, some, List, [], ◌∷◌, arith, Outcome,
  ok, is_set,
}
use veil_server_v.Poseidon.{U256, Host}
use veil_server_v.Poseidon.Zeroes.{zero_at}
use veil_server_v.Admin
use veil_server_v.Admin.{Address, Auth}
use veil_server_v.PoolTree.Tree.{Tree}
use veil_server_v.PoolTree.Init.{init-Tree}
use veil_server_v.Pool.Types.{Error, State, lift, addresses}
use veil_server_v.Pool.Nullifiers.{is_spent}
use veil_server_v.Pool.Settings.{
  constructor, get_admin, update_admin, update_asp_membership, update_asp_non_membership,
}

-- On a storage with no roots, the constructor with 1 to 32 levels makes a pool whose tree has no
-- leaves, in which no nullifier is spent, with the addresses given.
pub constructor-makes_pool :
    (h : Host) (admin token verifier member non_member : Address) (levels : ℕ) (s : State)
    → 0 < levels
    → levels ≤ 32
    → s.tree.current_root_index ≡ none
    → ((i : ℕ) → s.tree.root i ≡ none)
    → (t : State) × (constructor admin token verifier member non_member levels s ≡ ok t)
      × Tree h levels [] (zero_at levels ∷ []) t.tree
      × ((n : U256) → is_spent n t ≡ ok false)
      × (addresses t ≡ (some admin, some token, some verifier, some member, some non_member))
unfolding constructor lift is_spent
constructor-makes_pool h admin token verifier member non_member levels s pos small unset no_root =
    let (tree, run, holds) = init-Tree h levels s.tree pos small unset no_root in
    (
      record s {
        admin = some admin;
        token = some token;
        verifier = some verifier;
        asp_membership = some member;
        asp_non_membership = some non_member;
        nullifiers = some (λ n. none);
        tree = tree;
      },
      rw run,
      holds,
      λ n. refl,
      refl,
    )

-- A change of the administrator or of an ASP contract that succeeds was authorised by the
-- administrator.
pub admin_settings-authorised :
    (auth : Auth) (a : Address) (s t : State)
    → (update_admin auth a s ≡ ok t)
      ⊎ (update_asp_membership auth a s ≡ ok t)
      ⊎ (update_asp_non_membership auth a s ≡ ok t)
    → (admin : Address) × (s.admin ≡ some admin) × (auth admin ≡ true)
unfolding update_admin update_asp_membership update_asp_non_membership Admin.update_admin is_set
admin_settings-authorised auth a s t e = ground arith
