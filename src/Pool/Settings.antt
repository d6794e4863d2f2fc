-- ===== src/Pool/Settings.antt =====
-- The constructor, the settings of the administrator and the read-only entry points of pool.rs.
use veil_server_v.Prelude.{
  ℕ, Bool, none, some, Outcome, ok, ◌>>=◌, ◌>>◌, ok_or, is_set, ensure, require,
}
use veil_server_v.Poseidon.{U256}
use veil_server_v.Admin
use veil_server_v.Admin.{Address, Auth}
use veil_server_v.PoolTree
use veil_server_v.Pool.Types.{Error, not_initialized, lift, State}

unfoldable pub constructor :
    Address → Address → Address → Address → Address → ℕ → State → Outcome Error State
constructor admin token verifier asp_membership asp_non_membership levels s = do
  tree ← lift (PoolTree.init levels s.tree)
  ok (record s {
    admin = some admin;
    token = some token;
    verifier = some verifier;
    asp_membership = some asp_membership;
    asp_non_membership = some asp_non_membership;
    nullifiers = some (λ n. none);
    tree = tree;
  })

unfoldable pub get_admin : State → Outcome Error Address
get_admin s = ok_or s.admin not_initialized

unfoldable pub update_admin : Auth → Address → State → Outcome Error State
update_admin auth new_admin s = do
  ensure (is_set s.admin) not_initialized
  admin ← Admin.update_admin auth s.admin new_admin
  ok (record s { admin = admin })

unfoldable pub update_asp_membership : Auth → Address → State → Outcome Error State
unfolding get_admin
update_asp_membership auth new_asp_membership s = do
  admin ← get_admin s
  require (auth admin)
  ok (record s { asp_membership = some new_asp_membership })

unfoldable pub update_asp_non_membership : Auth → Address → State → Outcome Error State
unfolding get_admin
update_asp_non_membership auth new_asp_non_membership s = do
  admin ← get_admin s
  require (auth admin)
  ok (record s { asp_non_membership = some new_asp_non_membership })

unfoldable pub get_root : State → Outcome Error U256
get_root s = lift (PoolTree.get_last_root s.tree)

unfoldable pub is_known_root : U256 → State → Outcome Error Bool
is_known_root root s = lift (PoolTree.is_known_root root s.tree)
