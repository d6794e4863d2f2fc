-- ===== src/Pool/Access/Tests.antt =====
-- The constructor and the settings of the pool at concrete inputs.
use veil_server_v.Prelude.{
  ◌≡◌, refl, true, false, inl, none, some, [], ◌∷◌, arith, ◌==◌, ok, is_set,
}
use veil_server_v.Poseidon.{U256}
use veil_server_v.Poseidon.Zeroes.{zero_at}
use veil_server_v.Samples.{host}
use veil_server_v.Admin
use veil_server_v.Admin.{Address}
use veil_server_v.PoolTree.Tree.{Tree}
use veil_server_v.Pool.Types.{State, addresses}
use veil_server_v.Pool.Nullifiers.{is_spent}
use veil_server_v.Pool.Settings.{constructor, update_admin}
use veil_server_v.Pool.Access.{constructor-makes_pool, admin_settings-authorised}

abbrev bare : State
bare = record {
  admin = none;
  token = none;
  verifier = none;
  nullifiers = none;
  asp_membership = none;
  asp_non_membership = none;
  tree = record {
    levels = none;
    current_root_index = none;
    next_index = none;
    filled_subtree = λ l. none;
    zeroes = λ l. none;
    root = λ i. none;
  };
  events = [];
  transfers = [];
}

constructor-makes_pool_example :
    (t : State) × (constructor 1 2 3 4 5 20 bare ≡ ok t)
    × Tree host 20 [] (zero_at 20 ∷ []) t.tree
    × ((n : U256) → is_spent n t ≡ ok false)
    × (addresses t ≡ (some 1, some 2, some 3, some 4, some 5))
constructor-makes_pool_example =
    constructor-makes_pool host 1 2 3 4 5 20 bare (omega arith) (omega arith) refl (λ i. refl)

abbrev owned : State
owned = record bare { admin = some 1 }

handed_over : update_admin (λ a. a == 1) 8 owned ≡ ok (record owned { admin = some 8 })
unfolding update_admin Admin.update_admin is_set
handed_over = refl

admin_settings-authorised_example :
    (admin : Address) × (owned.admin ≡ some admin) × ((admin == 1) ≡ true)
admin_settings-authorised_example =
    admin_settings-authorised (λ a. a == 1) 8 owned (record owned { admin = some 8 })
      (inl handed_over)
