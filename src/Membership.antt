-- ===== src/Membership.antt =====
-- contracts/asp-membership/src/lib.rs: the membership contract.
pub mod Tree
pub mod Insert
pub mod Access
mod Tests
use veil_server_v.Prelude.{
  ℕ, zero, suc, ◌+◌, Bool, true, false, ◌||◌, Option, none, some, List, [], ◌∷◌, ◌++◌, ltb, leb,
  ◌==◌, if◌then◌else◌, get_elem?, update, Outcome, ok, err, trap, ◌>>=◌, ◌>>◌, ok_or, is_set,
  ensure, require, checked_add, checked_shl_one, not,
}
use veil_server_v.Poseidon.{U256, Host, get_zeroes, poseidon2_compress}
use veil_server_v.Admin
use veil_server_v.Admin.{Address, Auth}
use veil_server_v.Merkle.Climb.{climb}

pub data Error : Type 0 where
  not_authorized merkle_tree_full wrong_levels not_initialized overflow : Error

pub record LeafAddedEvent : Type 0 where
  pub leaf : U256
  pub index : ℕ
  pub root : U256

-- The persistent storage, a field for each constructor of DataKey, and the events published.
pub record State : Type 0 where
  pub admin : Option Address
  pub filled_subtrees : ℕ → Option U256
  pub zeroes : ℕ → Option U256
  pub levels : Option ℕ
  pub next_index : Option ℕ
  pub root : Option U256
  pub admin_insert_only : Option Bool
  pub events : List LeafAddedEvent

-- `for lvl in 0..=levels` of the constructor, with the rounds left.
unfoldable pub init_levels : ℕ → ℕ → State → Outcome Error State
init_levels zero lvl s = ok s
init_levels (suc rounds) lvl s = ok_or (get_elem? get_zeroes lvl) not_initialized >>= λ zero_val.
    init_levels rounds (lvl + 1) (record s {
      filled_subtrees = update s.filled_subtrees lvl (some zero_val);
      zeroes = update s.zeroes lvl (some zero_val);
    })

unfoldable pub constructor : Address → ℕ → State → Outcome Error State
constructor admin levels s = if levels == 0 || ltb 32 levels then err wrong_levels else do
  t ← init_levels (levels + 1) 0 (record s {
    admin = some admin;
    levels = some levels;
    next_index = some 0;
    admin_insert_only = some true;
  })
  root_val ← ok_or (get_elem? get_zeroes levels) not_initialized
  ok (record t { root = some root_val })

unfoldable pub update_admin : Auth → Address → State → Outcome Error State
update_admin auth new_admin s = do
  ensure (is_set s.admin) not_initialized
  admin ← Admin.update_admin auth s.admin new_admin
  ok (record s { admin = admin })

unfoldable pub set_admin_insert_only : Auth → Bool → State → Outcome Error State
set_admin_insert_only auth admin_only s = do
  admin ← ok_or s.admin not_initialized
  require (auth admin)
  ok (record s { admin_insert_only = some admin_only })

unfoldable pub get_root : State → Outcome Error U256
get_root s = ok_or s.root not_initialized

unfoldable pub hash_pair : Host → U256 → U256 → Outcome Error U256
hash_pair h left right = poseidon2_compress h left right

-- `if admin_only { ..; admin.require_auth(); }`
unfoldable pub check_admin : Auth → State → Outcome Error (Unit {0})
check_admin auth s =
    let admin_only : Bool = elim s.admin_insert_only [ none ↦ true | some b ↦ b ] in
    if admin_only then (ok_or s.admin not_initialized >>= λ admin. require (auth admin)) else ok tt

-- The part of `insert_leaf` behind the check of the administrator.
unfoldable pub insert_checked : Host → U256 → State → Outcome Error State
insert_checked h leaf s = do
  levels ← ok_or s.levels not_initialized
  actual_index ← ok_or s.next_index not_initialized
  capacity ← ok_or (checked_shl_one levels) merkle_tree_full
  ensure (ltb actual_index capacity) merkle_tree_full
  top ← climb h not_initialized s.zeroes levels s.filled_subtrees 0 leaf actual_index
  index_next ← ok_or (checked_add 64 actual_index 1) overflow
  ok (record s {
    filled_subtrees = top.1;
    root = some top.0;
    events = s.events ++ (record { leaf = leaf; index = actual_index; root = top.0 } ∷ []);
    next_index = some index_next;
  })

unfoldable pub insert_leaf : Auth → Host → U256 → State → Outcome Error State
insert_leaf auth h leaf s = do check_admin auth s; insert_checked h leaf s
