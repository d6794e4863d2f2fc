-- ===== src/NonMembership/Access.antt =====
-- Who may change the non-membership tree.
use veil_server_v.Prelude.{◌≡◌, true, some, arith, ok, >>=-eq-ok, ok_or, require, inl, inr, ◌⊎◌}
use veil_server_v.Poseidon.{U256, Host}
use veil_server_v.Admin
use veil_server_v.Admin.{Address, Auth}
use veil_server_v.NonMembership.{Error, not_initialized, State, update_admin}
use veil_server_v.NonMembership.Insert.{insert_leaf}
use veil_server_v.NonMembership.Delete.{delete_leaf}

require-inv :
    (auth : Auth) (s : State) {a : Address}
    → ok_or {E = Error} s.admin not_initialized ≡ ok a
    → require {E = Error} (auth a) ≡ ok tt
    → (a : Address) × (s.admin ≡ some a) × (auth a ≡ true)
require-inv auth s {a} set signed = (a, ground (arith, set), ground (arith, signed))

-- An insertion, a deletion or a change of the administrator that succeeds was authorised by the
-- administrator.
pub changes-authorised :
    (auth : Auth) (h : Host) (key value : U256) (new_admin : Address) (s t : State)
    → (insert_leaf auth h key value s ≡ ok t)
      ⊎ (delete_leaf auth h key s ≡ ok t)
      ⊎ (update_admin auth new_admin s ≡ ok t)
    → (a : Address) × (s.admin ≡ some a) × (auth a ≡ true)
unfolding insert_leaf delete_leaf update_admin Admin.update_admin
changes-authorised auth h key value new_admin s t (inl e) =
    let (a, set, rest) = >>=-eq-ok (ok_or {E = Error} s.admin not_initialized) _ e in
    let (_, signed, _) = >>=-eq-ok (require {E = Error} (auth a)) _ rest in
    require-inv auth s set signed
changes-authorised auth h key value new_admin s t (inr (inl e)) =
    let (a, set, rest) = >>=-eq-ok (ok_or {E = Error} s.admin not_initialized) _ e in
    let (_, signed, _) = >>=-eq-ok (require {E = Error} (auth a)) _ rest in
    require-inv auth s set signed
changes-authorised auth h key value new_admin s t (inr (inr e)) = ground (arith, e)
