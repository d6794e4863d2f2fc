-- ===== src/Membership/Access.antt =====
-- Who may change the membership tree, and what any sequence of calls keeps.
use veil_server_v.Prelude.{
  ℕ, ◌^◌, ◌<◌, ◌≡◌, refl, sym, ◌∙◌, Bool, true, false, Option, some, List, [], ◌∷◌, ◌++◌, arith,
  length, ltb, ltb→lt, lt→ltb, Outcome, ok, err, >>=-eq-ok, ok-injective, kept, trap, subst,
  Bool-cases, inl, inr, ◌⊎◌, is_set, ensure, ok_or, require,
}
use mathlib.Core.List.{append-nil, append_assoc}
use veil_server_v.Poseidon.{U256, bn256_modulus, Host}
use veil_server_v.Poseidon.Digest.{IsPermutation}
use veil_server_v.Admin
use veil_server_v.Admin.{Address, Auth}
use veil_server_v.Merkle.Climb.{climb}
use veil_server_v.Merkle.Climb.Root.{climb-inv}
use veil_server_v.Membership.{
  Error, not_initialized, State, check_admin, insert_checked, insert_leaf, update_admin,
  set_admin_insert_only,
}
use veil_server_v.Membership.Tree.{Tree}
use veil_server_v.Membership.Insert.{insert_checked-ok, inserted-Tree}

check_admin-inv :
    (auth : Auth) (s : State)
    → check_admin auth s ≡ ok tt
    → (s.admin_insert_only ≡ some false) ⊎ ((a : Address) × (s.admin ≡ some a) × (auth a ≡ true))
unfolding check_admin
check_admin-inv auth s e = ground arith

-- An insertion that succeeds was made by the administrator, unless the contract is open to all.
pub insert_leaf-authorised :
    (auth : Auth) (h : Host) (leaf : U256) (s t : State)
    → insert_leaf auth h leaf s ≡ ok t
    → (s.admin_insert_only ≡ some false) ⊎ ((a : Address) × (s.admin ≡ some a) × (auth a ≡ true))
unfolding insert_leaf
insert_leaf-authorised auth h leaf s t e =
    let (u, allowed, rest) = >>=-eq-ok (check_admin auth s) (λ _. insert_checked h leaf s) e in
    check_admin-inv auth s allowed

-- A change of the administrator, or of who may insert, that succeeds was authorised by the
-- administrator.
pub settings-authorised :
    (auth : Auth) (s t : State) (new_admin : Address) (admin_only : Bool)
    → (update_admin auth new_admin s ≡ ok t) ⊎ (set_admin_insert_only auth admin_only s ≡ ok t)
    → (a : Address) × (s.admin ≡ some a) × (auth a ≡ true)
unfolding update_admin set_admin_insert_only Admin.update_admin is_set
settings-authorised auth s t new_admin admin_only e = ground arith

-- What an insertion that succeeds had: a field element, and room.
insert_checked-inv :
    {h : Host} (a : U256) {levels : ℕ} {leaves : List U256} (s : State) {t : State}
    → Tree h levels leaves s
    → insert_checked h a s ≡ ok t
    → (a < bn256_modulus) × (length leaves < 2 ^ levels)
unfolding insert_checked
insert_checked-inv {h} a {levels} {leaves} s tree e =
    let below : ltb levels 64 ≡ true = lt→ltb levels 64 (omega (arith, tree.levels_max)) in
    elim (Bool-cases (ltb (length leaves) (2 ^ levels))) [
      | inl room ↦
          let (top, run, _) =
            >>=-eq-ok
              (climb h not_initialized s.zeroes levels s.filled_subtrees 0 a (length leaves)) _
              (simp (tree.levels_set, tree.next_set, below, room) at e) in
          (
            climb-inv h not_initialized s.zeroes levels s.filled_subtrees 0 a (length leaves)
                tree.levels_pos run,
            ltb→lt _ _ room,
          )
      | inr full ↦ cc (simp (tree.levels_set, tree.next_set, below, full) at e)
    ]

-- The entry points that write.
pub data Call : Type 0 where
  add : U256 → Call
  hand_over : Address → Call
  open_to : Bool → Call

unfoldable pub perform : Host → Auth → Call → State → Outcome Error State
perform h auth (add leaf) s = insert_leaf auth h leaf s
perform h auth (hand_over new_admin) s = update_admin auth new_admin s
perform h auth (open_to admin_only) s = set_admin_insert_only auth admin_only s

unfoldable pub run : Host → List (Auth × Call) → State → State
run h [] s = s
run h ((auth, c) ∷ cs) s = run h cs (kept s (perform h auth c s))

abbrev Grown : Host → ℕ → List U256 → State → Type 0
Grown h levels leaves t = (more : List U256) × Tree h levels (leaves ++ more) t

same_tree :
    {h : Host} {levels : ℕ} (leaves : List U256) {t : State}
    → Tree h levels leaves t
    → Grown h levels leaves t
same_tree {h} {levels} leaves {t} tree =
    ([], subst (λ l. Tree h levels l t) (sym (append-nil leaves)) tree)

Tree-settings :
    {h : Host} {levels : ℕ} {leaves : List U256} {s : State} (admin : Option Address)
    (flag : Option Bool)
    → Tree h levels leaves s
    → Tree h levels leaves (record s { admin = admin; admin_insert_only = flag })
Tree-settings admin flag tree = record {
  levels_set = tree.levels_set;
  levels_pos = tree.levels_pos;
  levels_max = tree.levels_max;
  next_set = tree.next_set;
  next_fits = tree.next_fits;
  table = tree.table;
  siblings = tree.siblings;
  leaves_in = tree.leaves_in;
  root_set = tree.root_set;
}

update_admin-frame :
    (auth : Auth) (new_admin : Address) (s t : State)
    → update_admin auth new_admin s ≡ ok t
    → (admin : Option Address) × (t ≡ record s { admin = admin })
unfolding update_admin
update_admin-frame auth new_admin s t e =
    let (_, _, rest) = >>=-eq-ok (ensure (is_set s.admin) not_initialized) _ e in
    let (admin, _, last) =
      >>=-eq-ok (Admin.update_admin {E = Error} auth s.admin new_admin) _ rest in
    (admin, sym (ok-injective last))

set_admin_insert_only-frame :
    (auth : Auth) (admin_only : Bool) (s t : State)
    → set_admin_insert_only auth admin_only s ≡ ok t
    → t ≡ record s { admin_insert_only = some admin_only }
unfolding set_admin_insert_only
set_admin_insert_only-frame auth admin_only s t e =
    let (admin, _, rest) = >>=-eq-ok (ok_or s.admin not_initialized) _ e in
    let (_, _, last) = >>=-eq-ok (require {E = Error} (auth admin)) _ rest in
    sym (ok-injective last)

perform-Grown :
    {h : Host} {levels : ℕ} (leaves : List U256) (auth : Auth) (c : Call) (s t : State)
    → IsPermutation h
    → Tree h levels leaves s
    → perform h auth c s ≡ ok t
    → Grown h levels leaves t
unfolding perform insert_leaf
perform-Grown {h} {levels} leaves auth (add leaf) s t law tree e =
    let (u, allowed, rest) = >>=-eq-ok (check_admin auth s) (λ _. insert_checked h leaf s) e in
    let (small, room) = insert_checked-inv leaf s tree rest in
    let same = ok-injective (sym rest ∙ insert_checked-ok law leaf tree small room) in
    (
      leaf ∷ [],
      subst (λ v. Tree h levels (leaves ++ (leaf ∷ [])) v) (sym same)
          (inserted-Tree law leaf tree small room),
    )
perform-Grown {h} {levels} leaves auth (hand_over new_admin) s t law tree e =
    let (admin, same) = update_admin-frame auth new_admin s t e in
    same_tree leaves
      (subst (Tree h levels leaves) (sym same) (Tree-settings admin s.admin_insert_only tree))
perform-Grown {h} {levels} leaves auth (open_to admin_only) s t law tree e =
    let same = set_admin_insert_only-frame auth admin_only s t e in
    same_tree leaves
      (subst (Tree h levels leaves) (sym same) (Tree-settings s.admin (some admin_only) tree))

kept-Grown :
    {h : Host} {levels : ℕ} (leaves : List U256) (auth : Auth) (c : Call) (s : State)
    → IsPermutation h
    → Tree h levels leaves s
    → Grown h levels leaves (kept s (perform h auth c s))
unfolding kept
kept-Grown {h} {levels} leaves auth c s law tree = go (perform h auth c s) refl
  where
    go : (o : Outcome Error State) → perform h auth c s ≡ o → Grown h levels leaves (kept s o)
    go (ok t) e = perform-Grown leaves auth c s t law tree e
    go (err x) e = same_tree leaves tree
    go trap e = same_tree leaves tree

-- Whatever calls are made, with whatever authorisations, the leaves of the tree are only appended
-- to: the levels and the earlier leaves stay, and the state holds a tree after every call.
pub run-append_only :
    {h : Host} {levels : ℕ} (leaves : List U256) (cs : List (Auth × Call)) (s : State)
    → IsPermutation h
    → Tree h levels leaves s
    → (more : List U256) × Tree h levels (leaves ++ more) (run h cs s)
unfolding run
run-append_only leaves [] s law tree = same_tree leaves tree
run-append_only {h} {levels} leaves ((auth, c) ∷ cs) s law tree =
    let (some_more, next) = kept-Grown leaves auth c s law tree in
    let (rest, last) =
      run-append_only (leaves ++ some_more) cs (kept s (perform h auth c s)) law next in
    (
      some_more ++ rest,
      subst (λ l. Tree h levels l (run h cs (kept s (perform h auth c s))))
          (append_assoc leaves some_more rest) last,
    )
