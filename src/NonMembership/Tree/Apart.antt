-- ===== src/NonMembership/Tree/Apart.antt =====
-- Where no hash collides, the nodes of one tree are told from those of another, so that a write of
-- one node leaves the others stored.
use veil_server_v.Prelude.{
  ℕ, zero, suc, ◌+◌, ◌<◌, ◌≡◌, ◌≢◌, sym, ◌∙◌, ap, Option, List, arith, update, subst, inl, inr, ◌⊎◌,
}
use veil_server_v.Poseidon.{U256, Host}
use veil_server_v.Poseidon.Digest.{digest}
use veil_server_v.NonMembership.{Nodes}
use veil_server_v.NonMembership.Tree.{
  Smt, empty, entry, fork, leaf_hash, root_of, Keys, count, size, IsProper, Stored, Decodes, Avoids,
}

-- Keys with two properties that no key has together are keys of no entry.
pub Keys-clash :
    {P Q : U256 → Type 0} (t : Smt)
    → ((k : U256) → P k → Q k → ⊥)
    → Keys P t
    → Keys Q t
    → 0 < count t
    → ⊥
Keys-clash empty apart on_p on_q some_entry = omega arith
Keys-clash (entry k v) apart on_p on_q some_entry = apart k on_p on_q
Keys-clash (fork l r) apart (pl, pr) (ql, qr) some_entry =
    elim (positive (count l) (count r) some_entry) [
      | inl a ↦ Keys-clash l apart pl ql a
      | inr a ↦ Keys-clash r apart pr qr a
    ]
  where
    positive : (a b : ℕ) → 0 < a + b → (0 < a) ⊎ (0 < b)
    positive zero b more = inr (omega arith)
    positive (suc a) b more = inl (omega arith)

pub update_self : (nodes : Nodes) (x : U256) (v : Option (List U256)) → update nodes x v x ≡ v
update_self nodes x v = ground arith

pub update-other :
    (nodes : Nodes) (x y : U256) (v : Option (List U256)) → y ≢ x → update nodes x v y ≡ nodes y
update-other nodes x y v other = ground (arith, other)

pub Stored-update :
    (h : Host) (nodes : Nodes) (x : U256) (v : Option (List U256)) (t : Smt)
    → Stored h nodes t
    → Avoids h x t
    → Stored h (update nodes x v) t
Stored-update h nodes x v empty stored away = tt
Stored-update h nodes x v (entry key value) stored away =
    update-other nodes x (leaf_hash h key value) v away ∙ stored
Stored-update h nodes x v (fork l r) (here, on_left, on_right) (away, from_left, from_right) = (
  update-other nodes x (digest h (root_of h l) (root_of h r)) v away ∙ here,
  Stored-update h nodes x v l on_left from_left,
  Stored-update h nodes x v r on_right from_right,
)

module _ (h : Host) (read : U256 → Smt) where
  pub Avoids-smaller :
      (x : U256) (u t : Smt) → read x ≡ u → Decodes h read t → size t < size u → Avoids h x t
  Avoids-smaller x u empty known reads small = tt
  Avoids-smaller x u (entry k v) known reads small =
      λ e. differ (sym known ∙ ap read (sym e) ∙ reads)
    where
      differ : u ≢ entry k v
      differ e = let same = ap size e in omega (arith, small, same)
  Avoids-smaller x u (fork l r) known (here, on_left, on_right) small = (
    λ e. differ (sym known ∙ ap read (sym e) ∙ here),
    Avoids-smaller x u l known on_left (omega (arith, small)),
    Avoids-smaller x u r known on_right (omega (arith, small)),
  )
    where
      differ : u ≢ fork l r
      differ e = let same = ap size e in omega (arith, small, same)

  pub Avoids-Keys :
      {P Q : U256 → Type 0} (x : U256) (u t : Smt)
      → ((k : U256) → P k → Q k → ⊥)
      → read x ≡ u
      → Keys P u
      → 0 < count u
      → Decodes h read t
      → Keys Q t
      → Avoids h x t
  Avoids-Keys x u empty apart known on_u some_entry reads on_t = tt
  Avoids-Keys {P} {Q} x u (entry k v) apart known on_u some_entry reads on_t =
      λ e. Keys-clash u apart on_u (subst (Keys Q) (sym reads ∙ ap read e ∙ known) on_t) some_entry
  Avoids-Keys {P} {Q} x u (fork l r) apart known on_u some_entry (here, on_left, on_right)
        (ql, qr) =
      (
        (λ e.
            Keys-clash u apart on_u (subst (Keys Q) (sym here ∙ ap read e ∙ known) (ql, qr))
              some_entry),
        Avoids-Keys x u l apart known on_u some_entry on_left ql,
        Avoids-Keys x u r apart known on_u some_entry on_right qr,
      )

  -- Nodes that change only where they are nodes of `u` or `w` keep a tree with keys apart from theirs.
  pub Stored-frame :
      {P Q : U256 → Type 0} (before after : Nodes) (u w t : Smt)
      → ((k : U256) → P k → Q k → ⊥)
      → ((x : U256) → Avoids h x u → Avoids h x w → after x ≡ before x)
      → Decodes h read u
      → Decodes h read w
      → Decodes h read t
      → Keys Q u
      → Keys Q w
      → Keys P t
      → IsProper t
      → Stored h before t
      → Stored h after t
  Stored-frame before after u w empty apart same ru rw_ rt qu qw pt proper stored = tt
  Stored-frame before after u w (entry k v) apart same ru rw_ rt qu qw pt proper stored =
      same (leaf_hash h k v)
        (Avoids-Keys (leaf_hash h k v) (entry k v) u apart rt pt (omega arith) ru qu)
        (Avoids-Keys (leaf_hash h k v) (entry k v) w apart rt pt (omega arith) rw_ qw)
      ∙ stored
  Stored-frame before after u w (fork l r) apart same ru rw_ (here, rl, rr) qu qw (pl, pr)
        (two, proper_l, proper_r) (stored, on_left, on_right) =
      let x : U256 = digest h (root_of h l) (root_of h r) in
      (
        same x (Avoids-Keys x (fork l r) u apart here (pl, pr) (omega (arith, two)) ru qu)
              (Avoids-Keys x (fork l r) w apart here (pl, pr) (omega (arith, two)) rw_ qw)
            ∙ stored,
        Stored-frame before after u w l apart same ru rw_ rl qu qw pl proper_l on_left,
        Stored-frame before after u w r apart same ru rw_ rr qu qw pr proper_r on_right,
      )
