-- ===== src/NonMembership/Tree/Round.antt =====
-- One round of `insert_leaf` on field elements, and what the loop has made of a part of the tree.
use veil_server_v.Prelude.{
  ◌<◌, ◌≡◌, Bool, true, false, not, ◌&&◌, ◌||◌, some, none, [], ◌∷◌, ◌==◌, update, ok, ◌⊎◌,
}
use veil_server_v.Poseidon.{U256, bn256_modulus, Host}
use veil_server_v.Poseidon.Digest.{digest}
use veil_server_v.NonMembership.{Nodes}
use veil_server_v.NonMembership.Insert.{Climb, in_order, insert_round}
use veil_server_v.NonMembership.Tree.{Smt, root_of, count, Stored, Avoids}
use veil_server_v.NonMembership.Tree.Hashes.{IsHash, hash_internal-ok}

-- The nodes after a round: without the old one, with the new one.
abbrev pub replaced : Nodes → U256 → U256 → U256 → U256 → Nodes
replaced nodes old new left right = update (update nodes old none) new (some (left ∷ right ∷ []))

module _ (h : Host) where
  abbrev pub pair_hash : U256 × U256 → U256
  pair_hash pair = digest h pair.0 pair.1

  abbrev pub mixed_round : Bool → U256 → Climb → Climb
  mixed_round bit sibling c =
      let old : U256 × U256 = in_order bit sibling c.rt_old in
      let new : U256 × U256 = in_order bit sibling c.rt in
      record {
        mixed = true;
        rt_old = pair_hash old;
        rt = pair_hash new;
        nodes = replaced c.nodes (pair_hash old) (pair_hash new) new.0 new.1;
      }

  abbrev pub plain_round : Bool → U256 → Climb → Climb
  plain_round bit sibling c =
      let new : U256 × U256 = in_order bit sibling c.rt in
      record {
        mixed = false;
        rt_old = c.rt_old;
        rt = pair_hash new;
        nodes = update c.nodes (pair_hash new) (some (new.0 ∷ new.1 ∷ []));
      }

module _ {h : Host} (law : IsHash h) where
  -- A round over the path of old nodes.
  pub insert_round-mixed :
      (added last bit : Bool) (sibling : U256) (c : Climb)
      → (c.mixed || (not last && not (sibling == 0))) ≡ true
      → (added && last) ≡ false
      → sibling < bn256_modulus
      → c.rt_old < bn256_modulus
      → c.rt < bn256_modulus
      → insert_round h added last sibling (some bit) (some sibling) c
        ≡ ok (mixed_round h bit sibling c)
  unfolding insert_round
  insert_round-mixed added last true sibling c mixed both hs ho hr = simp (
    mixed,
    both,
    hash_internal-ok sibling c.rt_old law hs ho,
    hash_internal-ok sibling c.rt law hs hr,
  )
  insert_round-mixed added last false sibling c mixed both hs ho hr = simp (
    mixed,
    both,
    hash_internal-ok c.rt_old sibling law ho hs,
    hash_internal-ok c.rt sibling law hr hs,
  )

  -- A round below it.
  pub insert_round-plain :
      (added last bit : Bool) (sibling : U256) (c : Climb)
      → c.mixed ≡ false
      → (not last && not (sibling == 0)) ≡ false
      → sibling < bn256_modulus
      → c.rt < bn256_modulus
      → insert_round h added last sibling (some bit) none c ≡ ok (plain_round h bit sibling c)
  unfolding insert_round
  insert_round-plain added last true sibling c plain none_set hs hr =
      simp (plain, none_set, hash_internal-ok sibling c.rt law hs hr)
  insert_round-plain added last false sibling c plain none_set hs hr =
      simp (plain, none_set, hash_internal-ok c.rt sibling law hr hs)

-- The loop has gone over the part `t` of the old tree, of which it has made `u`.
pub record Climbed (h : Host) (added : Bool) (nodes : Nodes) (t u : Smt) (c : Climb) : Type 0 where
  pub mixed : (c.mixed ≡ true) ⊎ ((count t ≡ 1) × (added ≡ true))
  pub old : c.rt_old ≡ root_of h t
  pub new : c.rt ≡ root_of h u
  pub stored : Stored h c.nodes u
  pub frame : (x : U256) → Avoids h x t → Avoids h x u → c.nodes x ≡ nodes x
