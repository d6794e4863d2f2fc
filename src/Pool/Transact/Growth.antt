-- ===== src/Pool/Transact/Growth.antt =====
-- The commitment tree of the pool through any sequence of calls.
use veil_server_v.Prelude.{
  ℕ, ◌+◌, ◌*◌, ◌≡◌, refl, sym, ◌∙◌, subst, List, [], ◌∷◌, ◌++◌, arith, length, length-append,
  Outcome, ok, err, trap, kept,
}
use mathlib.Core.Path.{ap₂}
use mathlib.Core.List.{append-nil, append_assoc}
use veil_server_v.Poseidon.{U256, Host}
use veil_server_v.Poseidon.Digest.{IsPermutation}
use veil_server_v.Admin.{Address}
use veil_server_v.Merkle.Leaves.{merkle_root}
use veil_server_v.PoolTree.{insert_two_leaves}
use veil_server_v.PoolTree.Tree.{Tree}
use veil_server_v.PoolTree.Append.{insert_two_leaves-appends}
use veil_server_v.PoolTree.Known.{get_last_root-Tree}
use veil_server_v.Pool.Types.{Error, lift, Proof, ExtData, State, World}
use veil_server_v.Pool.Settings.{get_root}
use veil_server_v.Pool.Transact.{transact}
use veil_server_v.Pool.Transact.Settled.{published, transact-Settled}
use veil_server_v.Pool.Transact.Spending.{
  Call, pay, hand_over, set_membership, set_non_membership, perform, run, update_admin-Untouched,
  membership-Untouched, non_membership-Untouched,
}

-- The outputs of a transaction that succeeds become the next two leaves, at the indices that its
-- events publish, and the root over all leaves is the one that the pool then gives.
pub transact-appends :
    (w : World) (p : Proof) (ext : ExtData) (sender : Address) (s t : State) {levels : ℕ}
    {leaves history : List U256}
    → IsPermutation w.host
    → Tree w.host levels leaves history s.tree
    → transact w p ext sender s ≡ ok t
    → Tree w.host levels
        (leaves ++ (p.output_commitment0 ∷ p.output_commitment1 ∷ []))
        (merkle_root w.host levels (leaves ++ (p.output_commitment0 ∷ p.output_commitment1 ∷ []))
          ∷ history)
        t.tree
      × (get_root t
          ≡ ok (
              merkle_root w.host levels
                (leaves ++ (p.output_commitment0 ∷ p.output_commitment1 ∷ []))))
      × (t.events ≡ s.events ++ published p ext (length leaves) (length leaves + 1))
unfolding get_root lift
transact-appends w p ext sender s t {levels} {leaves} {history} law tree e =
    let done = transact-Settled w p ext sender s t e in
    let (i, j, grown) =
      insert_two_leaves-appends p.output_commitment0 p.output_commitment1 law tree done.inserted in
    (
      grown,
      rw (get_last_root-Tree grown),
      done.events ∙ ap₂ (λ a b. s.events ++ published p ext a b) i j,
    )

-- Every call meets the hashes of the host `h`.
abbrev pub SameHost : Host → List (World × Call) → Type 0
SameHost h [] = Unit {0}
SameHost h ((w, c) ∷ cs) = (w.host ≡ h) × SameHost h cs

-- The tree of `t` is that of these leaves with some appended, and its history that of these roots with
-- some put on top.
pub record Grown (h : Host) (levels : ℕ) (leaves history : List U256) (t : State) : Type 0 where
  pub more : List U256
  pub newer : List U256
  pub tree : Tree h levels (leaves ++ more) (newer ++ history) t.tree
  pub two_each : length more ≡ 2 * length newer

no_growth :
    {h : Host} {levels : ℕ} {leaves history : List U256} (t : State)
    → Tree h levels leaves history t.tree
    → Grown h levels leaves history t
no_growth {h} {levels} {leaves} {history} t tree = record {
  more = [];
  newer = [];
  tree = subst (λ l. Tree h levels l history t.tree) (sym (append-nil leaves)) tree;
  two_each = omega arith;
}

perform-Grown :
    {h : Host} {levels : ℕ} {leaves history : List U256} (w : World) (c : Call) (s t : State)
    → IsPermutation h
    → w.host ≡ h
    → Tree h levels leaves history s.tree
    → perform w c s ≡ ok t
    → Grown h levels leaves history t
unfolding perform
perform-Grown {h} {levels} {leaves} {history} w (pay p ext sender) s t law same tree e =
    let done = transact-Settled w p ext sender s t e in
    let added = p.output_commitment0 ∷ p.output_commitment1 ∷ [] in
    let (i, j, grown) =
      insert_two_leaves-appends p.output_commitment0 p.output_commitment1 law tree (
        subst
          (λ h.
            insert_two_leaves h p.output_commitment0 p.output_commitment1 s.tree
            ≡ ok ((done.index0, done.index1), t.tree))
          same done.inserted) in
    record {
      more = added;
      newer = merkle_root h levels (leaves ++ added) ∷ [];
      tree = grown;
      two_each = omega arith;
    }
perform-Grown {h} {levels} {leaves} {history} w (hand_over a) s t law same tree e =
    no_growth t
      (subst (Tree h levels leaves history) (sym ((update_admin-Untouched w a s t e).1)) tree)
perform-Grown {h} {levels} {leaves} {history} w (set_membership a) s t law same tree e =
    no_growth t
      (subst (Tree h levels leaves history) (sym ((membership-Untouched w a s t e).1)) tree)
perform-Grown {h} {levels} {leaves} {history} w (set_non_membership a) s t law same tree e =
    no_growth t
      (subst (Tree h levels leaves history) (sym ((non_membership-Untouched w a s t e).1)) tree)

kept-Grown :
    {h : Host} {levels : ℕ} {leaves history : List U256} (w : World) (c : Call) (s : State)
    → IsPermutation h
    → w.host ≡ h
    → Tree h levels leaves history s.tree
    → Grown h levels leaves history (kept s (perform w c s))
unfolding kept
kept-Grown {h} {levels} {leaves} {history} w c s law same tree = go (perform w c s) refl
  where
    go : (o : Outcome Error State) → perform w c s ≡ o → Grown h levels leaves history (kept s o)
    go (ok t) e = perform-Grown w c s t law same tree e
    go (err x) e = no_growth s tree
    go trap e = no_growth s tree

-- Whatever calls are made, the pool goes on holding a tree: leaves are only appended, two for each new
-- root, and the earlier roots stay in the history behind the new ones.
pub run-Grown :
    {h : Host} {levels : ℕ} (cs : List (World × Call)) (s : State) {leaves history : List U256}
    → IsPermutation h
    → SameHost h cs
    → Tree h levels leaves history s.tree
    → Grown h levels leaves history (run cs s)
unfolding run
run-Grown [] s law hosts tree = no_growth s tree
run-Grown {h} {levels} ((w, c) ∷ cs) s {leaves} {history} law hosts tree =
    let one = kept-Grown w c s law hosts.0 tree in
    let rest = run-Grown cs (kept s (perform w c s)) law hosts.1 one.tree in
    record {
      more = one.more ++ rest.more;
      newer = rest.newer ++ one.newer;
      tree =
          subst
            (λ l.
              Tree h levels l ((rest.newer ++ one.newer) ++ history)
                (run cs (kept s (perform w c s))).tree)
            (append_assoc leaves one.more rest.more)
            (subst
              (λ l.
                Tree h levels ((leaves ++ one.more) ++ rest.more) l
                  (run cs (kept s (perform w c s))).tree)
              (sym (append_assoc rest.newer one.newer history)) rest.tree);
      two_each = omega (
        arith,
        length-append one.more rest.more,
        length-append rest.newer one.newer,
        one.two_each,
        rest.two_each,
      );
    }
