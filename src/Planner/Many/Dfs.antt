-- ===== src/Planner/Many/Dfs.antt =====
-- The depth-first search answers, and what it finds is a choice among its candidates.
use veil_server_v.Prelude.{
  ℕ, ◌+◌, ◌-◌, ◌^◌, ◌≤◌, ◌<◌, ◌≡◌, ◌⊎◌, refl, sym, ap, ◌∙◌, subst, Bool, true, false, ◌||◌, Option,
  none, some, List, [], ◌∷◌, ◌++◌, ◌==◌, arith, ltb, leb, lt→ltb, lt-or-le, Bool-cases, inl, inr,
  length, ok,
}
use mathlib.Core.List.{append_assoc}
use mathlib.Core.List.{Sublistᴰ}
use mathlib.Core.List.Sublistᴰ
use veil_server_v.Planner.Types.{Candidate, total, add_amounts}
use veil_server_v.Planner.Picks.{
  Picks, indices, total-le, total-append, indices-append, prefix-Sublist, skip-Sublist,
}
use veil_server_v.Planner.Many.{DfsContext, pop, keep_overshoot, settle, dfs}

-- An overshoot that is kept is a choice with that excess.
unfoldable pub KeptOvershoot : List Candidate → ℕ → Option (ℕ × List ℕ) → Type 0
KeptOvershoot cs goal none = Unit {0}
KeptOvershoot cs goal (some b) = (0 < b.0) × Picks cs b.1 (goal + b.0)

pub pop-append : (is : List ℕ) (i : ℕ) → pop (is ++ (i ∷ [])) ≡ is
unfolding pop
pop-append [] i = refl
pop-append (j ∷ []) i = refl
pop-append (j ∷ k ∷ is) i = ap (λ xs. j ∷ xs) (pop-append (k ∷ is) i)

-- What a search from `ctx` leaves: on success the path reaches the goal, else it is as before.
pub record Left (cs : List Candidate) (goal : ℕ) (ctx : DfsContext) (r : Bool × DfsContext)
    : Type 0 where
  pub found : r.0 ≡ true → Picks cs (r.1).path goal
  pub restored : r.0 ≡ false → (r.1).path ≡ ctx.path
  pub kept : KeptOvershoot cs goal (r.1).best_overshoot

pub keep_overshoot-cases :
    (diff : ℕ) (ctx : DfsContext)
    → (keep_overshoot diff ctx ≡ record ctx { best_overshoot = some (diff, ctx.path) })
      ⊎ (keep_overshoot diff ctx ≡ ctx)
unfolding keep_overshoot
keep_overshoot-cases diff ctx =
    elim (Bool-cases (elim ctx.best_overshoot [ none ↦ true | some b ↦ ltb diff b.0 ])) [
      | inl e ↦ inl (rw e refl)
      | inr e ↦ inr (rw e refl)
    ]

keep_overshoot-path : (diff : ℕ) (ctx : DfsContext) → (keep_overshoot diff ctx).path ≡ ctx.path
keep_overshoot-path diff ctx = elim (keep_overshoot-cases diff ctx) [
  | inl e ↦ ap (λ (c : DfsContext). c.path) e
  | inr e ↦ ap (λ (c : DfsContext). c.path) e
]

module _ (cs : List Candidate) (goal : ℕ) where
  keep_overshoot-kept :
      (diff : ℕ) (ctx : DfsContext)
      → 0 < diff
      → Picks cs ctx.path (goal + diff)
      → KeptOvershoot cs goal ctx.best_overshoot
      → KeptOvershoot cs goal (keep_overshoot diff ctx).best_overshoot
  unfolding KeptOvershoot
  keep_overshoot-kept diff ctx pos p k = elim (keep_overshoot-cases diff ctx) [
    | inl e ↦ subst (λ (c : DfsContext). KeptOvershoot cs goal c.best_overshoot) (sym e) (pos, p)
    | inr e ↦ subst (λ (c : DfsContext). KeptOvershoot cs goal c.best_overshoot) (sym e) k
  ]

  pub settle-less : (sum : ℕ) (ctx : DfsContext) → sum < goal → settle goal sum ctx ≡ (false, ctx)
  unfolding settle
  settle-less sum ctx h = ground arith

  pub settle-at : (sum : ℕ) (ctx : DfsContext) → sum ≡ goal → settle goal sum ctx ≡ (true, ctx)
  unfolding settle
  settle-at sum ctx h = ground arith

  pub settle-more :
      (sum : ℕ) (ctx : DfsContext)
      → goal < sum
      → settle goal sum ctx ≡ (false, keep_overshoot (sum - goal) ctx)
  unfolding settle
  settle-more sum ctx h = ground arith

  same-Left :
      (ctx : DfsContext) → KeptOvershoot cs goal ctx.best_overshoot → Left cs goal ctx (false, ctx)
  same-Left ctx k = record { found = λ e. cc; restored = λ e. refl; kept = k }

  settle-Left :
      (sum : ℕ) (ctx : DfsContext)
      → Picks cs ctx.path sum
      → KeptOvershoot cs goal ctx.best_overshoot
      → Left cs goal ctx (settle goal sum ctx)
  settle-Left sum ctx p k = elim (lt-or-le sum goal) [
    | inl lo ↦ subst (Left cs goal ctx) (sym (settle-less sum ctx lo)) (same-Left ctx k)
    | inr hi ↦ elim (lt-or-le goal sum) [
      | inr at ↦
          let e : sum ≡ goal = omega arith in
          subst (Left cs goal ctx) (sym (settle-at sum ctx e))
            (record { found = λ t. subst (Picks cs ctx.path) e p; restored = λ f. cc; kept = k })
      | inl above ↦
          let e : sum ≡ goal + (sum - goal) = omega arith in
          subst (Left cs goal ctx) (sym (settle-more sum ctx above)) (record {
            found = λ t. cc;
            restored = λ f. keep_overshoot-path (sum - goal) ctx;
            kept =
                keep_overshoot-kept (sum - goal) ctx (omega arith) (subst (Picks cs ctx.path) e p)
                  k;
          })
    ]
  ]

-- The rounds of the search.
module _ (goal target_k sum : ℕ) (ctx : DfsContext) where
  pub full_path :
      (rest : List Candidate)
      → (length ctx.path == target_k) ≡ true
      → dfs goal target_k rest sum ctx ≡ ok (settle goal sum ctx)
  unfolding dfs
  full_path [] e = ground (arith, e)
  full_path (c ∷ rest) e = ground (arith, e)

  pub no_candidate :
      (length ctx.path == target_k) ≡ false → dfs goal target_k [] sum ctx ≡ ok (false, ctx)
  unfolding dfs
  no_candidate e = ground (arith, e)

  module _ (c : Candidate) (rest : List Candidate) (e : (length ctx.path == target_k) ≡ false) where
    pub given_up :
        (leb goal sum || ctx.iteration_limit == 0) ≡ true
        → dfs goal target_k (c ∷ rest) sum ctx ≡ ok (false, ctx)
    unfolding dfs
    given_up stop = ground (arith, e, stop)

    unfoldable pub pushed : DfsContext
    pushed = record ctx { iteration_limit = ctx.iteration_limit - 1; path = ctx.path ++ (c.0 ∷ []) }

    module _ (go : (leb goal sum || ctx.iteration_limit == 0) ≡ false)
        (add : add_amounts sum c.1 ≡ ok (sum + c.1)) {r : Bool × DfsContext}
        (ran : dfs goal target_k rest (sum + c.1) pushed ≡ ok r) where
      found_with : r.0 ≡ true → dfs goal target_k (c ∷ rest) sum ctx ≡ ok (true, r.1)
      unfolding dfs pushed
      found_with hit = ground (arith, e, go, add, ran, hit)

      left_out :
          r.0 ≡ false
          → dfs goal target_k (c ∷ rest) sum ctx
            ≡ dfs goal target_k rest sum (record r.1 { path = pop (r.1).path })
      unfolding dfs pushed
      left_out missed = ground (arith, e, go, add, ran, missed)

module _ (cs : List Candidate) (goal target_k : ℕ) (fits : total cs < 2 ^ 128) where
  -- The search answers, on the candidates after those of its path.
  pub dfs-Left :
      (rest : List Candidate) (sum : ℕ) (ctx : DfsContext) (ps : List Candidate)
      → Sublistᴰ (ps ++ rest) cs
      → indices ps ≡ ctx.path
      → total ps ≡ sum
      → KeptOvershoot cs goal ctx.best_overshoot
      → (r : Bool × DfsContext) × (dfs goal target_k rest sum ctx ≡ ok r) × Left cs goal ctx r
  unfolding pushed
  dfs-Left [] sum ctx ps among listed summed k = elim (Bool-cases (length ctx.path == target_k)) [
    | inl e ↦
        let p : Picks cs ctx.path sum = record {
          chosen = ps;
          among = Sublistᴰ.trans (prefix-Sublist ps []) among;
          listed = listed;
          summed = summed;
        } in
        (settle goal sum ctx, full_path goal target_k sum ctx [] e, settle-Left cs goal sum ctx p k)
    | inr e ↦ ((false, ctx), no_candidate goal target_k sum ctx e, same-Left cs goal ctx k)
  ]
  dfs-Left (c ∷ rest) sum ctx ps among listed summed k =
      elim (Bool-cases (length ctx.path == target_k)) [
        | inl e ↦
            let p : Picks cs ctx.path sum = record {
              chosen = ps;
              among = Sublistᴰ.trans (prefix-Sublist ps (c ∷ rest)) among;
              listed = listed;
              summed = summed;
            } in
            (
              settle goal sum ctx,
              full_path goal target_k sum ctx (c ∷ rest) e,
              settle-Left cs goal sum ctx p k,
            )
        | inr e ↦ elim (Bool-cases (leb goal sum || ctx.iteration_limit == 0)) [
          | inl stop ↦
              ((false, ctx), given_up goal target_k sum ctx c rest e stop, same-Left cs goal ctx k)
          | inr go ↦
              let b : total (ps ++ (c ∷ rest)) ≤ total cs = total-le among in
              let b' : total (ps ++ (c ∷ rest)) ≡ total ps + (c.1 + total rest) =
                total-append ps (c ∷ rest) in
              let add : add_amounts sum c.1 ≡ ok (sum + c.1) =
                simp (lt→ltb (sum + c.1) (2 ^ 128) (omega (arith, summed, b, b', fits))) in
              let (r, ran, left) =
                dfs-Left rest (sum + c.1) (pushed goal target_k sum ctx c rest e) (ps ++ (c ∷ []))
                  (subst (λ xs. Sublistᴰ xs cs) (sym (append_assoc ps (c ∷ []) rest)) among)
                  (indices-append ps (c ∷ []) ∙ ap (λ is. is ++ (c.0 ∷ [])) listed)
                  (total-append ps (c ∷ []) ∙ omega (arith, summed)) k in
              elim (Bool-cases r.0) [
                | inl hit ↦ (
                  (true, r.1),
                  found_with goal target_k sum ctx c rest e go add ran hit,
                  record { found = λ t. left.found hit; restored = λ f. cc; kept = left.kept },
                )
                | inr missed ↦
                    let popped : DfsContext = record r.1 { path = pop (r.1).path } in
                    let back : popped.path ≡ ctx.path =
                      ap pop (left.restored missed) ∙ pop-append ctx.path c.0 in
                    let (r2, ran2, left2) =
                      dfs-Left rest sum popped ps (Sublistᴰ.trans (skip-Sublist ps c rest) among)
                        (listed ∙ sym back) summed left.kept in
                    (
                      r2,
                      left_out goal target_k sum ctx c rest e go add ran missed ∙ ran2,
                      record {
                        found = left2.found;
                        restored = λ f. left2.restored f ∙ back;
                        kept = left2.kept;
                      },
                    )
              ]
        ]
      ]
