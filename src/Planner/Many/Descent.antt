-- ===== src/Planner/Many/Descent.antt =====
-- What the depth-first search keeps, and that it finds a path where the largest notes make one.
use veil_server_v.Prelude.{
  ℕ, zero, suc, ◌+◌, ◌-◌, ◌≤◌, ◌<◌, ◌≡◌, ◌⊎◌, refl, sym, ap, ◌∙◌, subst, Bool, true, false, ◌||◌,
  some, List, [], ◌∷◌, ◌++◌, ◌==◌, arith, ltb, leb, lt→leb, lt-or-le, Bool-cases, Option-cases, inl,
  inr, ne→==, length-append, length, Outcome, ok, >>=-eq-ok, ok-injective, ◌>>=◌,
}
use mathlib.Core.Option.{some-injective}
use veil_server_v.Planner.Types.{PlanError, Candidate, add_amounts}
use veil_server_v.Planner.Top.{top}
use veil_server_v.Planner.Many.{DfsContext, keep_overshoot, settle, dfs, pop}
use veil_server_v.Planner.Many.Dfs.{
  keep_overshoot-cases, settle-less, settle-at, settle-more, full_path, no_candidate, given_up,
  pushed,
}

-- What a search for k notes makes of the paths that it keeps.
pub record After (k : ℕ) (ctx : DfsContext) (r : Bool × DfsContext) : Type 0 where
  pub path_size : r.0 ≡ true → length (r.1).path ≡ k
  pub best_size : (b : ℕ × List ℕ) → (r.1).best_overshoot ≡ some b → length b.1 ≡ k
  pub keeps :
      (b : ℕ × List ℕ)
      → ctx.best_overshoot ≡ some b
      → (b' : ℕ × List ℕ) × ((r.1).best_overshoot ≡ some b')

abbrev pub Sized : ℕ → DfsContext → Type 0
Sized k ctx = (b : ℕ × List ℕ) → ctx.best_overshoot ≡ some b → length b.1 ≡ k

same-After : (k : ℕ) (ctx : DfsContext) → Sized k ctx → After k ctx (false, ctx)
same-After k ctx sized = record { path_size = λ e. cc; best_size = sized; keeps = λ b e. (b, e) }

-- A kept overshoot is there, and is either the path or the one before.
keep_overshoot-some :
    (diff : ℕ) (ctx : DfsContext)
    → (b : ℕ × List ℕ) × ((keep_overshoot diff ctx).best_overshoot ≡ some b)
unfolding keep_overshoot
keep_overshoot-some diff ctx = elim (Option-cases ctx.best_overshoot) [
  | inl e ↦ ((diff, ctx.path), rw e refl)
  | inr (b, e) ↦ elim (Bool-cases (ltb diff b.0)) [
    | inl less ↦ ((diff, ctx.path), rw (e, less) refl)
    | inr more ↦ (b, rw (e, more) refl)
  ]
]

keep_overshoot-Sized :
    (k diff : ℕ) (ctx : DfsContext)
    → length ctx.path ≡ k
    → Sized k ctx
    → Sized k (keep_overshoot diff ctx)
keep_overshoot-Sized k diff ctx len sized = elim (keep_overshoot-cases diff ctx) [
  | inl e ↦
      subst (Sized k) (sym e)
        (λ b h. subst (λ (c : ℕ × List ℕ). length c.1 ≡ k) (some-injective _ _ h) len)
  | inr e ↦ subst (Sized k) (sym e) sized
]

settle-After :
    (goal k sum : ℕ) (ctx : DfsContext)
    → length ctx.path ≡ k
    → Sized k ctx
    → After k ctx (settle goal sum ctx)
settle-After goal k sum ctx len sized = elim (lt-or-le sum goal) [
  | inl lo ↦ subst (After k ctx) (sym (settle-less [] goal sum ctx lo)) (same-After k ctx sized)
  | inr hi ↦ elim (lt-or-le goal sum) [
    | inr at ↦
        subst (After k ctx) (sym (settle-at [] goal sum ctx (omega arith)))
          (record { path_size = λ e. len; best_size = sized; keeps = λ b e. (b, e) })
    | inl above ↦ subst (After k ctx) (sym (settle-more [] goal sum ctx above)) (record {
      path_size = λ e. cc;
      best_size = keep_overshoot-Sized k (sum - goal) ctx len sized;
      keeps = λ b e. keep_overshoot-some (sum - goal) ctx;
    })
  ]
]

-- A path with enough notes that reaches the goal is a hit.
abbrev pub Hit : Bool × DfsContext → Type 0
Hit r = (r.0 ≡ true) ⊎ ((b : ℕ × List ℕ) × ((r.1).best_overshoot ≡ some b))

settle-Hit : (goal sum : ℕ) (ctx : DfsContext) → goal ≤ sum → Hit (settle goal sum ctx)
settle-Hit goal sum ctx le = elim (lt-or-le goal sum) [
  | inr at ↦ subst Hit (sym (settle-at [] goal sum ctx (omega arith))) (inl refl)
  | inl above ↦
      subst Hit (sym (settle-more [] goal sum ctx above))
        (inr (keep_overshoot-some (sum - goal) ctx))
]

module _ (goal k : ℕ) where
  -- The rest of a search once its first candidate is tried.
  abbrev Tried : List Candidate → ℕ → Bool × DfsContext → Bool × DfsContext → Type 0
  Tried rest sum q r =
      ((q.0 ≡ true) × (r ≡ (true, q.1)))
      ⊎ ((q.0 ≡ false) × (dfs goal k rest sum (record q.1 { path = pop (q.1).path }) ≡ ok r))

  after_first : List Candidate → ℕ → Bool × DfsContext → Outcome PlanError (Bool × DfsContext)
  after_first rest sum q = elim q.0 [
    | true ↦ ok (true, q.1)
    | false ↦ dfs goal k rest sum (record q.1 { path = pop (q.1).path })
  ]

  after_first-Tried :
      (rest : List Candidate) (sum : ℕ) (q : Bool × DfsContext) {r : Bool × DfsContext}
      → after_first rest sum q ≡ ok r
      → Tried rest sum q r
  unfolding after_first
  after_first-Tried rest sum (true, ctx) ran = inl (refl, sym (ok-injective ran))
  after_first-Tried rest sum (false, ctx) ran = inr (refl, ran)

  module _ (c : Candidate) (rest : List Candidate) (sum : ℕ) (ctx : DfsContext)
      (e : (length ctx.path == k) ≡ false)
      (go : (leb goal sum || ctx.iteration_limit == 0) ≡ false) where
    dfs-tries : dfs goal k (c ∷ rest) sum ctx ≡ (
        add_amounts sum c.1 >>= λ with_note.
        dfs goal k rest with_note
          (record ctx { iteration_limit = ctx.iteration_limit - 1; path = ctx.path ++ (c.0 ∷ []) })
        >>= λ q. after_first rest sum q)
    unfolding dfs after_first
    dfs-tries =
        let some_left : leb 1 ctx.iteration_limit ≡ true = ground (arith, go) in
        rw (dfs, e, go, some_left) refl

    dfs-inv :
        {r : Bool × DfsContext}
        → dfs goal k (c ∷ rest) sum ctx ≡ ok r
        → (q : Bool × DfsContext) × (dfs goal k rest (sum + c.1) (pushed goal k sum ctx c rest e)
            ≡ ok q)
          × Tried rest sum q r
    unfolding pushed
    dfs-inv {r} ran =
        let (next, add, ran1) = >>=-eq-ok (add_amounts sum c.1) _ (sym dfs-tries ∙ ran) in
        let at : next ≡ sum + c.1 = ground (arith, add) in
        let (q, ran_with, ran2) =
          >>=-eq-ok (dfs goal k rest next (pushed goal k sum ctx c rest e)) _ ran1 in
        (
          q,
          subst (λ m. dfs goal k rest m (pushed goal k sum ctx c rest e) ≡ ok q) at ran_with,
          after_first-Tried rest sum q ran2,
        )

  pub dfs-After :
      (rest : List Candidate) (sum : ℕ) (ctx : DfsContext) {r : Bool × DfsContext}
      → Sized k ctx
      → dfs goal k rest sum ctx ≡ ok r
      → After k ctx r
  unfolding pushed
  dfs-After [] sum ctx {r} sized ran = elim (Bool-cases (length ctx.path == k)) [
    | inl e ↦
        subst (After k ctx) (ok-injective (sym (full_path goal k sum ctx [] e) ∙ ran))
          (settle-After goal k sum ctx (ground (arith, e)) sized)
    | inr e ↦
        subst (After k ctx) (ok-injective (sym (no_candidate goal k sum ctx e) ∙ ran))
          (same-After k ctx sized)
  ]
  dfs-After (c ∷ rest) sum ctx {r} sized ran = elim (Bool-cases (length ctx.path == k)) [
    | inl e ↦
        subst (After k ctx) (ok-injective (sym (full_path goal k sum ctx (c ∷ rest) e) ∙ ran))
          (settle-After goal k sum ctx (ground (arith, e)) sized)
    | inr e ↦ elim (Bool-cases (leb goal sum || ctx.iteration_limit == 0)) [
      | inl stop ↦
          subst (After k ctx) (ok-injective (sym (given_up goal k sum ctx c rest e stop) ∙ ran))
            (same-After k ctx sized)
      | inr go ↦
          let (q, ran_with, tried) = dfs-inv c rest sum ctx e go ran in
          let with_c = dfs-After rest (sum + c.1) (pushed goal k sum ctx c rest e) sized ran_with in
          elim tried [
            | inl (hit, same) ↦ subst (After k ctx) (sym same) (record {
              path_size = λ t. with_c.path_size hit;
              best_size = with_c.best_size;
              keeps = with_c.keeps;
            })
            | inr (missed, ran_without) ↦
                let without_c =
                  dfs-After rest sum (record q.1 { path = pop (q.1).path }) with_c.best_size
                    ran_without in
                record {
                  path_size = without_c.path_size;
                  best_size = without_c.best_size;
                  keeps = λ b h. let (b', h') = with_c.keeps b h in without_c.keeps b' h';
                }
          ]
    ]
  ]

  Hit-Tried :
      (rest : List Candidate) (sum : ℕ) (q : Bool × DfsContext) {r : Bool × DfsContext}
      → Sized k q.1
      → Hit q
      → Tried rest sum q r
      → Hit r
  Hit-Tried rest sum q sized hit (inl (found, same)) =
      inl (ap (λ (x : Bool × DfsContext). x.0) same)
  Hit-Tried rest sum q sized (inl found) (inr (missed, ran)) = let e = sym found ∙ missed in cc
  Hit-Tried rest sum q sized (inr (b, kept)) (inr (missed, ran)) =
      inr ((dfs-After rest sum (record q.1 { path = pop (q.1).path }) sized ran).keeps b kept)

  -- Where the largest notes reach the goal with the last of them, the first path that is tried is a
  -- hit, and what follows keeps one.
  pub dfs-Hit :
      (m : ℕ) (rest : List Candidate) (sum : ℕ) (ctx : DfsContext) {r : Bool × DfsContext}
      → m + length ctx.path ≡ k
      → goal ≤ sum + top m rest
      → ((j : ℕ) → suc j ≡ m → sum + top j rest < goal)
      → m ≤ length rest
      → m ≤ ctx.iteration_limit
      → Sized k ctx
      → dfs goal k rest sum ctx ≡ ok r
      → Hit r
  unfolding pushed
  dfs-Hit zero rest sum ctx size reach before many limit sized ran =
      subst Hit (ok-injective (sym (full_path goal k sum ctx rest (ground (arith, size))) ∙ ran))
        (settle-Hit goal sum ctx (omega (arith, reach)))
  dfs-Hit (suc m) [] sum ctx size reach before many limit sized ran = absurd (omega (arith, many))
  dfs-Hit (suc m) (c ∷ rest) sum ctx {r} size reach before many limit sized ran =
      let low : sum + top m (c ∷ rest) < goal = before m refl in
      let e : (length ctx.path == k) ≡ false = ne→== (length ctx.path) k (omega (arith, size)) in
      let low' : leb goal sum ≡ false = lt→leb goal sum (omega (arith, low)) in
      let go : (leb goal sum || ctx.iteration_limit == 0) ≡ false =
        simp (low', ne→== ctx.iteration_limit 0 (omega (arith, limit))) in
      let (q, ran_with, tried) = dfs-inv c rest sum ctx e go ran in
      let hit =
        dfs-Hit m rest (sum + c.1) (pushed goal k sum ctx c rest e)
          (omega (arith, size, length-append ctx.path (c.0 ∷ []))) (omega (arith, reach))
          (λ j one.
            let more : top (suc j) (c ∷ rest) ≡ top m (c ∷ rest) = ap (λ n. top n (c ∷ rest)) one in
            omega (arith, low, more))
          (omega (arith, many)) (omega (arith, limit)) sized ran_with in
      let after = dfs-After rest (sum + c.1) (pushed goal k sum ctx c rest e) sized ran_with in
      Hit-Tried rest sum q after.best_size hit tried
