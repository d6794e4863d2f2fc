-- ===== src/Planner/Sorting.antt =====
-- An insertion sort, as an instance of the unstable sort that the code calls.
use veil_server_v.Prelude.{
  ℕ, ◌≤◌, ◌<◌, List, [], ◌∷◌, arith, ltb, if◌then◌else◌, Bool-cases, inl, inr, refl,
}
use mathlib.Core.List.{Permᴰ}
use mathlib.Core.List.Permᴰ
use veil_server_v.Planner.Types.{Candidate}
use veil_server_v.Planner.Top.{Rises}

abbrev insert_by : Candidate → List Candidate → List Candidate
insert_by c [] = c ∷ []
insert_by c (d ∷ ds) = let rest = insert_by c ds in if ltb d.1 c.1 then d ∷ rest else c ∷ d ∷ ds

abbrev pub sort_by_amount : List Candidate → List Candidate
sort_by_amount [] = []
sort_by_amount (c ∷ cs) = insert_by c (sort_by_amount cs)

insert_by-Perm : (c : Candidate) (ds : List Candidate) → Permᴰ (insert_by c ds) (c ∷ ds)
insert_by-Perm c [] = Permᴰ.refl (c ∷ [])
insert_by-Perm c (d ∷ ds) = elim (Bool-cases (ltb d.1 c.1)) [
  | inl e ↦ rw e (Permᴰ.trans (Permᴰ.cons refl (insert_by-Perm c ds)) (Permᴰ.swap refl refl))
  | inr e ↦ rw e (Permᴰ.refl (c ∷ d ∷ ds))
]

pub sort_by_amount-Perm : (cs : List Candidate) → Permᴰ (sort_by_amount cs) cs
sort_by_amount-Perm [] = Permᴰ.nil
sort_by_amount-Perm (c ∷ cs) =
    Permᴰ.trans (insert_by-Perm c (sort_by_amount cs)) (Permᴰ.cons refl (sort_by_amount-Perm cs))

insert_by-Rises :
    (low : ℕ) (c : Candidate) (ds : List Candidate)
    → low ≤ c.1
    → Rises low ds
    → Rises low (insert_by c ds)
insert_by-Rises low c [] le r = (le, tt)
insert_by-Rises low c (d ∷ ds) le r = elim (Bool-cases (ltb d.1 c.1)) [
  | inl e ↦
      let less : d.1 < c.1 = ground (arith, e) in
      rw e (r.0, insert_by-Rises d.1 c ds (omega (arith, less)) r.1)
  | inr e ↦ let more : c.1 ≤ d.1 = ground (arith, e) in rw e (le, (more, r.1))
]

pub sort_by_amount-Rises : (cs : List Candidate) → Rises 0 (sort_by_amount cs)
sort_by_amount-Rises [] = tt
sort_by_amount-Rises (c ∷ cs) =
    insert_by-Rises 0 c (sort_by_amount cs) (omega arith) (sort_by_amount-Rises cs)
