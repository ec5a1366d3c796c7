-- ===== src/Shuffle/Runs.antt =====
-- `heap_merged` of dpark/shuffle.py on lists that are sorted by their keys.
use dpark.Common.{
  ℕ, zero, suc, ◌≤◌, ◌<◌, ◌≡◌, refl, sym, ap, ◌∙◌, true, false, Option, none, some, List, [], ◌∷◌,
  lookup, ◌==◌, if◌then◌else◌, arith, Bool-cases, Option-cases, inl, inr,
}
use mathlib.Core.Path.{subst}
use dpark.Common.Keyed.{fold_from, combine_all}
use dpark.Dependency.Aggregate.{KeysRise, KeysAbove}
use dpark.Shuffle.{pop_min, total_length, heap_merged_from, heap_merged}
use dpark.Shuffle.Heads.{
  select_all, AllFrom, AllSorted, AllFrom-AllSorted, select_all-above, pop_min-IsEmpty,
  pop_min-Pops, AllFrom-pop, IsEmpty,
}

module _ {C : Type 0} (op : C → C → C) where
  -- what the items of the lists come to for a key, after a last item with `j` and `c`
  abbrev after_last : ℕ → C → ℕ → List (List (ℕ × C)) → Option C
  after_last j c k ls =
      if j == k then some (fold_from op c (select_all k ls)) else combine_all op (select_all k ls)

  step_none :
      (n j : ℕ) (c : C) (ls : List (List (ℕ × C)))
      → pop_min ls ≡ none
      → heap_merged_from op (suc n) j c ls ≡ (j, c) ∷ []
  unfolding heap_merged_from
  step_none n j c ls p = rw (p, heap_merged_from) refl

  step_same :
      (n j : ℕ) (c : C) (ls : List (List (ℕ × C))) (i : ℕ) (v : C) (rest : List (List (ℕ × C)))
      → pop_min ls ≡ some ((i, v), rest)
      → (i == j) ≡ true
      → heap_merged_from op (suc n) j c ls ≡ heap_merged_from op n j (op c v) rest
  unfolding heap_merged_from
  step_same n j c ls i v rest p q = rw (p, heap_merged_from, q) refl

  step_other :
      (n j : ℕ) (c : C) (ls : List (List (ℕ × C))) (i : ℕ) (v : C) (rest : List (List (ℕ × C)))
      → pop_min ls ≡ some ((i, v), rest)
      → (i == j) ≡ false
      → heap_merged_from op (suc n) j c ls ≡ (j, c) ∷ heap_merged_from op n i v rest
  unfolding heap_merged_from
  step_other n j c ls i v rest p q = rw (p, heap_merged_from, q) refl

  last_lookup :
      (j : ℕ) (c : C) (ls : List (List (ℕ × C))) (k : ℕ)
      → IsEmpty ls
      → lookup k ((j, c) ∷ []) ≡ after_last j c k ls
  last_lookup j c ls k e = rw (e.no_value k) refl

  after_last-same :
      (j : ℕ) (c : C) (k i : ℕ) (v : C) (ls rest : List (List (ℕ × C)))
      → (i == j) ≡ true
      → select_all k ls ≡ (if i == k then v ∷ select_all k rest else select_all k rest)
      → after_last j c k ls ≡ after_last j (op c v) k rest
  after_last-same j c k i v ls rest q e = ground (arith, e)

  after_last-other :
      (j : ℕ) (c : C) (k i : ℕ) (v : C) (ls rest : List (List (ℕ × C)))
      → j < i
      → AllFrom i ls
      → select_all k ls ≡ (if i == k then v ∷ select_all k rest else select_all k rest)
      → after_last j c k ls ≡ (if j == k then some c else after_last i v k rest)
  after_last-other j c k i v ls rest h a e = ground (arith, e, select_all-above i k ls a)

  heap_merged_from-lookup :
      (n j : ℕ) (c : C) (ls : List (List (ℕ × C))) (k : ℕ)
      → AllFrom j ls
      → total_length ls ≤ n
      → lookup k (heap_merged_from op n j c ls) ≡ after_last j c k ls
  unfolding heap_merged_from
  heap_merged_from-lookup zero j c ls k a h = elim (Option-cases (pop_min ls)) [
    | inl p ↦ last_lookup j c ls k (pop_min-IsEmpty ls p)
    | inr (((i, v), rest), p) ↦
        let r = pop_min-Pops ls i v rest (AllFrom-AllSorted j ls a) p in
        absurd (omega (arith, r.size, h))
  ]
  heap_merged_from-lookup (suc n) j c ls k a h = elim (Option-cases (pop_min ls)) [
    | inl p ↦ ap (lookup k) (step_none n j c ls p) ∙ last_lookup j c ls k (pop_min-IsEmpty ls p)
    | inr (((i, v), rest), p) ↦
        let r = pop_min-Pops ls i v rest (AllFrom-AllSorted j ls a) p in
        let m : total_length rest ≤ n = omega (arith, r.size, h) in
        elim (Bool-cases (i == j)) [
          | inl q ↦
              let e : i ≡ j = ground arith in
              let f : AllFrom j rest = subst (λ z. AllFrom z rest) e r.later in
              ap (lookup k) (step_same n j c ls i v rest p q)
              ∙ heap_merged_from-lookup n j (op c v) rest k f m
              ∙ sym (after_last-same j c k i v ls rest q (r.values k))
          | inr q ↦
              let b = AllFrom-pop j ls i v rest a p in
              ap (lookup k) (step_other n j c ls i v rest p q)
              ∙ ap (λ z. if j == k then some c else z)
                  (heap_merged_from-lookup n i v rest k r.later m)
              ∙ sym (after_last-other j c k i v ls rest (ground arith) r.from (r.values k))
        ]
  ]

  above :
      (n i : ℕ) (v : C) (ls : List (List (ℕ × C))) (j : ℕ)
      → AllFrom i ls
      → total_length ls ≤ n
      → j < i
      → KeysAbove j (heap_merged_from op n i v ls)
  unfolding heap_merged_from
  above zero i v ls j a h l = (l, tt)
  above (suc n) i v ls j a h l = elim (Option-cases (pop_min ls)) [
    | inl p ↦ subst (KeysAbove j) (sym (step_none n i v ls p)) (l, tt)
    | inr (((i', v'), rest), p) ↦
        let r = pop_min-Pops ls i' v' rest (AllFrom-AllSorted i ls a) p in
        let m : total_length rest ≤ n = omega (arith, r.size, h) in
        elim (Bool-cases (i' == i)) [
          | inl q ↦
              let e : i' ≡ i = ground arith in
              subst (KeysAbove j) (sym (step_same n i v ls i' v' rest p q))
                (above n i (op v v') rest j (subst (λ z. AllFrom z rest) e r.later) m l)
          | inr q ↦
              subst (KeysAbove j) (sym (step_other n i v ls i' v' rest p q)) (
                l,
                above n i' v' rest i r.later m (ground (arith, AllFrom-pop i ls i' v' rest a p)),
              )
        ]
  ]

  merged_none : (ls : List (List (ℕ × C))) → pop_min ls ≡ none → heap_merged op ls ≡ []
  unfolding heap_merged
  merged_none ls p = rw (p, heap_merged) refl

  merged_some :
      (ls : List (List (ℕ × C))) (i : ℕ) (v : C) (rest : List (List (ℕ × C)))
      → pop_min ls ≡ some ((i, v), rest)
      → heap_merged op ls ≡ heap_merged_from op (total_length rest) i v rest
  unfolding heap_merged
  merged_some ls i v rest p = rw (p, heap_merged) refl

  rise :
      (n i : ℕ) (v : C) (ls : List (List (ℕ × C)))
      → AllFrom i ls
      → total_length ls ≤ n
      → KeysRise (heap_merged_from op n i v ls)
  unfolding heap_merged_from
  rise zero i v ls a h = tt
  rise (suc n) i v ls a h = elim (Option-cases (pop_min ls)) [
    | inl p ↦ subst KeysRise (sym (step_none n i v ls p)) tt
    | inr (((i', v'), rest), p) ↦
        let r = pop_min-Pops ls i' v' rest (AllFrom-AllSorted i ls a) p in
        let m : total_length rest ≤ n = omega (arith, r.size, h) in
        elim (Bool-cases (i' == i)) [
          | inl q ↦
              let e : i' ≡ i = ground arith in
              subst KeysRise (sym (step_same n i v ls i' v' rest p q))
                (rise n i (op v v') rest (subst (λ z. AllFrom z rest) e r.later) m)
          | inr q ↦
              subst KeysRise (sym (step_other n i v ls i' v' rest p q))
                (above n i' v' rest i r.later m (ground (arith, AllFrom-pop i ls i' v' rest a p)))
        ]
  ]

  heap_merged-KeysRise : (ls : List (List (ℕ × C))) → AllSorted ls → KeysRise (heap_merged op ls)
  unfolding heap_merged
  heap_merged-KeysRise ls s = elim (Option-cases (pop_min ls)) [
    | inl p ↦ subst KeysRise (sym (merged_none ls p)) tt
    | inr (((i, v), rest), p) ↦
        let r = pop_min-Pops ls i v rest s p in
        subst KeysRise (sym (merged_some ls i v rest p))
          (rise (total_length rest) i v rest r.later (omega arith))
  ]

  pub heap_merged-lookup :
      (ls : List (List (ℕ × C)))
      → AllSorted ls
      → (k : ℕ) → lookup k (heap_merged op ls) ≡ combine_all op (select_all k ls)
  unfolding heap_merged
  heap_merged-lookup ls s k = elim (Option-cases (pop_min ls)) [
    | inl p ↦
        ap (lookup k) (merged_none ls p)
        ∙ sym (ap (combine_all op) ((pop_min-IsEmpty ls p).no_value k))
    | inr (((i, v), rest), p) ↦
        let r = pop_min-Pops ls i v rest s p in
        ap (lookup k) (merged_some ls i v rest p)
        ∙ heap_merged_from-lookup (total_length rest) i v rest k r.later (omega arith)
        ∙ ground (arith, r.values k)
  ]

  -- On lists that are sorted by their keys, `heap_merged` yields each key once, in rising order,
  -- with the values of the key combined list by list, and no other key.
  pub heap_merged_lem :
      (ls : List (List (ℕ × C)))
      → AllSorted ls
      → KeysRise (heap_merged op ls)
        × ((k : ℕ) → lookup k (heap_merged op ls) ≡ combine_all op (select_all k ls))
  heap_merged_lem ls s = (heap_merged-KeysRise ls s, heap_merged-lookup ls s)
