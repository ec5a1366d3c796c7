-- ===== src/Shuffle/Heads.antt =====
-- `heapq.heappop` in `heap_merged` of dpark/shuffle.py: the first of the least heads of the lists.
use dpark.Common.{
  ℕ, suc, ◌≤◌, ◌<◌, ◌≡◌, refl, ap, ◌∙◌, none, some, List, [], ◌∷◌, ◌++◌, leb, leb→le, ◌==◌,
  if◌then◌else◌, arith, Bool-cases, Option-cases, inl, inr,
}
use mathlib.Core.Path.{subst}
use dpark.Common.Keyed.{select}
use dpark.Dependency.Aggregate.{RisesFrom, RisesFrom-le, KeysSorted}
use dpark.Shuffle.{pop_min, total_length}

module _ {C : Type 0} where
  -- the values of a key in all lists, list by list
  abbrev pub select_all : ℕ → List (List (ℕ × C)) → List C
  select_all k [] = []
  select_all k (l ∷ ls) = select k l ++ select_all k ls

  abbrev pub AllFrom : ℕ → List (List (ℕ × C)) → Type 0
  AllFrom k [] = Unit
  AllFrom k (l ∷ ls) = RisesFrom k l × AllFrom k ls

  abbrev pub AllSorted : List (List (ℕ × C)) → Type 0
  AllSorted [] = Unit
  AllSorted (l ∷ ls) = KeysSorted l × AllSorted ls

  pub AllFrom-le : (j k : ℕ) (ls : List (List (ℕ × C))) → j ≤ k → AllFrom k ls → AllFrom j ls
  AllFrom-le j k [] h a = tt
  AllFrom-le j k (l ∷ ls) h a = (RisesFrom-le j k l h a.0, AllFrom-le j k ls h a.1)

  pub RisesFrom-KeysSorted : (k : ℕ) (l : List (ℕ × C)) → RisesFrom k l → KeysSorted l
  RisesFrom-KeysSorted k [] r = tt
  RisesFrom-KeysSorted k ((j, v) ∷ l) r = r.1

  pub AllFrom-AllSorted : (k : ℕ) (ls : List (List (ℕ × C))) → AllFrom k ls → AllSorted ls
  AllFrom-AllSorted k [] a = tt
  AllFrom-AllSorted k (l ∷ ls) a = (RisesFrom-KeysSorted k l a.0, AllFrom-AllSorted k ls a.1)

  pub select-above : (j k : ℕ) (l : List (ℕ × C)) → RisesFrom j l → k < j → select k l ≡ []
  select-above j k [] r h = refl
  select-above j k ((i, v) ∷ l) r h = ground (arith, r.0, select-above i k l r.1)

  pub select_all-above :
      (j k : ℕ) (ls : List (List (ℕ × C))) → AllFrom j ls → k < j → select_all k ls ≡ []
  select_all-above j k [] a h = refl
  select_all-above j k (l ∷ ls) a h = rw (select-above j k l a.0 h) (select_all-above j k ls a.1 h)

  -- nothing is left where there is no least head
  pub record IsEmpty (ls : List (List (ℕ × C))) : Type 0 where
    pub none_left : total_length ls ≡ 0
    pub no_value : (k : ℕ) → select_all k ls ≡ []
    pub all_from : (k : ℕ) → AllFrom k ls

  pub cons_nil-IsEmpty : (ls : List (List (ℕ × C))) → IsEmpty ls → IsEmpty ([] ∷ ls)
  cons_nil-IsEmpty ls e = record {
    none_left = omega (arith, e.none_left);
    no_value = e.no_value;
    all_from = λ k. (tt, e.all_from k);
  }

  pub pop_min-IsEmpty : (ls : List (List (ℕ × C))) → pop_min ls ≡ none → IsEmpty ls
  unfolding pop_min
  pop_min-IsEmpty [] e = record { none_left = refl; no_value = λ k. refl; all_from = λ k. tt }
  pop_min-IsEmpty ([] ∷ ls) e = elim (Option-cases (pop_min ls)) [
    | inl p ↦ cons_nil-IsEmpty ls (pop_min-IsEmpty ls p)
    | inr (x, p) ↦ ground arith
  ]
  pop_min-IsEmpty ((x ∷ l) ∷ ls) e = elim (Option-cases (pop_min ls)) [
    | inl p ↦ ground arith
    | inr (y, p) ↦ ground arith
  ]

  -- The item `k`, `v` is the first of the least ones, and `rest` is what is left.
  pub record Pops (ls : List (List (ℕ × C))) (k : ℕ) (v : C) (rest : List (List (ℕ × C)))
      : Type 0 where
    pub values :
        (i : ℕ) → select_all i ls ≡ (if k == i then v ∷ select_all i rest else select_all i rest)
    pub from : AllFrom k ls
    pub later : AllFrom k rest
    pub size : total_length ls ≡ suc (total_length rest)

  pub pop_first :
      (k : ℕ) (v : C) (l : List (ℕ × C)) (ls : List (List (ℕ × C)))
      → RisesFrom k l
      → AllFrom k ls
      → Pops ((((k, v)) ∷ l) ∷ ls) k v (l ∷ ls)
  pop_first k v l ls r a = record {
    values = λ i. elim (Bool-cases (k == i)) [ inl p ↦ rw p refl | inr p ↦ rw p refl ];
    from = ((omega arith, r), a);
    later = (r, a);
    size = omega arith;
  }

  pub pop_later :
      (j : ℕ) (w : C) (k : ℕ) (v : C) (l : List (ℕ × C)) (ls rest : List (List (ℕ × C)))
      → k < j
      → RisesFrom j l
      → Pops ls k v rest
      → Pops (((j, w) ∷ l) ∷ ls) k v (((j, w) ∷ l) ∷ rest)
  pop_later j w k v l ls rest h r p = record {
    values = λ i. elim (Bool-cases (k == i)) [
      | inl q ↦ ground (arith, p.values i, select-above j i l r)
      | inr q ↦ rw q (ap (λ z. select i ((j, w) ∷ l) ++ z) (p.values i ∙ rw q refl))
    ];
    from = ((omega (arith, h), r), p.from);
    later = ((omega (arith, h), r), p.later);
    size = omega (arith, p.size);
  }

  pub pop_skip :
      (ls : List (List (ℕ × C))) (k : ℕ) (v : C) (rest : List (List (ℕ × C)))
      → Pops ls k v rest
      → Pops ([] ∷ ls) k v ([] ∷ rest)
  pop_skip ls k v rest p = record {
    values = p.values;
    from = (tt, p.from);
    later = (tt, p.later);
    size = omega (arith, p.size);
  }

  pub pop_min-Pops :
      (ls : List (List (ℕ × C))) (k : ℕ) (v : C) (rest : List (List (ℕ × C)))
      → AllSorted ls
      → pop_min ls ≡ some ((k, v), rest)
      → Pops ls k v rest
  unfolding pop_min
  pop_min-Pops [] k v rest s e = cc
  pop_min-Pops ([] ∷ ls) k v rest s e = elim (Option-cases (pop_min ls)) [
    | inl p ↦ ground arith
    | inr (((k', v'), rest'), p) ↦
        let x : (ℕ × C) × List (List (ℕ × C)) = ((k', v'), [] ∷ rest') in
        let q : x ≡ ((k, v), rest) = ground arith in
        subst (λ z. Pops ([] ∷ ls) z.0.0 z.0.1 z.1) q
          (pop_skip ls k' v' rest' (pop_min-Pops ls k' v' rest' s.1 p))
  ]
  pop_min-Pops (((j, w) ∷ l) ∷ ls) k v rest s e = elim (Option-cases (pop_min ls)) [
    | inl p ↦
        let x : (ℕ × C) × List (List (ℕ × C)) = ((j, w), l ∷ ls) in
        let q : x ≡ ((k, v), rest) = ground arith in
        subst (λ z. Pops (((j, w) ∷ l) ∷ ls) z.0.0 z.0.1 z.1) q
          (pop_first j w l ls s.0 ((pop_min-IsEmpty ls p).all_from j))
    | inr (((k', v'), rest'), p) ↦
        let r = pop_min-Pops ls k' v' rest' s.1 p in
        elim (Bool-cases (leb j k')) [
          | inl b ↦
              let x : (ℕ × C) × List (List (ℕ × C)) = ((j, w), l ∷ ls) in
              let q : x ≡ ((k, v), rest) = ground arith in
              subst (λ z. Pops (((j, w) ∷ l) ∷ ls) z.0.0 z.0.1 z.1) q
                (pop_first j w l ls s.0 (AllFrom-le j k' ls (leb→le j k' b) r.from))
          | inr b ↦
              let x : (ℕ × C) × List (List (ℕ × C)) = ((k', v'), ((j, w) ∷ l) ∷ rest') in
              let q : x ≡ ((k, v), rest) = ground arith in
              subst (λ z. Pops (((j, w) ∷ l) ∷ ls) z.0.0 z.0.1 z.1) q
                (pop_later j w k' v' l ls rest' (ground arith) s.0 r)
        ]
  ]

  -- a least item is not below what all items are not below
  pub AllFrom-pop :
      (j : ℕ) (ls : List (List (ℕ × C))) (k : ℕ) (v : C) (rest : List (List (ℕ × C)))
      → AllFrom j ls
      → pop_min ls ≡ some ((k, v), rest)
      → j ≤ k
  unfolding pop_min
  AllFrom-pop j [] k v rest a e = cc
  AllFrom-pop j ([] ∷ ls) k v rest a e = elim (Option-cases (pop_min ls)) [
    | inl p ↦ ground arith
    | inr (((k', v'), rest'), p) ↦ ground (arith, AllFrom-pop j ls k' v' rest' a.1 p)
  ]
  AllFrom-pop j (((i, w) ∷ l) ∷ ls) k v rest a e = elim (Option-cases (pop_min ls)) [
    | inl p ↦ ground (arith, a.0.0)
    | inr (((k', v'), rest'), p) ↦ ground (arith, a.0.0, AllFrom-pop j ls k' v' rest' a.1 p)
  ]
