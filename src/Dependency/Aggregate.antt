-- ===== src/Dependency/Aggregate.antt =====
-- What `aggregate_sorted` of dpark/dependency.py computes for a key.
use dpark.Common.{
  ℕ, ◌≤◌, ◌<◌, ◌≡◌, refl, Option, none, some, List, [], ◌∷◌, ◌==◌, if◌then◌else◌, arith, lookup,
  Bool-cases, inl, inr,
}
use dpark.Dependency.{Aggregator, aggregate_from, aggregate_sorted}

-- the keys are at least `k` and do not fall
abbrev pub RisesFrom {ℓ} : {V : Type ℓ} → ℕ → List (ℕ × V) → Type 0
RisesFrom k [] = Unit
RisesFrom k ((j, v) ∷ l) = (k ≤ j) × RisesFrom j l

abbrev pub KeysSorted {ℓ} : {V : Type ℓ} → List (ℕ × V) → Type 0
KeysSorted [] = Unit
KeysSorted ((k, v) ∷ l) = RisesFrom k l

-- the keys are above `k` and rise
abbrev pub KeysAbove {ℓ} : {V : Type ℓ} → ℕ → List (ℕ × V) → Type 0
KeysAbove k [] = Unit
KeysAbove k ((j, v) ∷ l) = (k < j) × KeysAbove j l

abbrev pub KeysRise {ℓ} : {V : Type ℓ} → List (ℕ × V) → Type 0
KeysRise [] = Unit
KeysRise ((k, v) ∷ l) = KeysAbove k l

pub RisesFrom-le {ℓ} :
    {V : Type ℓ} (j i : ℕ) (l : List (ℕ × V)) → j ≤ i → RisesFrom i l → RisesFrom j l
RisesFrom-le j i [] h r = tt
RisesFrom-le j i ((k, v) ∷ l) h r = (omega (arith, h, r.0), r.1)

module _ {V C : Type 0} (agg : Aggregator V C) where
  -- the values of the key, merged one after the other
  abbrev pub merged : C → ℕ → List (ℕ × V) → C
  merged c k [] = c
  merged c k ((j, v) ∷ l) = if j == k then merged (agg.merge_value c v) k l else merged c k l

  abbrev pub combined : ℕ → List (ℕ × V) → Option C
  combined k [] = none
  combined k ((j, v) ∷ l) =
      if j == k then some (merged (agg.create_combiner v) k l) else combined k l

  merged-above : (l : List (ℕ × V)) (c : C) (j k : ℕ) → RisesFrom j l → k < j → merged c k l ≡ c
  merged-above [] c j k r h = refl
  merged-above ((i, v) ∷ l) c j k r h = ground (arith, r.0, merged-above l c i k r.1)

  aggregate_from-lookup :
      (l : List (ℕ × V)) (c : C) (j k : ℕ)
      → RisesFrom j l
      → lookup k (aggregate_from agg j c l) ≡ (if j == k then some (merged c k l) else combined k l)
  unfolding aggregate_from
  aggregate_from-lookup [] c j k r = ground arith
  aggregate_from-lookup ((i, v) ∷ l) c j k r = elim (Bool-cases (i == j)) [
    | inl p ↦
        ground
          (arith, aggregate_from-lookup l (agg.merge_value c v) j k (RisesFrom-le j i l r.0 r.1))
    | inr p ↦ ground (
      arith,
      aggregate_from-lookup l (agg.create_combiner v) i k r.1,
      merged-above l c i k r.1,
      r.0,
    )
  ]

  aggregate_from-above :
      (l : List (ℕ × V)) (c : C) (j k : ℕ)
      → RisesFrom j l
      → k < j
      → KeysAbove k (aggregate_from agg j c l)
  unfolding aggregate_from
  aggregate_from-above [] c j k r h = (h, tt)
  aggregate_from-above ((i, v) ∷ l) c j k r h = elim (Bool-cases (i == j)) [
    | inl p ↦ rw p (aggregate_from-above l (agg.merge_value c v) j k (RisesFrom-le j i l r.0 r.1) h)
    | inr p ↦ rw p (h, aggregate_from-above l (agg.create_combiner v) i j r.1 (ground (arith, r.0)))
  ]

  aggregate_from-rise :
      (l : List (ℕ × V)) (c : C) (j : ℕ) → RisesFrom j l → KeysRise (aggregate_from agg j c l)
  unfolding aggregate_from
  aggregate_from-rise [] c j r = tt
  aggregate_from-rise ((i, v) ∷ l) c j r = elim (Bool-cases (i == j)) [
    | inl p ↦ rw p (aggregate_from-rise l (agg.merge_value c v) j (RisesFrom-le j i l r.0 r.1))
    | inr p ↦ rw p (aggregate_from-above l (agg.create_combiner v) i j r.1 (ground (arith, r.0)))
  ]

  -- On items that are sorted by their keys, `aggregate_sorted` yields each key once, in rising
  -- order, with the values of the key merged one after the other, and no other key.
  pub aggregate_sorted_lem :
      (items : List (ℕ × V))
      → KeysSorted items
      → KeysRise (aggregate_sorted agg items)
        × ((k : ℕ) → lookup k (aggregate_sorted agg items) ≡ combined k items)
  unfolding aggregate_sorted
  aggregate_sorted_lem [] s = (tt, λ k. refl)
  aggregate_sorted_lem ((j, v) ∷ l) s = (
    aggregate_from-rise l (agg.create_combiner v) j s,
    λ k. aggregate_from-lookup l (agg.create_combiner v) j k s,
  )
