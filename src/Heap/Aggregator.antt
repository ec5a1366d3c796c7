-- ===== src/Heap/Aggregator.antt =====
-- `HeapAggregator` of dpark/dependency.py, which keeps the items of a key that come first, as many
-- as its limit says, in a heap of dpark/utils/heaponkey.py with the last of them on top.
use dpark.Common.{
  ℕ, ◌+◌, ◌≤◌, ◌<◌, ◌≡◌, refl, sym, ap, Bool, List, [], ◌∷◌, length, leb, if◌then◌else◌, arith,
  Bool-cases, inl, inr, ◌⊎◌, min,
}
use mathlib.Core.Path.{subst}
use dpark.Dependency.{Aggregator}
use dpark.Heap.{push, push_pop}
use dpark.Heap.Order.{total, IsOrder, IsHeap}
use dpark.Heap.Down.{push-IsHeap}
use dpark.Heap.Tops.{IsOnTop, push_pop-IsDropped}

module _ {A : Type 0} (cmp_lt : A → A → Bool) (default : A) (heap_limit : ℕ) where
  -- `mergeValue`, and the body of the loop of `mergeCombiners`
  unfoldable pub keep_value : List A → A → List A
  unfolding push push_pop
  keep_value s x =
      if leb heap_limit (length s) then (push_pop cmp_lt default s x).1 else push cmp_lt default s x

  -- the loop of `mergeCombiners`
  unfoldable pub keep_values : List A → List A → List A
  unfolding keep_value
  keep_values x [] = x
  keep_values x (item ∷ y) = keep_values (keep_value x item) y

  abbrev pub heap_aggregator : Aggregator A (List A)
  heap_aggregator = record {
    create_combiner = λ x. x ∷ [];
    merge_value = keep_value;
    merge_combiners = keep_values;
  }

module _ {A : Type 0} (cmp_lt : A → A → Bool) (Above : A → A → Type 0)
    (order : IsOrder cmp_lt Above) (default : A) (heap_limit : ℕ) where
  -- each item of the first list may stand above each of the second one
  abbrev pub AllOnTop : List A → List A → Type 0
  AllOnTop [] kept = Unit
  AllOnTop (d ∷ ds) kept = IsOnTop cmp_lt Above order default d kept × AllOnTop ds kept

  -- Of the items `all`, the heap `kept` has as many as the limit allows and `dropped` the others,
  -- and none of those comes before one that is kept.
  pub record IsBest (all kept dropped : List A) : Type 0 where
    pub heap : IsHeap Above default kept
    pub size : length kept ≡ min heap_limit (length all)
    pub items : (f : A → ℕ) → total f kept + total f dropped ≡ total f all
    pub full : (dropped ≡ []) ⊎ (heap_limit ≤ length kept)
    pub on_top : AllOnTop dropped kept

  AllOnTop-below :
      (ds kept kept' : List A)
      → ((d : A)
          → IsOnTop cmp_lt Above order default d kept
          → IsOnTop cmp_lt Above order default d kept')
      → AllOnTop ds kept
      → AllOnTop ds kept'
  AllOnTop-below [] kept kept' f a = tt
  AllOnTop-below (d ∷ ds) kept kept' f a = (f d a.0, AllOnTop-below ds kept kept' f a.1)

  keep_value-IsBest :
      (all kept dropped : List A) (x : A)
      → 0 < heap_limit
      → IsBest all kept dropped
      → (dropped' : List A) × IsBest
          (x ∷ all)
          (keep_value cmp_lt default heap_limit kept x)
          dropped'
  unfolding keep_value
  keep_value-IsBest all kept dropped x pos b = elim (Bool-cases (leb heap_limit (length kept))) [
    | inl c ↦
        let l : heap_limit ≤ length kept = ground arith in
        let r = push_pop cmp_lt default kept x in
        let p =
          push_pop-IsDropped cmp_lt Above order default kept x b.heap (omega (arith, l, pos)) in
        (
          r.0 ∷ dropped,
          subst
              (λ z.
                IsBest (x ∷ all) (if z then r.1 else push cmp_lt default kept x) (r.0 ∷ dropped))
              (sym c)
              (record {
                heap = p.heap;
                size = omega (arith, p.size, b.size, l);
                items = λ f. omega (arith, p.items f, b.items f);
                full = inr (omega (arith, p.size, l));
                on_top = (p.on_top, AllOnTop-below dropped kept r.1 p.below b.on_top);
              }),
        )
    | inr c ↦
        let l : length kept < heap_limit = ground arith in
        let (heap, size, items) = push-IsHeap cmp_lt Above order default kept x b.heap in
        let e : dropped ≡ [] = elim b.full [ inl y ↦ y | inr y ↦ absurd (omega (arith, l, y)) ] in
        let r = push_pop cmp_lt default kept x in
        (
          [],
          subst (λ z. IsBest (x ∷ all) (if z then r.1 else push cmp_lt default kept x) []) (sym c)
              (record {
                heap = heap;
                size = omega (arith, size, b.size, l);
                items = λ f. omega (arith, items f, b.items f, ap (total f) e);
                full = inl refl;
                on_top = tt;
              }),
        )
  ]

  -- the items in the order in which they are merged last
  abbrev pub merged : List A → List A → List A
  merged all [] = all
  merged all (x ∷ xs) = merged (x ∷ all) xs

  keep_values-IsBest :
      (items all kept dropped : List A)
      → 0 < heap_limit
      → IsBest all kept dropped
      → (dropped' : List A) × IsBest
          (merged all items)
          (keep_values cmp_lt default heap_limit kept items)
          dropped'
  unfolding keep_values
  keep_values-IsBest [] all kept dropped pos b = (dropped, b)
  keep_values-IsBest (x ∷ items) all kept dropped pos b =
      let (d, b') = keep_value-IsBest all kept dropped x pos b in
      keep_values-IsBest items (x ∷ all) (keep_value cmp_lt default heap_limit kept x) d pos b'

  -- `HeapAggregator` with a first item and then others merged one by one keeps a heap of just as
  -- many items as its limit allows, and drops only items that do not come before one it keeps, for
  -- a limit above zero and a `cmp_lt` that decides an order.
  pub heap_aggregator-IsBest :
      (x : A) (items : List A)
      → 0 < heap_limit
      → (dropped : List A) × IsBest
          (merged (x ∷ []) items)
          (keep_values cmp_lt default heap_limit (x ∷ []) items)
          dropped
  heap_aggregator-IsBest x items pos = keep_values-IsBest items (x ∷ []) (x ∷ []) [] pos (record {
    heap = λ i p q. absurd (omega (arith, p, q));
    size = omega (arith, pos);
    items = λ f. omega arith;
    full = inl refl;
    on_top = tt;
  })
