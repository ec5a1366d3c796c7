-- ===== src/Heap/Tests.antt =====
-- Runs of the heaps, and their theorems at them.
use dpark.Common.{ℕ, zero, suc, ◌+◌, ◌≡◌, refl, Bool, false, List, [], ◌∷◌, length, ok, arith}
use dpark.Heap.{cmp_on, push, pop, push_pop, heapify}
use dpark.Heap.Order.{total, IsHeap, AboveOn, cmp_on-IsOrder}
use dpark.Heap.Down.{push-IsHeap}
use dpark.Heap.Up.{heapify-IsHeap}
use dpark.Heap.Tops.{IsPopped, pop-IsPopped, IsDropped, push_pop-IsDropped}
use dpark.Heap.Aggregator.{keep_values, merged, IsBest, heap_aggregator-IsBest}

abbrev itself : ℕ → ℕ
itself x = x

-- the greatest number on top
abbrev cmp_greatest : ℕ → ℕ → Bool
cmp_greatest = cmp_on itself false

some_heap : heapify cmp_greatest 0 (4 ∷ 9 ∷ 2 ∷ 7 ∷ []) ≡ 9 ∷ 7 ∷ 2 ∷ 4 ∷ []
unfolding heapify
some_heap = refl

heapify-IsHeap_example :
    IsHeap (AboveOn itself false) 0 (heapify cmp_greatest 0 (4 ∷ 9 ∷ 2 ∷ 7 ∷ []))
    × ((f : ℕ → ℕ)
        → total f (heapify cmp_greatest 0 (4 ∷ 9 ∷ 2 ∷ 7 ∷ [])) ≡ total f (4 ∷ 9 ∷ 2 ∷ 7 ∷ []))
heapify-IsHeap_example =
    heapify-IsHeap cmp_greatest (AboveOn itself false) (cmp_on-IsOrder itself false) 0
      (4 ∷ 9 ∷ 2 ∷ 7 ∷ [])

abbrev three : List ℕ
three = 5 ∷ 3 ∷ 4 ∷ []

three-IsHeap : IsHeap (AboveOn itself false) 0 three
three-IsHeap zero p q = absurd (omega (arith, p))
three-IsHeap (suc zero) p q = ground arith
three-IsHeap (suc (suc zero)) p q = ground arith
three-IsHeap (suc (suc (suc i))) p q = absurd (omega (arith, q))

pushed : push cmp_greatest 0 three 8 ≡ 8 ∷ 5 ∷ 4 ∷ 3 ∷ []
unfolding push
pushed = refl

push-IsHeap_example :
    IsHeap (AboveOn itself false) 0 (push cmp_greatest 0 three 8)
    × (length (push cmp_greatest 0 three 8) ≡ length three + 1)
    × ((f : ℕ → ℕ) → total f (push cmp_greatest 0 three 8) ≡ total f three + f 8)
push-IsHeap_example =
    push-IsHeap cmp_greatest (AboveOn itself false) (cmp_on-IsOrder itself false) 0 three 8
      three-IsHeap

popped : pop cmp_greatest 0 three ≡ ok (5, 4 ∷ 3 ∷ [])
unfolding pop
popped = refl

pop-IsPopped_example :
    (h : List ℕ) × (pop cmp_greatest 0 three ≡ ok (5, h))
    × IsPopped cmp_greatest (AboveOn itself false) (cmp_on-IsOrder itself false) 0 5 (3 ∷ 4 ∷ []) h
pop-IsPopped_example =
    pop-IsPopped cmp_greatest (AboveOn itself false) (cmp_on-IsOrder itself false) 0 5 (3 ∷ 4 ∷ [])
      three-IsHeap

push_popped : push_pop cmp_greatest 0 three 2 ≡ (5, 4 ∷ 3 ∷ 2 ∷ [])
unfolding push_pop
push_popped = refl

push_pop-IsDropped_example :
    IsDropped cmp_greatest
      (AboveOn itself false)
      (cmp_on-IsOrder itself false)
      0
      three
      2
      (push_pop cmp_greatest 0 three 2)
push_pop-IsDropped_example =
    push_pop-IsDropped cmp_greatest (AboveOn itself false) (cmp_on-IsOrder itself false) 0 three 2
      three-IsHeap (omega arith)

-- the two least of five
two_least : keep_values cmp_greatest 0 2 (4 ∷ []) (9 ∷ 2 ∷ 7 ∷ 3 ∷ []) ≡ 3 ∷ 2 ∷ []
unfolding keep_values
two_least = refl

heap_aggregator-IsBest_example :
    (dropped : List ℕ) × IsBest cmp_greatest
      (AboveOn itself false)
      (cmp_on-IsOrder itself false)
      0
      2
      (merged cmp_greatest
        (AboveOn itself false)
        (cmp_on-IsOrder itself false)
        0
        2
        (4 ∷ [])
        (9 ∷ 2 ∷ 7 ∷ 3 ∷ []))
      (keep_values cmp_greatest 0 2 (4 ∷ []) (9 ∷ 2 ∷ 7 ∷ 3 ∷ []))
      dropped
heap_aggregator-IsBest_example =
    heap_aggregator-IsBest cmp_greatest (AboveOn itself false) (cmp_on-IsOrder itself false) 0 2 4
      (9 ∷ 2 ∷ 7 ∷ 3 ∷ []) (omega arith)
