-- ===== src/Heap.antt =====
-- dpark/utils/heaponkey.py: the heaps of `HeapOnKey`, which are lists. A list's item past its end,
-- where no operation looks, is `default`.
pub mod Order
pub mod Down
pub mod Swap
pub mod Up
pub mod Tops
pub mod Aggregator
mod Tests
use dpark.Common.{
  ℕ, zero, suc, ◌+◌, ◌-◌, ◌*◌, ◌/◌, Bool, true, false, not, ◌&&◌, Option, none, some, List, [], ◌∷◌,
  ◌++◌, length, get_or, set, ltb, if◌then◌else◌, Result, ok, raise, index_error,
}

-- `_setup_cmp`: `cmp_lt` for a key
abbrev pub cmp_on : {A : Type 0} → (A → ℕ) → Bool → A → A → Bool
cmp_on key min_heap x y = if min_heap then ltb (key x) (key y) else not (ltb (key x) (key y))

-- `heap.pop()`: what is left of a list without its last item, and that item
abbrev pub split_last : {A : Type 0} → A → List A → List A × A
split_last x [] = ([], x)
split_last x (y ∷ ys) = let rest = split_last y ys in (x ∷ rest.0, rest.1)

-- `(pos - 1) >> 1`
abbrev pub parent_of : ℕ → ℕ
parent_of pos = (pos - 1) / 2

module _ {A : Type 0} (cmp_lt : A → A → Bool) (default : A) where
  -- `_sift_down`, from `start_pos` 0; the position falls, so it is enough fuel
  unfoldable pub sift_down : ℕ → List A → A → ℕ → List A
  sift_down zero heap new_item pos = set heap pos new_item
  sift_down (suc n) heap new_item pos =
      let parent = get_or heap (parent_of pos) default in
      let rest = sift_down n (set heap pos parent) new_item (parent_of pos) in
      if ltb 0 pos && cmp_lt new_item parent then rest else set heap pos new_item

  -- the child that `_sift_up` compares with
  abbrev pub child_of : List A → ℕ → ℕ
  child_of heap pos =
      let child_pos = 2 * pos + 1 in
      if ltb (child_pos + 1) (length heap)
        && not (cmp_lt (get_or heap child_pos default) (get_or heap (child_pos + 1) default))
      then child_pos + 1
      else child_pos

  -- `_sift_up`: the position rises, so the length of the heap is enough fuel
  unfoldable pub sift_up : ℕ → List A → ℕ → List A
  sift_up zero heap pos = heap
  sift_up (suc n) heap pos =
      let child = child_of heap pos in
      let here = get_or heap pos default in
      let there = get_or heap child default in
      let rest = sift_up n (set (set heap pos there) child here) child in
      if ltb (2 * pos + 1) (length heap) && not (cmp_lt here there) then rest else heap

  -- `push`
  unfoldable pub push : List A → A → List A
  unfolding sift_down
  push heap item = sift_down (length heap) (heap ++ item ∷ []) item (length heap)

  -- `pop`: the item and the heap
  unfoldable pub pop : List A → Result (A × List A)
  unfolding sift_up
  pop [] = raise index_error
  pop (x ∷ xs) =
      let s = split_last x xs in
      elim s.0 [
        | [] ↦ ok (s.1, [])
        | ret_item ∷ _ ↦ ok (ret_item, sift_up (length s.0) (set s.0 0 s.1) 0)
      ]

  -- `push_pop`
  unfoldable pub push_pop : List A → A → A × List A
  unfolding sift_up
  push_pop [] item = (item, [])
  push_pop (x ∷ xs) item =
      if cmp_lt x item
      then (x, sift_up (length (x ∷ xs)) (set (x ∷ xs) 0 item) 0)
      else (item, x ∷ xs)

  -- `replace`
  unfoldable pub replace : List A → A → Result (A × List A)
  unfolding sift_up
  replace [] item = raise index_error
  replace (x ∷ xs) item = ok (x, sift_up (length (x ∷ xs)) (set (x ∷ xs) 0 item) 0)

  -- `heapify`: the loop from the last position that has a child
  unfoldable pub heapify_from : ℕ → List A → List A
  unfolding sift_up
  heapify_from zero heap = heap
  heapify_from (suc i) heap = heapify_from i (sift_up (length heap) heap i)

  unfoldable pub heapify : List A → List A
  unfolding heapify_from
  heapify heap = heapify_from (length heap / 2) heap
