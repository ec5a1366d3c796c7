-- ===== src/Heap/Up.antt =====
-- `_sift_up` and `heapify` of dpark/utils/heaponkey.py.
use dpark.Common.{
  ℕ, zero, suc, ◌+◌, ◌*◌, ◌/◌, ◌≤◌, ◌<◌, ◌≡◌, refl, sym, ap, ◌∙◌, Bool, true, false, not, ◌&&◌,
  List, length, get_or, set, ltb, ◌==◌, arith, Bool-cases, inl, inr,
}
use mathlib.Core.Path.{subst}
use dpark.Heap.{parent_of, child_of, sift_up, heapify_from, heapify}
use dpark.Heap.Order.{total, IsOrder, IsHeap}
use dpark.Heap.Swap.{
  placed, IsHeapFrom, IsHeapBut, child_of-IsChild, swapped, length-swapped, total-swapped,
  every-swapped, swapped-IsHeapBut,
}

module _ {A : Type 0} (cmp_lt : A → A → Bool) (Above : A → A → Type 0)
    (order : IsOrder cmp_lt Above) (default : A) where
  abbrev at : List A → ℕ → A
  at h i = get_or h i default

  -- what `_sift_up` makes of a list
  pub record IsSifted (lo : ℕ) (h h' : List A) : Type 1 where
    pub heap : IsHeapFrom cmp_lt Above order default lo h'
    pub size : length h' ≡ length h
    pub items : (f : A → ℕ) → total f h' ≡ total f h
    pub every :
        (P : A → Type 0)
        → ((i : ℕ) → i < length h → P (at h i))
        → (i : ℕ) → i < length h'
        → P (at h' i)

  step_swap :
      (n : ℕ) (h : List A) (pos : ℕ)
      → (let c = child_of cmp_lt default h pos in
          (ltb (2 * pos + 1) (length h) && not (cmp_lt (at h pos) (at h c))) ≡ true)
      → (let c = child_of cmp_lt default h pos in
          sift_up cmp_lt default (suc n) h pos
          ≡ sift_up cmp_lt default n (set (set h pos (at h c)) c (at h pos)) c)
  unfolding sift_up
  step_swap n h pos e = rw (sift_up, e) refl

  step_stop :
      (n : ℕ) (h : List A) (pos : ℕ)
      → (let c = child_of cmp_lt default h pos in
          (ltb (2 * pos + 1) (length h) && not (cmp_lt (at h pos) (at h c))) ≡ false)
      → sift_up cmp_lt default (suc n) h pos ≡ h
  unfolding sift_up
  step_stop n h pos e = rw (sift_up, e) refl

  -- the item at `pos` may stay
  settled :
      (lo : ℕ) (h : List A) (pos : ℕ)
      → IsHeapBut cmp_lt Above order default lo h pos
      → ((i : ℕ) → 0 < i → i < length h → parent_of i ≡ pos → Above (at h pos) (at h i))
      → IsHeapFrom cmp_lt Above order default lo h
  settled lo h pos b f i p q m = elim (Bool-cases (parent_of i == pos)) [
    | inl e ↦
        let e' : parent_of i ≡ pos = ground arith in
        placed cmp_lt Above order default (ap (at h) (sym e')) refl (f i p q e')
    | inr e ↦ b.others i p q m e
  ]

  pub sift_up-IsSifted :
      (n lo : ℕ) (h : List A) (pos : ℕ)
      → length h ≤ n + pos
      → IsHeapBut cmp_lt Above order default lo h pos
      → IsSifted lo h (sift_up cmp_lt default n h pos)
  unfolding sift_up
  sift_up-IsSifted zero lo h pos l b = record {
    heap = settled lo h pos b (λ i p q e. absurd (omega (arith, l, q, e, p)));
    size = refl;
    items = λ f. refl;
    every = λ P a. a;
  }
  sift_up-IsSifted (suc n) lo h pos l b =
      let c = child_of cmp_lt default h pos in
      elim (Bool-cases (ltb (2 * pos + 1) (length h) && not (cmp_lt (at h pos) (at h c)))) [
        | inl e ↦
            let g = child_of-IsChild cmp_lt Above order default h pos (ground (arith, e)) in
            let up = order.of_false (at h pos) (at h c) (ground (arith, e)) in
            let i =
              sift_up-IsSifted n lo (swapped cmp_lt Above order default lo h pos c g) c
                (omega (arith, l, length-swapped cmp_lt Above order default lo h pos c g, g.lower))
                (swapped-IsHeapBut cmp_lt Above order default lo h pos c g b up) in
            subst (IsSifted lo h) (sym (step_swap n h pos e)) (record {
              heap = i.heap;
              size = i.size ∙ length-swapped cmp_lt Above order default lo h pos c g;
              items = λ f. i.items f ∙ total-swapped cmp_lt Above order default lo h pos c g f;
              every = λ P a. i.every P (every-swapped cmp_lt Above order default lo h pos c g P a);
            })
        | inr e ↦ subst (IsSifted lo h) (sym (step_stop n h pos e)) (record {
          heap = settled lo h pos b (λ i p q r.
              let g = child_of-IsChild cmp_lt Above order default h pos (omega (arith, p, q, r)) in
              let x = order.of_true (at h pos) (at h c) (ground (arith, e, p, q, r)) in
              order.transitive (at h pos) (at h c) (at h i) x (g.best i p q r));
          size = refl;
          items = λ f. refl;
          every = λ P a. a;
        })
      ]

  heapify_from-IsSifted :
      (n : ℕ) (h : List A)
      → IsHeapFrom cmp_lt Above order default n h
      → IsSifted 0 h (heapify_from cmp_lt default n h)
  unfolding heapify_from
  heapify_from-IsSifted zero h b = record {
    heap = b;
    size = refl;
    items = λ f. refl;
    every = λ P a. a;
  }
  heapify_from-IsSifted (suc n) h b =
      let s = sift_up-IsSifted (length h) n h n (omega arith) (record {
        others = λ i p q m e. b i p q (ground (arith, m));
        over = λ i p q e r m. absurd (omega (arith, m, r));
      }) in
      let i = heapify_from-IsSifted n (sift_up cmp_lt default (length h) h n) s.heap in
      record {
        heap = i.heap;
        size = i.size ∙ s.size;
        items = λ f. i.items f ∙ s.items f;
        every = λ P a. i.every P (s.every P a);
      }

  -- `heapify` makes any list a heap with the same items, for a `cmp_lt` that decides an order.
  pub heapify-IsHeap :
      (h : List A)
      → IsHeap Above default (heapify cmp_lt default h)
        × ((f : A → ℕ) → total f (heapify cmp_lt default h) ≡ total f h)
  unfolding heapify
  heapify-IsHeap h =
      let i = heapify_from-IsSifted (length h / 2) h (λ i p q m. absurd (omega (arith, p, q, m))) in
      ((λ j p q. i.heap j p q (omega arith)), i.items)
