-- ===== src/Heap/Tops.antt =====
-- `pop` and `push_pop` of dpark/utils/heaponkey.py: what they take is on top of the rest.
use dpark.Common.{
  ℕ, zero, suc, ◌+◌, ◌<◌, ◌≡◌, refl, sym, ap, ◌∙◌, Bool, false, List, [], ◌∷◌, ◌++◌, length, get_or,
  ◌==◌, if◌then◌else◌, ok, arith, Bool-cases, inl, inr,
}
use mathlib.Core.Path.{subst}
use dpark.Heap.{parent_of, sift_up, split_last, pop, push_pop}
use dpark.Heap.Order.{total, total-append, IsOrder, IsHeap}
use dpark.Heap.Down.{parent-lt}
use dpark.Heap.Swap.{placed}
use dpark.Heap.Up.{IsSifted, sift_up-IsSifted}

module _ {A : Type 0} (cmp_lt : A → A → Bool) (Above : A → A → Type 0)
    (order : IsOrder cmp_lt Above) (default : A) where
  -- an item may stand above all items of a list
  abbrev pub IsOnTop : A → List A → Type 0
  IsOnTop x h = (i : ℕ) → i < length h → Above x (get_or h i default)

  top_down :
      (n : ℕ) (h : List A)
      → IsHeap Above default h
      → (i : ℕ) → i < n
      → i < length h
      → Above (get_or h 0 default) (get_or h i default)
  top_down zero h g i m l = absurd (omega (arith, m))
  top_down (suc n) h g zero m l = order.reflexive (get_or h 0 default)
  top_down (suc n) h g (suc i) m l =
      let lt = parent-lt (suc i) (omega arith) in
      order.transitive (get_or h 0 default) (get_or h (parent_of (suc i)) default)
        (get_or h (suc i) default)
        (top_down n h g (parent_of (suc i)) (omega (arith, lt, m)) (omega (arith, lt, l)))
        (g (suc i) (omega arith) l)

  pub heap-IsOnTop : (x : A) (xs : List A) → IsHeap Above default (x ∷ xs) → IsOnTop x (x ∷ xs)
  heap-IsOnTop x xs g i l = top_down (suc i) (x ∷ xs) g i (omega arith) l

  -- the first item is replaced, and sifted
  abbrev replaced : A → A → List A → List A
  replaced x y xs = sift_up cmp_lt default (length (x ∷ xs)) (y ∷ xs) 0

  replaced-IsSifted :
      (x y : A) (xs : List A)
      → IsHeap Above default (x ∷ xs)
      → IsSifted cmp_lt Above order default 0 (y ∷ xs) (replaced x y xs)
  replaced-IsSifted x y xs g =
      sift_up-IsSifted cmp_lt Above order default (length (x ∷ xs)) 0 (y ∷ xs) 0 (omega arith)
        (record {
          others = λ i p q m n.
              placed cmp_lt Above order default (sym (at_other (parent_of i) n))
                (sym (at_other i (ground (arith, p)))) (g i p q);
          over = λ i p q e r m. absurd (omega (arith, r));
        })
    where
      at_other : (j : ℕ) → (j == 0) ≡ false → get_or (y ∷ xs) j default ≡ get_or (x ∷ xs) j default
      at_other zero h = cc h
      at_other (suc j) h = refl

  under_any :
      (P : A → Type 0) (y x : A) (ys : List A)
      → ((i : ℕ) → i < length (y ∷ ys) → P (get_or (y ∷ ys) i default))
      → P x
      → (i : ℕ) → i < length (x ∷ ys)
      → P (get_or (x ∷ ys) i default)
  under_any P y x ys a b zero q = b
  under_any P y x ys a b (suc i) q = a (suc i) q

  under : (y x : A) (ys : List A) → IsOnTop y (y ∷ ys) → Above y x → IsOnTop y (x ∷ ys)
  under y x ys t u = under_any (Above y) y x ys t u

  -- what `push_pop` of `x` onto `h` gives back and leaves
  pub record IsDropped (h : List A) (x : A) (r : A × List A) : Type 0 where
    pub heap : IsHeap Above default r.1
    pub size : length r.1 ≡ length h
    pub items : (f : A → ℕ) → total f r.1 + f r.0 ≡ total f h + f x
    pub on_top : IsOnTop r.0 r.1
    pub below : (d : A) → IsOnTop d h → IsOnTop d r.1

  -- `push_pop` leaves a heap of as many items: with the item that it gives back these are the items
  -- of the heap and the new one, and that item may stand above all that are left, for a heap that is
  -- not empty and a `cmp_lt` that decides an order.
  pub push_pop-IsDropped :
      (h : List A) (x : A)
      → IsHeap Above default h
      → 0 < length h
      → IsDropped h x (push_pop cmp_lt default h x)
  unfolding push_pop
  push_pop-IsDropped [] x g l = absurd (omega (arith, l))
  push_pop-IsDropped (y ∷ ys) x g l =
      let s = replaced-IsSifted y x ys g in
      let top = heap-IsOnTop y ys g in
      elim (Bool-cases (cmp_lt y x)) [
        | inl c ↦
            let r : A × List A = (y, replaced y x ys) in
            subst (λ z. IsDropped (y ∷ ys) x (if z then r else (x, y ∷ ys))) (sym c)
              (record {
                heap = λ i p q. s.heap i p q (omega arith);
                size = s.size;
                items = λ f. omega (arith, s.items f);
                on_top = s.every (Above y) (under y x ys top (order.of_true y x c));
                below = λ d a. s.every (Above d) (
                    under_any (Above d) y x ys a
                      (order.transitive d y x (a 0 (omega (arith, l))) (order.of_true y x c)));
              })
        | inr c ↦
            let r : A × List A = (y, replaced y x ys) in
            subst (λ z. IsDropped (y ∷ ys) x (if z then r else (x, y ∷ ys))) (sym c)
              (record {
                heap = g;
                size = refl;
                items = λ f. refl;
                on_top = λ i q.
                    order.transitive x y (get_or (y ∷ ys) i default) (order.of_false y x c)
                      (top i q);
                below = λ d a. a;
              })
      ]

  split_last-append :
      (x : A) (xs : List A) → (split_last x xs).0 ++ (split_last x xs).1 ∷ [] ≡ x ∷ xs
  split_last-append x [] = refl
  split_last-append x (y ∷ ys) = ap (λ z. x ∷ z) (split_last-append y ys)

  at_start :
      (l : List A) (x : A) (i : ℕ)
      → i < length l
      → get_or (l ++ x ∷ []) i default ≡ get_or l i default
  at_start [] x i h = absurd (omega (arith, h))
  at_start (y ∷ l) x zero h = refl
  at_start (y ∷ l) x (suc i) h = at_start l x i (omega (arith, h))

  at_end : (l : List A) (x : A) → get_or (l ++ x ∷ []) (length l) default ≡ x
  at_end [] x = refl
  at_end (y ∷ l) x = at_end l x

  length-end : (l : List A) (x : A) → length (l ++ x ∷ []) ≡ length l + 1
  length-end [] x = refl
  length-end (y ∷ l) x = omega (arith, length-end l x)

  start-IsHeap : (l : List A) (x : A) → IsHeap Above default (l ++ x ∷ []) → IsHeap Above default l
  start-IsHeap l x g i p q =
      placed cmp_lt Above order default
        (at_start l x (parent_of i) (omega (arith, parent-lt i p, q))) (at_start l x i q)
        (g i p (omega (arith, q, length-end l x)))

  -- what `pop` leaves, of a heap with `x` as its first item
  pub record IsPopped (x : A) (xs h : List A) : Type 0 where
    heap : IsHeap Above default h
    items : (f : A → ℕ) → total f h + f x ≡ total f (x ∷ xs)
    on_top : IsOnTop x h

  pop_rest :
      (x : A) (rest : List A) (last : A) (ys : List A)
      → rest ++ last ∷ [] ≡ ys
      → IsHeap Above default (x ∷ ys)
      → IsPopped x ys (replaced x last rest)
  pop_rest x rest last ys e g =
      let h : IsHeap Above default (x ∷ rest) =
        start-IsHeap (x ∷ rest) last (subst (λ z. IsHeap Above default (x ∷ z)) (sym e) g) in
      let s = replaced-IsSifted x last rest h in
      let top = heap-IsOnTop x ys g in
      let u : Above x last =
        subst (Above x) (ap (λ z. get_or z (length rest) default) (sym e) ∙ at_end rest last)
          (top (suc (length rest)) (omega (arith, length-end rest last, ap length e))) in
      record {
        heap = λ i p q. s.heap i p q (omega arith);
        items = λ f. omega (arith, s.items f, total-append f rest (last ∷ []), ap (total f) e);
        on_top = s.every (Above x) (under x last rest (heap-IsOnTop x rest h) u);
      }

  -- `pop` takes the first item of a heap, which may stand above all others, and leaves a heap of
  -- just the others, for a `cmp_lt` that decides an order.
  pub pop-IsPopped :
      (x : A) (xs : List A)
      → IsHeap Above default (x ∷ xs)
      → (h : List A) × (pop cmp_lt default (x ∷ xs) ≡ ok (x, h)) × IsPopped x xs h
  unfolding pop
  pop-IsPopped x [] g = (
    [],
    refl,
    record {
      heap = λ i p q. absurd (omega (arith, q));
      items = λ f. omega arith;
      on_top = λ i q. absurd (omega (arith, q));
    },
  )
  pop-IsPopped x (y ∷ ys) g =
      let s = split_last y ys in
      (replaced x s.1 s.0, refl, pop_rest x s.0 s.1 (y ∷ ys) (split_last-append y ys) g)
