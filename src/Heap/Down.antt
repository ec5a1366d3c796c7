-- ===== src/Heap/Down.antt =====
-- `_sift_down` and `push` of dpark/utils/heaponkey.py.
use dpark.Common.{
  ℕ, zero, suc, ◌+◌, ◌≤◌, ◌<◌, ◌≡◌, refl, sym, ap, ◌∙◌, Bool, true, false, ◌&&◌, List, [], ◌∷◌,
  ◌++◌, length, length-set, length-append, get_or, set, ltb, ◌==◌, arith, Bool-cases, inl, inr,
}
use mathlib.Core.Path.{subst}
use dpark.Heap.{parent_of, sift_down, push}
use dpark.Heap.Order.{at-set_same, at-set_other, total, total-set, total-append, IsOrder, IsHeap}

pub parent-lt : (i : ℕ) → 0 < i → parent_of i < i
parent-lt i h = omega (arith, h)

module _ {A : Type 0} (cmp_lt : A → A → Bool) (Above : A → A → Type 0)
    (order : IsOrder cmp_lt Above) (default : A) where
  abbrev at : List A → ℕ → A
  at h i = get_or h i default

  pub move : {a a' b b' : A} → a ≡ a' → b ≡ b' → Above a b → Above a' b'
  move {a' = a'} {b = b} e f x = subst (λ z. Above a' z) f (subst (λ z. Above z b) e x)

  -- a heap but for the item at `pos`, which may belong higher up
  record IsHeapBut (h : List A) (pos : ℕ) : Type 0 where
    others :
        (i : ℕ) → 0 < i → i < length h → (i == pos) ≡ false → Above (at h (parent_of i)) (at h i)
    over :
        (i : ℕ)
        → 0 < i
        → i < length h
        → parent_of i ≡ pos
        → 0 < pos
        → Above (at h (parent_of pos)) (at h i)

  in_place :
      (h : List A) (pos : ℕ)
      → IsHeapBut h pos
      → (0 < pos → Above (at h (parent_of pos)) (at h pos))
      → IsHeap Above default h
  in_place h pos b f i p l = elim (Bool-cases (i == pos)) [
    | inr q ↦ b.others i p l q
    | inl q ↦
        let e : pos ≡ i = ground arith in
        subst (λ z. Above (at h (parent_of z)) (at h z)) e (f (omega (arith, e, p)))
  ]

  -- one step: the parent goes down, and the item to its place
  module _ (h : List A) (new : A) (pos : ℕ) (p : 0 < pos) (l : pos < length h) where
    abbrev above : ℕ
    above = parent_of pos

    abbrev before : List A
    before = set h pos new

    abbrev after : List A
    after = set (set h pos (at h above)) above new

    length-after : length after ≡ length h
    length-after = length-set (set h pos (at h above)) above new ∙ length-set h pos (at h above)

    after_above : at after above ≡ new
    after_above =
        at-set_same (set h pos (at h above)) above new default
          (omega (arith, length-set h pos (at h above), parent-lt pos p, l))

    after_pos : at after pos ≡ at h above
    after_pos =
        at-set_other (set h pos (at h above)) above pos new default
          (ground (arith, parent-lt pos p))
        ∙ at-set_same h pos (at h above) default l

    after_other : (j : ℕ) → (j == above) ≡ false → (j == pos) ≡ false → at after j ≡ at before j
    after_other j a b =
        at-set_other (set h pos (at h above)) above j new default a
        ∙ at-set_other h pos j (at h above) default b
        ∙ sym (at-set_other h pos j new default b)

    before_above : at before above ≡ at h above
    before_above = at-set_other h pos above new default (ground (arith, parent-lt pos p))

    total-after : (f : A → ℕ) → total f after ≡ total f before
    total-after f =
        let a = total-set f h pos (at h above) default l in
        let b = total-set f h pos new default l in
        let c =
          total-set f (set h pos (at h above)) above new default
            (omega (arith, length-set h pos (at h above), parent-lt pos p, l)) in
        let e : at (set h pos (at h above)) above ≡ at h above =
          at-set_other h pos above (at h above) default (ground (arith, parent-lt pos p)) in
        omega (arith, a, b, c, ap f e)

    step-IsHeapBut : IsHeapBut before pos → Above new (at h above) → IsHeapBut after above
    step-IsHeapBut b up =
        let len : length after ≡ length before = length-after ∙ sym (length-set h pos new) in
        let lt : above < pos = parent-lt pos p in
        -- an item that did not move, and the parent that it had
        let below : (i : ℕ)
            → 0 < i
            → i < length after
            → (i == pos) ≡ false
            → Above (at before (parent_of i)) (at before i) =
          λ i q j m. b.others i q (omega (arith, j, len)) m in
        record {
          others = λ i q j n. elim (Bool-cases (i == pos)) [
            | inl e ↦
                let e' : pos ≡ i = ground arith in
                subst (λ z. Above (at after (parent_of z)) (at after z)) e'
                  (move (sym after_above) (sym after_pos) up)
            | inr m ↦
                let here : at before i ≡ at after i = sym (after_other i n m) in
                elim (Bool-cases (parent_of i == pos)) [
                  | inl e ↦
                      let e' : parent_of i ≡ pos = ground arith in
                      move (before_above ∙ sym after_pos ∙ ap (at after) (sym e')) here
                        (b.over i q (omega (arith, j, len)) e' p)
                  | inr c ↦ elim (Bool-cases (parent_of i == above)) [
                    | inl e ↦
                        let e' : parent_of i ≡ above = ground arith in
                        let x : Above (at h above) (at before i) =
                          move (ap (at before) e' ∙ before_above) refl (below i q j m) in
                        move (sym after_above ∙ ap (at after) (sym e')) here
                          (order.transitive new (at h above) (at before i) up x)
                    | inr d ↦ move (sym (after_other (parent_of i) d c)) here (below i q j m)
                  ]
                ]
          ];
          over = λ i q j e r.
              let lt' : parent_of above < above = parent-lt above r in
              let top : at before (parent_of above) ≡ at after (parent_of above) =
                sym
                  (after_other (parent_of above) (ground (arith, lt')) (ground (arith, lt', lt))) in
              let x : Above (at before (parent_of above)) (at before above) =
                b.others above r (omega (arith, lt, l, length-set h pos new))
                  (ground (arith, lt)) in
              elim (Bool-cases (i == pos)) [
                | inl f ↦
                    let f' : pos ≡ i = ground arith in
                    move top (before_above ∙ sym after_pos ∙ ap (at after) f') x
                | inr m ↦
                    let n : (i == above) ≡ false = ground (arith, parent-lt i q) in
                    let y : Above (at before above) (at before i) =
                      move (ap (at before) e) refl (below i q j m) in
                    move top (sym (after_other i n m)) (
                      order.transitive (at before (parent_of above)) (at before above) (at before i)
                        x y)
              ];
        }

  -- what `_sift_down` makes of a list with the new item at its position
  record IsSifted (h h' : List A) : Type 0 where
    heap : IsHeap Above default h'
    size : length h' ≡ length h
    items : (f : A → ℕ) → total f h' ≡ total f h

  step_up :
      (n : ℕ) (h : List A) (new : A) (pos : ℕ)
      → (ltb 0 pos && cmp_lt new (at h (parent_of pos))) ≡ true
      → sift_down cmp_lt default (suc n) h new pos
        ≡ sift_down cmp_lt default n (set h pos (at h (parent_of pos))) new (parent_of pos)
  unfolding sift_down
  step_up n h new pos e = rw (sift_down, e) refl

  step_stay :
      (n : ℕ) (h : List A) (new : A) (pos : ℕ)
      → (ltb 0 pos && cmp_lt new (at h (parent_of pos))) ≡ false
      → sift_down cmp_lt default (suc n) h new pos ≡ set h pos new
  unfolding sift_down
  step_stay n h new pos e = rw (sift_down, e) refl

  sift_down-IsSifted :
      (n : ℕ) (h : List A) (new : A) (pos : ℕ)
      → pos ≤ n
      → pos < length h
      → IsHeapBut (set h pos new) pos
      → IsSifted (set h pos new) (sift_down cmp_lt default n h new pos)
  unfolding sift_down
  sift_down-IsSifted zero h new pos e l b = record {
    heap = in_place (set h pos new) pos b (λ p. absurd (omega (arith, p, e)));
    size = refl;
    items = λ f. refl;
  }
  sift_down-IsSifted (suc n) h new pos e l b =
      let up = at h (parent_of pos) in
      elim (Bool-cases (ltb 0 pos && cmp_lt new up)) [
        | inl c ↦
            let p : 0 < pos = ground arith in
            let lt = parent-lt pos p in
            let i =
              sift_down-IsSifted n (set h pos up) new (parent_of pos) (omega (arith, lt, e))
                (omega (arith, length-set h pos up, lt, l))
                (step-IsHeapBut h new pos p l b (order.of_true new up (ground arith))) in
            subst (IsSifted (set h pos new)) (sym (step_up n h new pos c)) (record {
              heap = i.heap;
              size = i.size ∙ length-after h new pos p l ∙ sym (length-set h pos new);
              items = λ f. i.items f ∙ total-after h new pos p l f;
            })
        | inr c ↦ subst (IsSifted (set h pos new)) (sym (step_stay n h new pos c)) (record {
          heap = in_place (set h pos new) pos b (λ p.
              move (sym (before_above h new pos p l)) (sym (at-set_same h pos new default l))
                (order.of_false new up (ground (arith, c))));
          size = refl;
          items = λ f. refl;
        })
      ]

  set_last : (h : List A) (x y : A) → set (h ++ x ∷ []) (length h) y ≡ h ++ y ∷ []
  set_last [] x y = refl
  set_last (z ∷ h) x y = ap (λ l. z ∷ l) (set_last h x y)

  at-append : (h : List A) (x : A) (i : ℕ) → i < length h → at (h ++ x ∷ []) i ≡ at h i
  at-append [] x i l = absurd (omega (arith, l))
  at-append (y ∷ h) x zero l = refl
  at-append (y ∷ h) x (suc i) l = at-append h x i (omega (arith, l))

  -- `push` keeps a heap a heap, and adds just the item, for a `cmp_lt` that decides an order.
  pub push-IsHeap :
      (h : List A) (x : A)
      → IsHeap Above default h
      → IsHeap Above default (push cmp_lt default h x)
        × (length (push cmp_lt default h x) ≡ length h + 1)
        × ((f : A → ℕ) → total f (push cmp_lt default h x) ≡ total f h + f x)
  unfolding push
  push-IsHeap h x g =
      let l : length (h ++ x ∷ []) ≡ length h + 1 = length-append h (x ∷ []) in
      let e : h ++ x ∷ [] ≡ set (h ++ x ∷ []) (length h) x = sym (set_last h x x) in
      let b : IsHeapBut (h ++ x ∷ []) (length h) = record {
        others = λ i p j n.
            let q : i < length h = ground (arith, l) in
            move (sym (at-append h x (parent_of i) (omega (arith, parent-lt i p, q))))
              (sym (at-append h x i q)) (g i p q);
        over = λ i p j c r. absurd (omega (arith, parent-lt i p, c, j, l));
      } in
      let i =
        sift_down-IsSifted (length h) (h ++ x ∷ []) x (length h) (omega arith) (omega (arith, l))
          (subst (λ z. IsHeapBut z (length h)) e b) in
      (
        i.heap,
        i.size ∙ ap length (sym e) ∙ l,
        λ f. i.items f ∙ ap (total f) (sym e) ∙ omega (arith, total-append f h (x ∷ [])),
      )
