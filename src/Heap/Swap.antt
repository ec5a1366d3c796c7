-- ===== src/Heap/Swap.antt =====
-- A step of `_sift_up` of dpark/utils/heaponkey.py: an item and its child change places.
use dpark.Common.{
  ℕ, ◌+◌, ◌*◌, ◌≤◌, ◌<◌, ◌≡◌, refl, sym, ap, ◌∙◌, Bool, false, not, ◌&&◌, List, length, length-set,
  get_or, set, ltb, ◌==◌, if◌then◌else◌, arith, Bool-cases, inl, inr, ◌⊎◌,
}
use mathlib.Core.Path.{subst}
use dpark.Heap.{parent_of, child_of}
use dpark.Heap.Order.{at-set_same, at-set_other, total, total-set, IsOrder}
use dpark.Heap.Down.{parent-lt, move}

module _ {A : Type 0} (cmp_lt : A → A → Bool) (Above : A → A → Type 0)
    (order : IsOrder cmp_lt Above) (default : A) where
  abbrev pub at : List A → ℕ → A
  at h i = get_or h i default

  pub placed : {a a' b b' : A} → a ≡ a' → b ≡ b' → Above a b → Above a' b'
  placed e f x = move cmp_lt Above order default e f x

  -- a heap from `lo` on: below the positions from `lo`
  abbrev pub IsHeapFrom : ℕ → List A → Type 0
  IsHeapFrom lo h =
      (i : ℕ) → 0 < i → i < length h → lo ≤ parent_of i → Above (at h (parent_of i)) (at h i)

  -- a heap from `lo` on, but for the item at `pos`, which may belong lower down
  pub record IsHeapBut (lo : ℕ) (h : List A) (pos : ℕ) : Type 0 where
    pub others :
        (i : ℕ)
        → 0 < i
        → i < length h
        → lo ≤ parent_of i
        → (parent_of i == pos) ≡ false
        → Above (at h (parent_of i)) (at h i)
    pub over :
        (i : ℕ)
        → 0 < i
        → i < length h
        → parent_of i ≡ pos
        → 0 < pos
        → lo ≤ parent_of pos
        → Above (at h (parent_of pos)) (at h i)

  -- the child that is compared with: no child of `pos` has to stand above it
  pub record IsChild (h : List A) (pos c : ℕ) : Type 0 where
    pub within : c < length h
    pub lower : pos < c
    pub parent : parent_of c ≡ pos
    pub best : (i : ℕ) → 0 < i → i < length h → parent_of i ≡ pos → Above (at h c) (at h i)

  two_children : (i pos : ℕ) → 0 < i → parent_of i ≡ pos → (i ≡ 2 * pos + 1) ⊎ (i ≡ 2 * pos + 1 + 1)
  two_children i pos p e = elim (Bool-cases (i == 2 * pos + 1)) [
    | inl a ↦ inl (ground arith)
    | inr a ↦ let n : (i ≡ 2 * pos + 1) → ⊥ = λ z. ground arith in inr (omega (arith, p, e, n))
  ]

  pub child_of-IsChild :
      (h : List A) (pos : ℕ)
      → 2 * pos + 1 < length h
      → IsChild h pos (child_of cmp_lt default h pos)
  child_of-IsChild h pos l =
      let left = 2 * pos + 1 in
      let right = 2 * pos + 1 + 1 in
      elim (Bool-cases (ltb right (length h) && not (cmp_lt (at h left) (at h right)))) [
        | inl a ↦
            subst (λ z. IsChild h pos (if z then right else left)) (sym a)
              (record {
                within = ground arith;
                lower = omega arith;
                parent = omega arith;
                best = λ i p q e. elim (two_children i pos p e) [
                  | inl f ↦
                      placed refl (ap (at h) (sym f))
                        (order.of_false (at h left) (at h right) (ground (arith, a)))
                  | inr f ↦ placed refl (ap (at h) (sym f)) (order.reflexive (at h right))
                ];
              })
        | inr a ↦
            subst (λ z. IsChild h pos (if z then right else left)) (sym a)
              (record {
                within = l;
                lower = omega arith;
                parent = omega arith;
                best = λ i p q e. elim (two_children i pos p e) [
                  | inl f ↦ placed refl (ap (at h) (sym f)) (order.reflexive (at h left))
                  | inr f ↦
                      let r : right < length h = omega (arith, f, q) in
                      placed refl (ap (at h) (sym f))
                        (order.of_true (at h left) (at h right) (ground (arith, a)))
                ];
              })
      ]

  -- one step: the item and its child change places
  module _ (lo : ℕ) (h : List A) (pos c : ℕ) (g : IsChild h pos c) where
    abbrev pub swapped : List A
    swapped = set (set h pos (at h c)) c (at h pos)

    pub length-swapped : length swapped ≡ length h
    length-swapped = length-set (set h pos (at h c)) c (at h pos) ∙ length-set h pos (at h c)

    swapped_pos : at swapped pos ≡ at h c
    swapped_pos =
        at-set_other (set h pos (at h c)) c pos (at h pos) default (ground (arith, g.lower))
        ∙ at-set_same h pos (at h c) default (omega (arith, g.lower, g.within))

    swapped_child : at swapped c ≡ at h pos
    swapped_child =
        at-set_same (set h pos (at h c)) c (at h pos) default
          (omega (arith, length-set h pos (at h c), g.within))

    swapped_other : (j : ℕ) → (j == pos) ≡ false → (j == c) ≡ false → at swapped j ≡ at h j
    swapped_other j a b =
        at-set_other (set h pos (at h c)) c j (at h pos) default b
        ∙ at-set_other h pos j (at h c) default a

    pub total-swapped : (f : A → ℕ) → total f swapped ≡ total f h
    total-swapped f =
        let a = total-set f h pos (at h c) default (omega (arith, g.lower, g.within)) in
        let b =
          total-set f (set h pos (at h c)) c (at h pos) default
            (omega (arith, length-set h pos (at h c), g.within)) in
        let e : at (set h pos (at h c)) c ≡ at h c =
          at-set_other h pos c (at h c) default (ground (arith, g.lower)) in
        omega (arith, a, b, ap f e)

    pub every-swapped :
        (P : A → Type 0)
        → ((i : ℕ) → i < length h → P (at h i))
        → (i : ℕ) → i < length swapped
        → P (at swapped i)
    every-swapped P a i l = elim (Bool-cases (i == pos)) [
      | inl e ↦
          let e' : pos ≡ i = ground arith in
          subst P (sym swapped_pos ∙ ap (at swapped) e') (a c g.within)
      | inr d ↦ elim (Bool-cases (i == c)) [
        | inl e ↦
            let e' : c ≡ i = ground arith in
            subst P (sym swapped_child ∙ ap (at swapped) e')
              (a pos (omega (arith, g.lower, g.within)))
        | inr f ↦ subst P (sym (swapped_other i d f)) (a i (omega (arith, l, length-swapped)))
      ]
    ]

    pub swapped-IsHeapBut : IsHeapBut lo h pos → Above (at h c) (at h pos) → IsHeapBut lo swapped c
    swapped-IsHeapBut b up = record {
      others = λ i p q m n.
          let q' : i < length h = omega (arith, q, length-swapped) in
          elim (Bool-cases (i == pos)) [
            | inl e ↦
                let e' : pos ≡ i = ground arith in
                let p' : 0 < pos = omega (arith, e', p) in
                let lt = parent-lt pos p' in
                let m' : lo ≤ parent_of pos = omega (arith, m, e') in
                subst (λ z. Above (at swapped (parent_of z)) (at swapped z)) e'
                  (placed
                    (sym (
                      swapped_other (parent_of pos) (ground (arith, lt))
                        (ground (arith, lt, g.lower))))
                    (sym swapped_pos) (b.over c (omega (arith, g.lower)) g.within g.parent p' m'))
            | inr d ↦ elim (Bool-cases (i == c)) [
              | inl e ↦
                  let e' : c ≡ i = ground arith in
                  subst (λ z. Above (at swapped (parent_of z)) (at swapped z)) e'
                    (placed (sym swapped_pos ∙ ap (at swapped) (sym g.parent)) (sym swapped_child)
                      up)
              | inr f ↦
                  let here : at h i ≡ at swapped i = sym (swapped_other i d f) in
                  elim (Bool-cases (parent_of i == pos)) [
                    | inl e ↦
                        let e' : parent_of i ≡ pos = ground arith in
                        placed (sym swapped_pos ∙ ap (at swapped) (sym e')) here (g.best i p q' e')
                    | inr e ↦
                        placed (sym (swapped_other (parent_of i) e n)) here (b.others i p q' m e)
                  ]
            ]
          ];
      over = λ i p q e r m.
          let q' : i < length h = omega (arith, q, length-swapped) in
          let lt : c < i = omega (arith, parent-lt i p, e) in
          let m' : lo ≤ parent_of i = omega (arith, m, e, g.parent, g.lower) in
          placed (ap (at h) e ∙ sym swapped_pos ∙ ap (at swapped) (sym g.parent))
            (sym (swapped_other i (ground (arith, lt, g.lower)) (ground (arith, lt))))
            (b.others i p q' m' (ground (arith, g.lower)));
    }
