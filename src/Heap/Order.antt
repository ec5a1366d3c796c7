-- ===== src/Heap/Order.antt =====
-- Heaps as lists: what is at a place after a change, what order a heap has, and what stands in it.
use dpark.Common.{
  ℕ, zero, suc, ◌+◌, ◌≤◌, ◌<◌, ◌≡◌, refl, Bool, true, false, List, [], ◌∷◌, ◌++◌, length, get_or,
  set, ◌==◌, arith,
}
use dpark.Heap.{cmp_on, parent_of}

module _ {A : Type 0} where
  pub at-set_same : (l : List A) (i : ℕ) (a d : A) → i < length l → get_or (set l i a) i d ≡ a
  at-set_same [] i a d h = absurd (omega (arith, h))
  at-set_same (x ∷ l) zero a d h = refl
  at-set_same (x ∷ l) (suc i) a d h = at-set_same l i a d (omega (arith, h))

  pub at-set_other :
      (l : List A) (i j : ℕ) (a d : A) → (j == i) ≡ false → get_or (set l i a) j d ≡ get_or l j d
  at-set_other [] i j a d h = refl
  at-set_other (x ∷ l) zero zero a d h = cc h
  at-set_other (x ∷ l) zero (suc j) a d h = refl
  at-set_other (x ∷ l) (suc i) zero a d h = refl
  at-set_other (x ∷ l) (suc i) (suc j) a d h = at-set_other l i j a d (ground arith)

  -- The sum of `f` over the items. Lists with the same sums for all `f` have the same items, each as
  -- often.
  abbrev pub total : (A → ℕ) → List A → ℕ
  total f [] = 0
  total f (x ∷ l) = f x + total f l

  pub total-set :
      (f : A → ℕ) (l : List A) (i : ℕ) (a d : A)
      → i < length l
      → total f (set l i a) + f (get_or l i d) ≡ total f l + f a
  total-set f [] i a d h = absurd (omega (arith, h))
  total-set f (x ∷ l) zero a d h = omega arith
  total-set f (x ∷ l) (suc i) a d h = omega (arith, total-set f l i a d (omega (arith, h)))

  pub total-append : (f : A → ℕ) (l m : List A) → total f (l ++ m) ≡ total f l + total f m
  total-append f [] m = omega arith
  total-append f (x ∷ l) m = omega (arith, total-append f l m)

  -- What `cmp_lt` has to be: `Above x y` says that `x` may stand above `y`.
  pub record IsOrder (cmp_lt : A → A → Bool) (Above : A → A → Type 0) : Type 0 where
    pub of_true : (x y : A) → cmp_lt x y ≡ true → Above x y
    pub of_false : (x y : A) → cmp_lt x y ≡ false → Above y x
    pub reflexive : (x : A) → Above x x
    pub transitive : (x y z : A) → Above x y → Above y z → Above x z

  -- the order of a heap with the least or the greatest key on top
  abbrev pub AboveOn : (A → ℕ) → Bool → A → A → Type 0
  AboveOn key true x y = key x ≤ key y
  AboveOn key false x y = key y ≤ key x

  pub cmp_on-IsOrder :
      (key : A → ℕ) (min_heap : Bool) → IsOrder (cmp_on key min_heap) (AboveOn key min_heap)
  cmp_on-IsOrder key true = record {
    of_true = λ x y h. ground arith;
    of_false = λ x y h. ground arith;
    reflexive = λ x. omega arith;
    transitive = λ x y z a b. omega (arith, a, b);
  }
  cmp_on-IsOrder key false = record {
    of_true = λ x y h. ground arith;
    of_false = λ x y h. ground arith;
    reflexive = λ x. omega arith;
    transitive = λ x y z a b. omega (arith, a, b);
  }

  module _ (Above : A → A → Type 0) (default : A) where
    -- no item stands below one that it may not stand below
    abbrev pub IsHeap : List A → Type 0
    IsHeap h =
        (i : ℕ) → 0 < i → i < length h → Above (get_or h (parent_of i) default) (get_or h i default)
