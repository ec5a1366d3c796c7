-- ===== src/Common/Keyed.antt =====
-- Lists of pairs of a key and a value: the values of one key in their order, and how they are put
-- together with an operation.
use Prim.Native.Nat.{ℕ}
use mathlib.Core.Path.{◌≡◌, refl, sym, ap, ◌∙◌}
use mathlib.Core.Logic.{inl, inr}
use mathlib.Core.Bool.{false}
use mathlib.Core.Option.{Option, none, some}
use mathlib.Core.List.{List, [], ◌∷◌, ◌++◌}
use native.Mathlib.Omega.{arith}
use dpark.Common.Tests.{◌==◌, if◌then◌else◌, Bool-cases}
use dpark.Common.Lists.{lookup}
use dpark.Common.Dicts.{put, lookup-put_other}

module _ {V : Type 0} where
  abbrev pub select : ℕ → List (ℕ × V) → List V
  select k [] = []
  select k ((j, v) ∷ l) = if j == k then v ∷ select k l else select k l

  pub select-append : (k : ℕ) (l m : List (ℕ × V)) → select k (l ++ m) ≡ select k l ++ select k m
  select-append k [] m = refl
  select-append k ((j, v) ∷ l) m = elim (Bool-cases (j == k)) [
    | inl p ↦ rw p (ap (λ z. v ∷ z) (select-append k l m))
    | inr p ↦ rw p (select-append k l m)
  ]

  -- no key stands twice
  abbrev pub Unique : List (ℕ × V) → Type 0
  Unique [] = Unit
  Unique ((j, v) ∷ l) = (lookup j l ≡ none) × Unique l

  abbrev pub at_most_one : Option V → List V
  at_most_one none = []
  at_most_one (some v) = v ∷ []

  select-none : (k : ℕ) (l : List (ℕ × V)) → lookup k l ≡ none → select k l ≡ []
  select-none k [] h = refl
  select-none k ((j, v) ∷ l) h = elim (Bool-cases (j == k)) [
    | inl p ↦ ground arith
    | inr p ↦ rw p (select-none k l (ground arith))
  ]

  pub select-Unique : (k : ℕ) (l : List (ℕ × V)) → Unique l → select k l ≡ at_most_one (lookup k l)
  select-Unique k [] u = refl
  select-Unique k ((j, v) ∷ l) u = elim (Bool-cases (j == k)) [
    | inl p ↦ rw p (ap (λ z. v ∷ z) (select-none k l (ground (arith, u.0))))
    | inr p ↦ rw p (select-Unique k l u.1)
  ]

  lookup-put_absent :
      (k i : ℕ) (v : V) (l : List (ℕ × V))
      → (k == i) ≡ false
      → lookup i l ≡ none
      → lookup i (put k v l) ≡ none
  lookup-put_absent k i v l n h = lookup-put_other k i v l n ∙ h

  pub put-Unique : (k : ℕ) (v : V) (l : List (ℕ × V)) → Unique l → Unique (put k v l)
  put-Unique k v [] u = (refl, tt)
  put-Unique k v ((j, w) ∷ l) u = elim (Bool-cases (j == k)) [
    | inl p ↦ rw p u
    | inr p ↦ rw p (lookup-put_absent k j v l (ground arith) u.0, put-Unique k v l u.1)
  ]

module _ {C : Type 0} (op : C → C → C) where
  abbrev pub IsAssociative : Type 0
  IsAssociative = (a b c : C) → op (op a b) c ≡ op a (op b c)

  -- `reduce(op, values, first)`
  abbrev pub fold_from : C → List C → C
  fold_from a [] = a
  fold_from a (c ∷ cs) = fold_from (op a c) cs

  abbrev pub combine_all : List C → Option C
  combine_all [] = none
  combine_all (c ∷ cs) = some (fold_from c cs)

  abbrev pub join : Option C → Option C → Option C
  join none b = b
  join (some a) none = some a
  join (some a) (some b) = some (op a b)

  pub join-none : (a : Option C) → join a none ≡ a
  join-none none = refl
  join-none (some a) = refl

  module _ (assoc : IsAssociative) where
    pub join_assoc : (a b c : Option C) → join (join a b) c ≡ join a (join b c)
    join_assoc none b c = refl
    join_assoc (some a) none c = refl
    join_assoc (some a) (some b) none = refl
    join_assoc (some a) (some b) (some c) = ap some (assoc a b c)

    fold_from-op : (a b : C) (cs : List C) → fold_from (op a b) cs ≡ op a (fold_from b cs)
    fold_from-op a b [] = refl
    fold_from-op a b (c ∷ cs) = ap (λ z. fold_from z cs) (assoc a b c) ∙ fold_from-op a (op b c) cs

    pub combine_all-cons :
        (c : C) (cs : List C) → combine_all (c ∷ cs) ≡ join (some c) (combine_all cs)
    combine_all-cons c [] = refl
    combine_all-cons c (d ∷ cs) = ap some (fold_from-op c d cs)

    pub combine_all-append :
        (xs ys : List C) → combine_all (xs ++ ys) ≡ join (combine_all xs) (combine_all ys)
    combine_all-append [] ys = refl
    combine_all-append (x ∷ xs) ys =
        combine_all-cons x (xs ++ ys)
        ∙ ap (join (some x)) (combine_all-append xs ys)
        ∙ sym (join_assoc (some x) (combine_all xs) (combine_all ys))
        ∙ ap (λ z. join z (combine_all ys)) (sym (combine_all-cons x xs))
