-- ===== src/Common/Dicts.antt =====
-- Dictionaries with number keys as lists of entries in the order of insertion: `d[k] = v`, `del
-- d[k]`, and what a lookup finds after them.
use Prim.Native.Nat.{ℕ}
use mathlib.Core.Path.{◌≡◌, refl}
use mathlib.Core.Logic.{inl, inr}
use mathlib.Core.Bool.{Bool, true, false}
use mathlib.Core.Option.{none, some}
use mathlib.Core.List.{List, [], ◌∷◌}
use native.Mathlib.Omega.{arith}
use dpark.Common.Tests.{◌==◌, if◌then◌else◌, Bool-cases}
use dpark.Common.Lists.{lookup}

module _ {ℓ} {V : Type ℓ} where
  -- `d[k] = v`: the value of a key that is there is replaced, a new key comes last
  abbrev pub put : ℕ → V → List (ℕ × V) → List (ℕ × V)
  put k v [] = (k, v) ∷ []
  put k v ((j, w) ∷ m) = if j == k then (j, v) ∷ m else (j, w) ∷ put k v m

  -- `del d[k]`, where `k` is a key
  abbrev pub delete : ℕ → List (ℕ × V) → List (ℕ × V)
  delete k [] = []
  delete k ((j, w) ∷ m) = if j == k then delete k m else (j, w) ∷ delete k m

  abbrev pub has_key : ℕ → List (ℕ × V) → Bool
  has_key k m = elim (lookup k m) [ none ↦ false | some _ ↦ true ]

  pub lookup-put_same : (k : ℕ) (v : V) (m : List (ℕ × V)) → lookup k (put k v m) ≡ some v
  lookup-put_same k v [] = ground arith
  lookup-put_same k v ((j, w) ∷ m) = elim (Bool-cases (j == k)) [
    | inl p ↦ rw (p, p) refl
    | inr p ↦ rw (p, p) (lookup-put_same k v m)
  ]

  pub lookup-put_other :
      (k i : ℕ) (v : V) (m : List (ℕ × V)) → (k == i) ≡ false → lookup i (put k v m) ≡ lookup i m
  lookup-put_other k i v [] h = ground arith
  lookup-put_other k i v ((j, w) ∷ m) h = ground (arith, lookup-put_other k i v m h)

  pub lookup-delete_same : (k : ℕ) (m : List (ℕ × V)) → lookup k (delete k m) ≡ none
  lookup-delete_same k [] = refl
  lookup-delete_same k ((j, w) ∷ m) = ground (arith, lookup-delete_same k m)

  pub lookup-delete_other :
      (k i : ℕ) (m : List (ℕ × V)) → (k == i) ≡ false → lookup i (delete k m) ≡ lookup i m
  lookup-delete_other k i [] h = refl
  lookup-delete_other k i ((j, w) ∷ m) h = ground (arith, lookup-delete_other k i m h)
