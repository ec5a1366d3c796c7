-- ===== src/Common/Flags.antt =====
-- Lists of flags and how many of them are set, under writes of single flags; and one list of flags
-- that covers another.
use Prim.Native.Nat.{ℕ, zero, suc, ◌+◌}
use mathlib.Core.Path.{◌≡◌, refl}
use mathlib.Core.Bool.{Bool, true, false, not, ◌||◌}
use mathlib.Core.List.{List, [], ◌∷◌}
use mathlib.Core.Option.{some}
use native.Mathlib.Omega.{arith}
use dpark.Common.Lists.{get_elem?, set, replicate, count_true}

pub count_true-set-true :
    (l : List Bool) (i : ℕ)
    → get_elem? l i ≡ some false
    → count_true (set l i true) ≡ count_true l + 1
count_true-set-true [] i h = cc
count_true-set-true (b ∷ l) zero h = ground arith
count_true-set-true (true ∷ l) (suc i) h = omega (arith, count_true-set-true l i h)
count_true-set-true (false ∷ l) (suc i) h = omega (arith, count_true-set-true l i h)

pub count_true-set-false :
    (l : List Bool) (i : ℕ)
    → get_elem? l i ≡ some true
    → count_true l ≡ suc (count_true (set l i false))
count_true-set-false [] i h = cc
count_true-set-false (b ∷ l) zero h = ground arith
count_true-set-false (true ∷ l) (suc i) h = omega (arith, count_true-set-false l i h)
count_true-set-false (false ∷ l) (suc i) h = omega (arith, count_true-set-false l i h)

pub count_true-replicate-false : (n : ℕ) → count_true (replicate n false) ≡ 0
count_true-replicate-false zero = refl
count_true-replicate-false (suc n) = count_true-replicate-false n

-- Writing the value that is there changes nothing.
pub set_same {ℓ} :
    {A : Type ℓ} (l : List A) (i : ℕ) (a : A) → get_elem? l i ≡ some a → set l i a ≡ l
set_same [] i a h = refl
set_same (b ∷ l) zero a h = cc h
set_same (b ∷ l) (suc i) a h = rw (set_same l i a h)

-- Where a flag of `fs` is set, so is that of `ls`.
abbrev pub Covers : List Bool → List Bool → Type 0
Covers (l ∷ ls) (f ∷ fs) = ((not f || l) ≡ true) × Covers ls fs
Covers _ _ = Unit

pub Covers-set_first : (ls fs : List Bool) (i : ℕ) → Covers ls fs → Covers (set ls i true) fs
Covers-set_first [] fs i c = tt
Covers-set_first (l ∷ ls) [] zero c = tt
Covers-set_first (l ∷ ls) [] (suc i) c = tt
Covers-set_first (l ∷ ls) (f ∷ fs) zero c = (ground arith, c.1)
Covers-set_first (l ∷ ls) (f ∷ fs) (suc i) c = (c.0, Covers-set_first ls fs i c.1)

pub Covers-set_both :
    (ls fs : List Bool) (i : ℕ)
    → Covers ls fs
    → get_elem? ls i ≡ some true
    → Covers ls (set fs i true)
Covers-set_both [] fs i c h = tt
Covers-set_both (l ∷ ls) [] i c h = tt
Covers-set_both (l ∷ ls) (f ∷ fs) zero c h = (ground arith, c.1)
Covers-set_both (l ∷ ls) (f ∷ fs) (suc i) c h = (c.0, Covers-set_both ls fs i c.1 h)

pub Covers-clear :
    (ls fs : List Bool) (i : ℕ)
    → Covers ls fs
    → get_elem? fs i ≡ some false
    → Covers (set ls i false) fs
Covers-clear [] fs i c h = tt
Covers-clear (l ∷ ls) [] i c h = cc
Covers-clear (l ∷ ls) (f ∷ fs) zero c h = (ground arith, c.1)
Covers-clear (l ∷ ls) (f ∷ fs) (suc i) c h = (c.0, Covers-clear ls fs i c.1 h)

pub Covers-replicate : (n : ℕ) → Covers (replicate n false) (replicate n false)
Covers-replicate zero = tt
Covers-replicate (suc n) = (refl, Covers-replicate n)

-- A flag that is set in the covered list is set in the covering one, where it has that place.
pub Covers-get :
    (ls fs : List Bool) (i : ℕ) {b : Bool}
    → Covers ls fs
    → get_elem? fs i ≡ some true
    → get_elem? ls i ≡ some b
    → b ≡ true
Covers-get [] fs i c h e = cc
Covers-get (l ∷ ls) [] i c h e = cc
Covers-get (l ∷ ls) (f ∷ fs) zero c h e = ground arith
Covers-get (l ∷ ls) (f ∷ fs) (suc i) c h e = Covers-get ls fs i c.1 h e
