-- ===== src/Cogroup/Tests.antt =====
-- A run of `cogroup_no_dup`, and its theorem at it.
use dpark.Common.{ℕ, ◌≡◌, refl, some, none, List, [], ◌∷◌, lookup, if◌then◌else◌, map, arith}
use dpark.Dependency.Aggregate.{KeysRise}
use dpark.Cogroup.{cogroup_no_dup}
use dpark.Cogroup.Rows.{has_key, values_of, cogroup_no_dup-has}

abbrev lists : List (List (ℕ × List ℕ))
lists = ((1, 5 ∷ []) ∷ (4, 6 ∷ 7 ∷ []) ∷ []) ∷ [] ∷ ((4, 8 ∷ []) ∷ (6, 9 ∷ []) ∷ []) ∷ []

three_rows :
    cogroup_no_dup lists
    ≡ (1, (5 ∷ []) ∷ [] ∷ [] ∷ [])
      ∷ (4, (6 ∷ 7 ∷ []) ∷ [] ∷ (8 ∷ []) ∷ [])
      ∷ (6, [] ∷ [] ∷ (9 ∷ []) ∷ [])
      ∷ []
unfolding cogroup_no_dup
three_rows = refl

cogroup_no_dup-has_example :
    KeysRise (cogroup_no_dup lists)
    × ((k : ℕ)
        → lookup k (cogroup_no_dup lists)
          ≡ (if has_key k lists then some (map (values_of k) lists) else none))
cogroup_no_dup-has_example =
    cogroup_no_dup-has lists ((omega arith, tt), (tt, ((omega arith, tt), tt)))
