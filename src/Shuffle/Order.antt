-- ===== src/Shuffle/Order.antt =====
-- The order in which the batches of the map tasks come to a reducer (`ShuffleFetcher` of
-- dpark/shuffle.py): with a commutative operation it does not matter.
use dpark.Common.{ℕ, ◌≡◌, refl, sym, ap, ◌∙◌, Option, none, some, List, [], ◌∷◌}
use dpark.Common.Keyed.{select, combine_all, join, join_assoc, combine_all-append, IsAssociative}
use dpark.Shuffle.Heads.{select_all}

-- the second list has the entries of the first, in any order
pub data IsReordered {A : Type 0} : List A → List A → Type 0 where
  nothing : IsReordered [] []
  keep : (x : A) {xs ys : List A} → IsReordered xs ys → IsReordered (x ∷ xs) (x ∷ ys)
  swap : (x y : A) (xs : List A) → IsReordered (x ∷ y ∷ xs) (y ∷ x ∷ xs)
  chain : {xs ys zs : List A} → IsReordered xs ys → IsReordered ys zs → IsReordered xs zs

module _ {C : Type 0} (op : C → C → C) where
  abbrev pub IsCommutative : Type 0
  IsCommutative = (a b : C) → op a b ≡ op b a

  module _ (assoc : IsAssociative op) (comm : IsCommutative) where
    join_comm : (a b : Option C) → join op a b ≡ join op b a
    join_comm none none = refl
    join_comm none (some b) = refl
    join_comm (some a) none = refl
    join_comm (some a) (some b) = ap some (comm a b)

    -- what the batches come to for a key, with the first one apart
    first_batch :
        (k : ℕ) (x : List (ℕ × C)) (xs : List (List (ℕ × C)))
        → combine_all op (select_all k (x ∷ xs))
          ≡ join op (combine_all op (select k x)) (combine_all op (select_all k xs))
    first_batch k x xs = combine_all-append op assoc (select k x) (select_all k xs)

    pub combine_all-reordered :
        (k : ℕ) {xs ys : List (List (ℕ × C))}
        → IsReordered xs ys
        → combine_all op (select_all k xs) ≡ combine_all op (select_all k ys)
    combine_all-reordered k nothing = refl
    combine_all-reordered k (keep x {xs} {ys} p) =
        first_batch k x xs
        ∙ ap (join op (combine_all op (select k x))) (combine_all-reordered k p)
        ∙ sym (first_batch k x ys)
    combine_all-reordered k (swap x y xs) =
        let a = combine_all op (select k x) in
        let b = combine_all op (select k y) in
        let c = combine_all op (select_all k xs) in
        first_batch k x (y ∷ xs)
        ∙ ap (join op a) (first_batch k y xs)
        ∙ sym (join_assoc op assoc a b c)
        ∙ ap (λ z. join op z c) (join_comm a b)
        ∙ join_assoc op assoc b a c
        ∙ ap (join op b) (sym (first_batch k x xs))
        ∙ sym (first_batch k y (x ∷ xs))
    combine_all-reordered k (chain p q) = combine_all-reordered k p ∙ combine_all-reordered k q
