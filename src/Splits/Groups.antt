-- ===== src/Splits/Groups.antt =====
-- The splits of a `MergedRDD` of dpark/rdd.py, and the splits that its dependency names.
use dpark.Common.{
  ℕ, zero, suc, ◌+◌, ◌-◌, ◌*◌, ◌/◌, ◌≡◌, refl, sym, ap, ◌∙◌, Option, none, some, List, [], ◌∷◌,
  length, get_elem?, take, drop, min, map, ◌==◌, ok, arith, ok-injective, if_cases_eq,
}
use mathlib.Core.Path.{subst}
use dpark.Dependency.{count_from, range, get_parents}
use dpark.Splits.{slice, slices_from, MergedRdd, merge_by, merged_rdd}
use dpark.Splits.Slices.{
  concat, concat-slices_all, length-slices_from, quotient_up-le, take-cong, take-nil, drop-nil,
  add_one-mul,
}

count_from-cong : {a b m n : ℕ} → a ≡ b → m ≡ n → count_from a m ≡ count_from b n
count_from-cong e f = rw (e, f)

module _ {A : Type 0} where
  -- the entries of the list at `m` places from `a`
  abbrev at_places : List A → ℕ → ℕ → List (Option A)
  at_places l a m = map (get_elem? l) (count_from a m)

  at_places-cong : (l : List A) {a b m n : ℕ} → a ≡ b → m ≡ n → at_places l a m ≡ at_places l b n
  at_places-cong l e f = ap (map (get_elem? l)) (count_from-cong e f)

  get_elem?-shift :
      (x : A) (l : List A) (a k : ℕ)
      → map (get_elem? (x ∷ l)) (count_from (suc a) k) ≡ map (get_elem? l) (count_from a k)
  get_elem?-shift x l a zero = refl
  get_elem?-shift x l a (suc k) =
      ap (λ z. get_elem? l a ∷ z)
        (at_places-cong (x ∷ l) {a = suc a + 1} {b = suc (a + 1)} {m = k} (omega arith) refl
          ∙ get_elem?-shift x l (a + 1) k)

  get_elem?-count_from :
      (l : List A) (a n : ℕ)
      → map (get_elem? l) (count_from a (min n (length l - a))) ≡ map some (take n (drop a l))
  get_elem?-count_from [] a n =
      at_places-cong [] {a = a} {b = a} {m = min n (0 - a)} {n = 0} refl (omega arith)
      ∙ sym (ap (map some) (ap (take n) (drop-nil a) ∙ take-nil n))
  get_elem?-count_from (x ∷ l) zero zero =
      at_places-cong (x ∷ l) {a = 0} {b = 0} {n = 0} refl (omega arith)
  get_elem?-count_from (x ∷ l) zero (suc n) =
      at_places-cong (x ∷ l) {a = 0} {b = 0} {n = suc (min n (length l - 0))} refl (omega arith)
      ∙ ap (λ z. some x ∷ z)
          (at_places-cong (x ∷ l) {a = 0 + 1} {b = suc 0} {m = min n (length l - 0)} (omega arith)
              refl
            ∙ get_elem?-shift x l 0 (min n (length l - 0))
            ∙ get_elem?-count_from l zero n)
  get_elem?-count_from (x ∷ l) (suc a) n =
      at_places-cong (x ∷ l) {a = suc a} {b = suc a} {n = min n (length l - a)} refl (omega arith)
      ∙ get_elem?-shift x l a (min n (length l - a))
      ∙ get_elem?-count_from l a n

  get_elem?-slices_from :
      (l : List A) (n i k j : ℕ) {g : List A}
      → get_elem? (slices_from l n i k) j ≡ some g
      → g ≡ slice l ((i + j) * n) ((i + j) * n + n)
  get_elem?-slices_from l n i zero j h = cc
  get_elem?-slices_from l n i (suc k) zero h =
      let e : i + 0 ≡ i = omega arith in rw e (ground arith)
  get_elem?-slices_from l n i (suc k) (suc j) h =
      let e : i + suc j ≡ (i + 1) + j = omega arith in
      rw e (get_elem?-slices_from l n (i + 1) k j h)

  -- The groups together are the splits, and each group has the splits that the dependency names.
  pub record IsMerged (splits : List A) (r : MergedRdd A) : Type 0 where
    pub all : concat r.splits ≡ splits
    pub groups : length r.splits ≡ r.num_splits
    pub parents :
        (pid : ℕ) (group : List A)
        → get_elem? r.splits pid ≡ some group
        → (ps : List ℕ) × (get_parents r.dependency pid ≡ ok ps)
          × (map (get_elem? splits) ps ≡ map some group)

  group_places :
      (l : List A) (size pid num : ℕ) (group : List A)
      → get_elem? (slices_from l size 0 num) pid ≡ some group
      → map (get_elem? l) (range (pid * size) (min ((pid + 1) * size) (length l))) ≡ map some group
  group_places l size pid num group h =
      let z : 0 + pid ≡ pid = omega arith in
      let g : group ≡ slice l (pid * size) (pid * size + size) =
        get_elem?-slices_from l size 0 num pid h
        ∙ ap (λ i. slice l (i * size) (i * size + size)) z in
      at_places-cong l {a = pid * size} {b = pid * size}
        {m = min ((pid + 1) * size) (length l) - pid * size} {n = min size (length l - pid * size)}
        refl (omega (arith, add_one-mul pid size))
      ∙ get_elem?-count_from l (pid * size) size
      ∙ ap (map some) (
          take-cong (drop (pid * size) l) {m = size} {n = pid * size + size - pid * size}
            (omega arith)
          ∙ sym g)

  merge_by-IsMerged :
      (splits : List A) (size : ℕ) (r : MergedRdd A)
      → merge_by splits size ≡ ok r
      → IsMerged splits r
  unfolding merge_by get_parents
  merge_by-IsMerged splits size r e =
      if_cases_eq (size == 0) e (λ p q. cc)
        (λ p q.
          let num = (length splits + size - 1) / size in
          subst (IsMerged splits) (ok-injective q) (record {
            all = concat-slices_all splits size num (quotient_up-le (length splits) size p);
            groups = length-slices_from splits size 0 num;
            parents = λ pid group h. (
              range (pid * size) (min ((pid + 1) * size) (length splits)),
              refl,
              group_places splits size pid num group h,
            );
          }))

  -- `MergedRDD.__init__` groups all the splits of the other RDD in their order, and the parents
  -- of a group by its dependency are just the splits in it.
  pub merged_rdd-IsMerged :
      (splits : List A) (size : Option ℕ) (num : ℕ) (r : MergedRdd A)
      → merged_rdd splits size num ≡ ok r
      → IsMerged splits r
  unfolding merged_rdd
  merged_rdd-IsMerged splits (some size) num r e = merge_by-IsMerged splits size r e
  merged_rdd-IsMerged splits none num r e =
      if_cases_eq (num == 0) e (λ p q. cc)
        (λ p q. merge_by-IsMerged splits ((length splits + num - 1) / num) r q)
