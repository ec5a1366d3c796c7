-- ===== src/Splits/Slices.antt =====
-- Slices of a list, as the RDDs of dpark/rdd.py cut them: together they are the list.
use dpark.Common.{
  ℕ, zero, suc, ◌+◌, ◌-◌, ◌*◌, ◌/◌, ◌%◌, ◌≤◌, ◌<◌, ◌≡◌, refl, sym, ap, ◌∙◌, true, false, List, [],
  ◌∷◌, ◌++◌, length, take, drop, ◌==◌, ok, arith, Bool-cases, inl, inr, ok-injective, if_cases_eq,
}
use native.Mathlib.Nat.{mul_comm, mul-one, mul-add, suc-mul, mod-lt, div-add-mod'}
use mathlib.Core.Path.{subst}
use dpark.Splits.{slice, slices_from, slice_size, slice_data}

pub add_one-mul : (i n : ℕ) → (i + 1) * n ≡ i * n + n
add_one-mul i n = let e : i + 1 ≡ suc i = omega arith in ap (λ j. j * n) e ∙ suc-mul i n

module _ {A : Type 0} where
  abbrev pub concat : List (List A) → List A
  concat [] = []
  concat (l ∷ ls) = l ++ concat ls

  pub take-cong : (l : List A) {m n : ℕ} → m ≡ n → take m l ≡ take n l
  take-cong l e = ap (λ j. take j l) e

  pub drop-cong : (l : List A) {m n : ℕ} → m ≡ n → drop m l ≡ drop n l
  drop-cong l e = ap (λ j. drop j l) e

  pub take-nil : (n : ℕ) → take {A = A} n [] ≡ []
  take-nil zero = refl
  take-nil (suc n) = refl

  pub drop-nil : (n : ℕ) → drop {A = A} n [] ≡ []
  drop-nil zero = refl
  drop-nil (suc n) = refl

  take-add : (l : List A) (n k : ℕ) → take n l ++ take k (drop n l) ≡ take (n + k) l
  take-add l zero k = take-cong l (omega arith)
  take-add [] (suc n) k = take-nil k ∙ sym (take-nil (suc n + k))
  take-add (x ∷ l) (suc n) k =
      ap (λ z. x ∷ z) (take-add l n k)
      ∙ take-cong (x ∷ l) {m = suc (n + k)} {n = suc n + k} (omega arith)

  pub drop-add : (l : List A) (a n : ℕ) → drop n (drop a l) ≡ drop (a + n) l
  drop-add l zero n = drop-cong l (omega arith)
  drop-add [] (suc a) n = drop-nil n ∙ sym (drop-nil (suc a + n))
  drop-add (x ∷ l) (suc a) n =
      drop-add l a n ∙ drop-cong (x ∷ l) {m = suc (a + n)} {n = suc a + n} (omega arith)

  pub take-all : (l : List A) (n : ℕ) → length l ≤ n → take n l ≡ l
  take-all [] zero h = refl
  take-all [] (suc n) h = refl
  take-all (x ∷ l) zero h = absurd (omega (arith, h))
  take-all (x ∷ l) (suc n) h = ap (λ z. x ∷ z) (take-all l n (omega (arith, h)))

  pub concat-slices_from :
      (l : List A) (n i k : ℕ) → concat (slices_from l n i k) ≡ take (k * n) (drop (i * n) l)
  concat-slices_from l n i zero = sym (take-cong (drop (i * n) l) {m = 0 * n} {n = 0} (omega arith))
  concat-slices_from l n i (suc k) =
      let p : slice l (i * n) (i * n + n) ≡ take n (drop (i * n) l) = take-cong _ (omega arith) in
      let q : drop ((i + 1) * n) l ≡ drop n (drop (i * n) l) =
        drop-cong l {m = (i + 1) * n} {n = i * n + n} (add_one-mul i n)
        ∙ sym (drop-add l (i * n) n) in
      rw (p, concat-slices_from l n (i + 1) k, q)
        (take-add (drop (i * n) l) n (k * n)
          ∙ take-cong (drop (i * n) l) {m = n + k * n} {n = suc k * n} (omega (arith, suc-mul k n)))

  -- enough slices of a size hold everything
  pub concat-slices_all :
      (l : List A) (n k : ℕ) → length l ≤ k * n → concat (slices_from l n 0 k) ≡ l
  concat-slices_all l n k h =
      concat-slices_from l n 0 k
      ∙ ap (λ z. take (k * n) z) (drop-cong l {m = 0 * n} {n = 0} (omega arith))
      ∙ take-all l (k * n) h

  pub length-slices_from : (l : List A) (n i k : ℕ) → length (slices_from l n i k) ≡ k
  length-slices_from l n i zero = refl
  length-slices_from l n i (suc k) = ap suc (length-slices_from l n (i + 1) k)

zero_of : (a : ℕ) → (a == 0) ≡ true → a ≡ 0
zero_of a h = ground arith

slice_size-le : (m k : ℕ) → (k == 0) ≡ false → m ≤ k * slice_size m k
slice_size-le m k h = elim (Bool-cases (m % k == 0)) [
  | inl p ↦ rw p (omega (arith, div-add-mod' m k, mul_comm k (m / k), zero_of (m % k) p))
  | inr p ↦ rw p (
      omega (
        arith,
        div-add-mod' m k,
        mul_comm k (m / k),
        mod-lt m {m = k} (ground arith),
        mul-add k (m / k) 1,
        mul-one k,
      ))
]

pub quotient_up-le : (m k : ℕ) → (k == 0) ≡ false → m ≤ (m + k - 1) / k * k
quotient_up-le m k h =
    let p : zero < k = ground arith in
    omega (arith, div-add-mod' (m + k - 1) k, mod-lt (m + k - 1) p, p)

module _ {A : Type 0} where
  no_values : (l : List A) → (length l == 0) ≡ true → l ≡ []
  no_values [] h = refl
  no_values (x ∷ l) h = absurd (ground (arith, zero_of (length (x ∷ l)) h))

  -- A list of data that is not empty is cut into as many slices as are asked for, and the slices
  -- together, in their order, are the data.
  pub slice_data_lem :
      (values : List A) (num : ℕ) (slices : List (List A))
      → slice_data values num ≡ ok slices
      → (concat slices ≡ values) × ((length values == 0) ≡ false → length slices ≡ num)
  unfolding slice_data
  slice_data_lem values num slices e =
      if_cases_eq (num == 0) e (λ p q. cc)
        (λ p q.
          if_cases_eq (length values == 0) q
            (λ r t. (
              subst (λ z. concat z ≡ values) (ok-injective t) (sym (no_values values r)),
              λ u. ground arith,
            ))
            (λ r t.
              subst (λ z. (concat z ≡ values) × ((length values == 0) ≡ false → length z ≡ num))
                (ok-injective t)
                (
                  concat-slices_all values (slice_size (length values) num) num
                      (slice_size-le (length values) num p),
                  λ u. length-slices_from values (slice_size (length values) num) 0 num,
                )))
