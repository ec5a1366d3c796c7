-- ===== src/Accumulator/Merging.antt =====
-- What `merge` of dpark/accumulator.py adds, and what a later `clear` does to it.
use dpark.Common.{
  ℕ, ◌+◌, ◌≡◌, sym, ap, ◌∙◌, Bool, true, false, some, List, [], ◌∷◌, lookup, ◌==◌, if◌then◌else◌,
  ok, key_error, or_raise, >>=-eq-ok, or_raise-eq-ok, arith, Bool-cases, inl, inr, ok-injective,
}
use dpark.Common.Dicts.{put, lookup-put_same, lookup-put_other}
use dpark.Accumulator.{
  Accums, LocalAccum, original, copy, add_original, reset_originals, clear, merge, value_or,
}

-- the sum of the values for an id
abbrev pub total : ℕ → List (ℕ × ℕ) → ℕ
total id [] = 0
total id ((j, v) ∷ vs) = if j == id then v + total id vs else total id vs

abbrev pub value_of : ℕ → Accums → ℕ
value_of id s = value_or 0 (lookup id s.originals)

add_original-value_of :
    (id v : ℕ) (s s' : Accums) (i : ℕ)
    → add_original id v s ≡ ok s'
    → value_of i s' ≡ (if id == i then value_of i s + v else value_of i s)
unfolding add_original
add_original-value_of id v s s' i e =
    let (x, g, h) = >>=-eq-ok (or_raise (lookup id s.originals) key_error) _ e in
    let l = or_raise-eq-ok (lookup id s.originals) key_error g in
    elim (Bool-cases (id == i)) [
      | inl p ↦ ground (arith, lookup-put_same id (x + v) s.originals)
      | inr p ↦ ground (arith, lookup-put_other id i (x + v) s.originals p)
    ]

-- If `merge` returns, it adds to each accumulator the sum of the values for its id.
pub merge-total :
    (vs : List (ℕ × ℕ)) (s s' : Accums) (i : ℕ)
    → merge vs s ≡ ok s'
    → value_of i s' ≡ value_of i s + total i vs
unfolding merge
merge-total [] s s' i e = ground arith
merge-total ((id, v) ∷ vs) s s' i e =
    let (s₁, g, h) = >>=-eq-ok (add_original id v s) _ e in
    let p = add_original-value_of id v s s₁ i g in let q = merge-total vs s₁ s' i h in ground arith

reset_originals-zero :
    (ls : List (ℕ × LocalAccum)) (d : List (ℕ × ℕ)) (i : ℕ)
    → lookup i d ≡ some 0
    → lookup i (reset_originals ls d) ≡ some 0
unfolding reset_originals
reset_originals-zero [] d i h = h
reset_originals-zero ((j, copy v) ∷ ls) d i h = reset_originals-zero ls d i h
reset_originals-zero ((j, original) ∷ ls) d i h =
    reset_originals-zero ls (put j 0 d) i (elim (Bool-cases (j == i)) [
      | inl p ↦ ground (arith, lookup-put_same j 0 d)
      | inr p ↦ lookup-put_other j i 0 d p ∙ h
    ])

reset_originals-original :
    (ls : List (ℕ × LocalAccum)) (d : List (ℕ × ℕ)) (i : ℕ)
    → lookup i ls ≡ some original
    → lookup i (reset_originals ls d) ≡ some 0
unfolding reset_originals
reset_originals-original [] d i h = cc
reset_originals-original ((j, copy v) ∷ ls) d i h = elim (Bool-cases (j == i)) [
  | inl p ↦ ground arith
  | inr p ↦ reset_originals-original ls d i (ground arith)
]
reset_originals-original ((j, original) ∷ ls) d i h = elim (Bool-cases (j == i)) [
  | inl p ↦ reset_originals-zero ls (put j 0 d) i (ground (arith, lookup-put_same j 0 d))
  | inr p ↦ reset_originals-original ls (put j 0 d) i (ground arith)
]

-- there is a value for the id
abbrev pub is_merged : ℕ → List (ℕ × ℕ) → Bool
is_merged id [] = false
is_merged id ((j, v) ∷ vs) = if j == id then true else is_merged id vs

add_original-local :
    (id v : ℕ) (s s' : Accums)
    → add_original id v s ≡ ok s'
    → s'.local_accums ≡ put id original s.local_accums
unfolding add_original
add_original-local id v s s' e =
    let (x, g, h) = >>=-eq-ok (or_raise (lookup id s.originals) key_error) _ e in
    ap (λ z. z.local_accums) (sym (ok-injective h))

merge-original :
    (vs : List (ℕ × ℕ)) (s s' : Accums) (i : ℕ)
    → merge vs s ≡ ok s'
    → (lookup i s.local_accums ≡ some original → lookup i s'.local_accums ≡ some original)
      × (is_merged i vs ≡ true → lookup i s'.local_accums ≡ some original)
unfolding merge
merge-original [] s s' i e =
    (λ h. ap (λ z. lookup i z.local_accums) (sym (ok-injective e)) ∙ h, λ h. cc)
merge-original ((id, v) ∷ vs) s s' i e =
    let (s₁, g, h) = >>=-eq-ok (add_original id v s) _ e in
    let l = add_original-local id v s s₁ g in
    let (r, q) = merge-original vs s₁ s' i h in
    elim (Bool-cases (id == i)) [
      | inl p ↦
          let t = r (ground (arith, lookup-put_same id original s.local_accums)) in (λ k. t, λ k. t)
      | inr p ↦ (
        λ k. r (ground (arith, lookup-put_other id i original s.local_accums p)),
        λ k. q (ground arith),
      )
    ]

-- After a merge that returns, `clear` sets each accumulator that got a value back to zero: `add`
-- has registered the original itself as a local accumulator.
pub clear-merged :
    (vs : List (ℕ × ℕ)) (s s' : Accums) (i : ℕ)
    → merge vs s ≡ ok s'
    → is_merged i vs ≡ true
    → value_of i (clear s') ≡ 0
unfolding clear
clear-merged vs s s' i e m =
    ap (value_or 0)
      (reset_originals-original s'.local_accums s'.originals i ((merge-original vs s s' i e).1 m))
