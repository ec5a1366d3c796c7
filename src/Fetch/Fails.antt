-- ===== src/Fetch/Fails.antt =====
-- `fetch_with_retry` of dpark/shuffle.py when every attempt fails: how often it tries, how long it
-- waits, and which errors it takes for a 404.
use dpark.Common.{
  ℕ, zero, suc, ◌/◌, ◌%◌, ◌≤◌, ◌≡◌, refl, sym, ap, ◌∙◌, Bool, true, false, [], ◌∷◌, ◌==◌, arith,
  Bool-cases, inl, inr, ◌⊎◌, ◌||◌, ◌↔◌,
}
use dpark.Fetch.{
  Response, Failure, unreachable, not_found, bad_head_length, bad_flag, unexpected_sorted,
  bad_content, read_failed, length_mismatch, size_mismatch, failed, unsorted_batches, has_404_from,
  has_404, is_fail_fast, Fetch, fetch_failed, fetch_from, fetch,
}

-- the number without its last `i` digits
abbrev pub without_last : ℕ → ℕ → ℕ
without_last zero n = n
without_last (suc i) n = without_last i (n / 10)

-- The digits 404 stand in the number, with `i` digits after them.
abbrev pub Has404 : ℕ → Type 0
Has404 n = (i : ℕ) × (without_last i n % 1000 ≡ 404)

-- The text of the exception has a 404 in it.
abbrev pub Says404 : Failure → Type 0
Says404 (unreachable b) = b ≡ true
Says404 not_found = ⊥
Says404 (bad_head_length n) = Has404 n
Says404 bad_flag = ⊥
Says404 unexpected_sorted = ⊥
Says404 (bad_content b) = b ≡ true
Says404 (read_failed b) = b ≡ true
Says404 (length_mismatch a b) = Has404 a ⊎ Has404 b
Says404 (size_mismatch a b) = Has404 a ⊎ Has404 b

has_404_from-Has404 : (fuel n : ℕ) → has_404_from fuel n ≡ true → Has404 n
has_404_from-Has404 zero n h = cc
has_404_from-Has404 (suc fuel) n h = elim (Bool-cases (n % 1000 == 404)) [
  | inl p ↦ (0, ground arith)
  | inr p ↦ let (i, e) = has_404_from-Has404 fuel (n / 10) (ground arith) in (suc i, e)
]

without_last-zero : (i : ℕ) → without_last i 0 ≡ 0
without_last-zero zero = refl
without_last-zero (suc i) = without_last-zero i

Has404-has_404_from :
    (fuel n i : ℕ) → n ≤ fuel → without_last i n % 1000 ≡ 404 → has_404_from fuel n ≡ true
Has404-has_404_from zero n i l e =
    let z : n ≡ 0 = omega (arith, l) in
    let w : without_last i n ≡ 0 = ap (without_last i) z ∙ without_last-zero i in
    absurd (omega (arith, e, w))
Has404-has_404_from (suc fuel) n zero l e = ground arith
Has404-has_404_from (suc fuel) n (suc i) l e =
    let r = Has404-has_404_from fuel (n / 10) i (omega (arith, l)) e in ground arith

has_404-Has404 : (n : ℕ) → (has_404 n ≡ true) ↔ Has404 n
has_404-Has404 n = (has_404_from-Has404 n n, λ h. Has404-has_404_from n n h.0 (omega arith) h.1)

or_right : (a : Bool) {b : Bool} → b ≡ true → (a || b) ≡ true
or_right true e = refl
or_right false e = e

or_Has404 : (a b : ℕ) → ((has_404 a || has_404 b) ≡ true) ↔ (Has404 a ⊎ Has404 b)
or_Has404 a b = (
  λ h. elim (Bool-cases (has_404 a)) [
    | inl p ↦ inl ((has_404-Has404 a).0 p)
    | inr p ↦ inr ((has_404-Has404 b).0 (ap (λ z. z || has_404 b) (sym p) ∙ h))
  ],
  λ h. elim h [
    | inl p ↦ ap (λ z. z || has_404 b) ((has_404-Has404 a).1 p)
    | inr p ↦ or_right (has_404 a) ((has_404-Has404 b).1 p)
  ],
)

true-false : {b : Bool} → b ≡ true → b ≡ false → ⊥
true-false p q = cc

is_fail_fast-Says404 : (e : Failure) → (is_fail_fast e ≡ true) ↔ Says404 e
is_fail_fast-Says404 (unreachable b) = (λ h. h, λ h. h)
is_fail_fast-Says404 not_found = (λ h. cc h, λ h. absurd h)
is_fail_fast-Says404 (bad_head_length n) = has_404-Has404 n
is_fail_fast-Says404 bad_flag = (λ h. cc h, λ h. absurd h)
is_fail_fast-Says404 unexpected_sorted = (λ h. cc h, λ h. absurd h)
is_fail_fast-Says404 (bad_content b) = (λ h. h, λ h. h)
is_fail_fast-Says404 (read_failed b) = (λ h. h, λ h. h)
is_fail_fast-Says404 (length_mismatch a b) = or_Has404 a b
is_fail_fast-Says404 (size_mismatch a b) = or_Has404 a b

-- the exception says 404, or it does not
Says404-cases :
    (e : Failure)
    → ((is_fail_fast e ≡ true) × Says404 e) ⊎ ((is_fail_fast e ≡ false) × (¬ (Says404 e)))
Says404-cases e = elim (Bool-cases (is_fail_fast e)) [
  | inl p ↦ inl (p, (is_fail_fast-Says404 e).0 p)
  | inr p ↦ inr (p, λ h. true-false ((is_fail_fast-Says404 e).1 h) p)
]

module _ {B : Type 0} where
  -- FetchFailed is raised: with no wait if the first error says 404, after one second if the second
  -- does, and else after one second and ten seconds.
  abbrev pub GivesUp : Failure → Failure → Fetch B → Type 0
  GivesUp e f r =
      (r.ending ≡ fetch_failed)
      × ((Says404 e × (r.sleeps ≡ []))
          ⊎ (((¬ (Says404 e)) × Says404 f × (r.sleeps ≡ 1 ∷ []))
              ⊎ ((¬ (Says404 e)) × (¬ (Says404 f)) × (r.sleeps ≡ 1 ∷ 10 ∷ []))))

  -- If every attempt fails, FetchFailed is raised: at once after an error with a 404 in its text,
  -- be it a number in the message that has these digits, and else after three attempts, with a
  -- second and then ten seconds in between. The error for the code 404 says "not found", and is
  -- tried again.
  pub fetch-fails :
      (responses : ℕ → Response B) (e : ℕ → Failure)
      → ((i : ℕ) → (unsorted_batches (responses i)).1 ≡ failed (e i))
      → GivesUp (e 0) (e 1) (fetch responses)
  unfolding fetch fetch_from
  fetch-fails responses e h = elim (Says404-cases (e 0)) [
    | inl (a, s) ↦ rw (fetch, fetch_from, h 0, a) (refl, inl (s, refl))
    | inr (a, s) ↦ elim (Says404-cases (e 1)) [
      | inl (b, t) ↦ rw (fetch, fetch_from, h 0, h 1, a, b) (refl, inr (inl (s, t, refl)))
      | inr (b, t) ↦ elim (Bool-cases (is_fail_fast (e 2))) [
        | inl c ↦ rw (fetch, fetch_from, h 0, h 1, h 2, a, b, c) (refl, inr (inr (s, t, refl)))
        | inr c ↦ rw (fetch, fetch_from, h 0, h 1, h 2, a, b, c) (refl, inr (inr (s, t, refl)))
      ]
    ]
  ]
