-- ===== src/RunJob/Pending.antt =====
-- The set of pending tasks of dpark/schedule.py's `runJob`: what is left when a task is removed.
use dpark.Common.{
  ℕ, ◌≡◌, refl, sym, Bool, true, false, List, [], ◌∷◌, contains, ◌==◌, Result, ok, raise, arith,
  ok-injective, inl, inr, ◌⊎◌, if_cases_eq,
}
use mathlib.Core.Path.{subst}
use dpark.RunJob.{remove}

-- the list has no member twice
abbrev pub NoTwice : List ℕ → Type 0
NoTwice [] = Unit
NoTwice (x ∷ xs) = (contains xs x ≡ false) × NoTwice xs

later_ok :
    (y : ℕ) (r : Result (List ℕ)) {l' : List ℕ}
    → elim r [ ok ys ↦ ok (y ∷ ys) | raise e ↦ raise e ] ≡ ok l'
    → (zs : List ℕ) × (r ≡ ok zs) × (l' ≡ y ∷ zs)
later_ok y (ok zs) e = (zs, refl, sym (ok-injective e))
later_ok y (raise x) e = cc

remove-cases :
    (x y : ℕ) (ys l' : List ℕ)
    → remove x (y ∷ ys) ≡ ok l'
    → (((y == x) ≡ true) × (l' ≡ ys))
      ⊎ (((y == x) ≡ false) × ((zs : List ℕ) × (remove x ys ≡ ok zs) × (l' ≡ y ∷ zs)))
unfolding remove
remove-cases x y ys l' e =
    if_cases_eq (y == x) e (λ p q. inl (p, sym (ok-injective q)))
      (λ p q. inr (p, later_ok y (remove x ys) q))

pub remove-contains : (x : ℕ) (l l' : List ℕ) → remove x l ≡ ok l' → contains l x ≡ true
unfolding remove
remove-contains x [] l' e = cc
remove-contains x (y ∷ ys) l' e = elim (remove-cases x y ys l' e) [
  | inl (p, q) ↦ ground arith
  | inr (p, (zs, r, q)) ↦ ground (arith, remove-contains x ys zs r)
]

pub remove-subset :
    (x : ℕ) (l l' : List ℕ)
    → remove x l ≡ ok l'
    → (z : ℕ) → contains l' z ≡ true
    → contains l z ≡ true
unfolding remove
remove-subset x [] l' e z h = cc
remove-subset x (y ∷ ys) l' e z h = elim (remove-cases x y ys l' e) [
  | inl (p, q) ↦ ground arith
  | inr (p, (zs, r, q)) ↦ ground (arith, remove-subset x ys zs r z)
]

absent : (b : Bool) {c : Bool} → (b ≡ true → c ≡ true) → c ≡ false → b ≡ false
absent true f e = cc (f refl, e)
absent false f e = refl

pub remove-gone : (x : ℕ) (l l' : List ℕ) → NoTwice l → remove x l ≡ ok l' → contains l' x ≡ false
unfolding remove
remove-gone x [] l' s e = cc
remove-gone x (y ∷ ys) l' s e = elim (remove-cases x y ys l' e) [
  | inl (p, q) ↦ ground (arith, s.0)
  | inr (p, (zs, r, q)) ↦ ground (arith, remove-gone x ys zs s.1 r)
]

pub remove-NoTwice : (x : ℕ) (l l' : List ℕ) → NoTwice l → remove x l ≡ ok l' → NoTwice l'
unfolding remove
remove-NoTwice x [] l' s e = cc
remove-NoTwice x (y ∷ ys) l' s e = elim (remove-cases x y ys l' e) [
  | inl (p, q) ↦ subst NoTwice (sym q) s.1
  | inr (p, (zs, r, q)) ↦
      subst NoTwice (sym q)
        (absent (contains zs y) (remove-subset x ys zs r y) s.0, remove-NoTwice x ys zs s.1 r)
]
