-- ===== src/Dependency/Bisect.antt =====
-- The search `bisect` that the partitioners of dpark/dependency.py use: where it ends.
use dpark.Common.{
  Bool, refl, ℕ, zero, suc, ◌+◌, ◌/◌, ◌≤◌, ◌<◌, ◌≡◌, some, List, [], ◌∷◌, length, get_elem?,
  get_elem?-lt, get_elem?-some, leb, ltb, ok, arith, Bool-cases, if_either, leb→le, inl, inr,
}
use dpark.Dependency.{bisect_range, bisect_by, bisect, insert_key, sort_keys}

-- every entry is at least `x`
abbrev pub AllAbove : ℕ → List ℕ → Type 0
AllAbove x [] = Unit
AllAbove x (y ∷ ys) = (x ≤ y) × AllAbove x ys

abbrev pub IsSorted : List ℕ → Type 0
IsSorted [] = Unit
IsSorted (x ∷ xs) = AllAbove x xs × IsSorted xs

-- The first `n` entries are at most `x`, the others are larger.
abbrev pub IsSplit : List ℕ → ℕ → ℕ → Type 0
IsSplit a x n = (i e : ℕ) → get_elem? a i ≡ some e → (i < n → e ≤ x) × (n ≤ i → x < e)

AllAbove-get_elem? : (x : ℕ) (a : List ℕ) (i e : ℕ) → AllAbove x a → get_elem? a i ≡ some e → x ≤ e
AllAbove-get_elem? x [] i e h g = cc
AllAbove-get_elem? x (y ∷ ys) zero e h g = ground (arith, h.0)
AllAbove-get_elem? x (y ∷ ys) (suc i) e h g = AllAbove-get_elem? x ys i e h.1 g

pub get_elem?-sorted :
    (a : List ℕ) (i j d e : ℕ)
    → IsSorted a
    → i ≤ j
    → get_elem? a i ≡ some d
    → get_elem? a j ≡ some e
    → d ≤ e
get_elem?-sorted [] i j d e s l g h = cc
get_elem?-sorted (x ∷ xs) zero zero d e s l g h = ground arith
get_elem?-sorted (x ∷ xs) zero (suc j) d e s l g h =
    ground (arith, AllAbove-get_elem? x xs j e s.0 h)
get_elem?-sorted (x ∷ xs) (suc i) zero d e s l g h = omega (arith, l)
get_elem?-sorted (x ∷ xs) (suc i) (suc j) d e s l g h =
    get_elem?-sorted xs i j d e s.1 (omega (arith, l)) g h

-- what is known while the search is between `lo` and `hi`
pub record Bounds (a : List ℕ) (x lo hi : ℕ) : Type 0 where
  pub order : lo ≤ hi
  pub inside : hi ≤ length a
  pub below : (i e : ℕ) → get_elem? a i ≡ some e → i < lo → e ≤ x
  pub above : (i e : ℕ) → get_elem? a i ≡ some e → hi ≤ i → x < e

bisect_range-IsSplit :
    (fuel : ℕ) (a : List ℕ) (x lo hi : ℕ)
    → IsSorted a
    → hi ≤ fuel + lo
    → Bounds a x lo hi
    → (n : ℕ) × (bisect_range ltb fuel a x lo hi ≡ ok n) × (n ≤ length a) × IsSplit a x n
unfolding bisect_range
bisect_range-IsSplit zero a x lo hi s f b = (
  lo,
  ground (arith, f, b.order),
  omega (arith, b.order, b.inside),
  λ i e g. (b.below i e g, λ l. b.above i e g (omega (arith, f, b.order, l))),
)
bisect_range-IsSplit (suc fuel) a x lo hi s f b = elim (Bool-cases (ltb lo hi)) [
  | inr p ↦ (
    lo,
    ground arith,
    omega (arith, b.order, b.inside),
    λ i e g. (b.below i e g, λ l. b.above i e g (ground (arith, b.order))),
  )
  | inl p ↦
      let mid = (lo + hi) / 2 in
      let (m, g) = get_elem?-some a mid (ground (arith, b.inside)) in
      elim (Bool-cases (ltb x m)) [
        | inl q ↦
            let (n, e, z, r) = bisect_range-IsSplit fuel a x lo mid s (ground arith) (record {
              order = ground arith;
              inside = ground (arith, b.inside);
              below = b.below;
              above = λ i e h l. ground (arith, get_elem?-sorted a mid i m e s l g h);
            }) in
            (n, rw (p, g, q) e, z, r)
        | inr q ↦
            let (n, e, z, r) = bisect_range-IsSplit fuel a x (mid + 1) hi s (ground arith) (record {
              order = ground arith;
              inside = b.inside;
              above = b.above;
              below =
                  λ i e h l. ground (arith, get_elem?-sorted a i mid e m s (omega (arith, l)) h g);
            }) in
            (n, rw (p, g, q) e, z, r)
      ]
]

-- On a sorted list the search ends, and what it answers splits the list at the key.
pub bisect-IsSplit :
    (a : List ℕ) (x : ℕ)
    → IsSorted a
    → (n : ℕ) × (bisect a x ≡ ok n) × (n ≤ length a) × IsSplit a x n
unfolding bisect bisect_by
bisect-IsSplit a x s = bisect_range-IsSplit (length a) a x 0 (length a) s (omega arith) (record {
  order = omega arith;
  inside = omega arith;
  below = λ i e g l. absurd (omega (arith, l));
  above = λ i e g l. absurd (omega (arith, get_elem?-lt a i g, l));
})

bisect_range_total :
    {A : Type 0} (lt : A → A → Bool) (fuel : ℕ) (a : List A) (x : A) (lo hi : ℕ)
    → lo ≤ hi
    → hi ≤ length a
    → hi ≤ fuel + lo
    → (n : ℕ) × (bisect_range lt fuel a x lo hi ≡ ok n) × (n ≤ hi)
unfolding bisect_range
bisect_range_total lt zero a x lo hi l h f = (lo, ground (arith, f, l), l)
bisect_range_total lt (suc fuel) a x lo hi l h f = elim (Bool-cases (ltb lo hi)) [
  | inr p ↦ (lo, rw p refl, l)
  | inl p ↦
      let mid = (lo + hi) / 2 in
      let (m, g) = get_elem?-some a mid (ground (arith, h)) in
      elim (Bool-cases (lt x m)) [
        | inl q ↦
            let (n, e, z) =
              bisect_range_total lt fuel a x lo mid (ground arith) (ground (arith, h))
                (ground (arith, f)) in
            (n, rw (p, g, q) e, ground (arith, z))
        | inr q ↦
            let (n, e, z) =
              bisect_range_total lt fuel a x (mid + 1) hi (ground arith) h (ground (arith, f)) in
            (n, rw (p, g, q) e, z)
      ]
]

-- The search ends within the list, whatever the list and the order are.
pub bisect_by_total :
    {A : Type 0} (lt : A → A → Bool) (a : List A) (x : A)
    → (n : ℕ) × (bisect_by lt a x ≡ ok n) × (n ≤ length a)
unfolding bisect_by
bisect_by_total lt a x =
    bisect_range_total lt (length a) a x 0 (length a) (omega arith) (omega arith) (omega arith)

AllAbove-insert : (x k : ℕ) (a : List ℕ) → x ≤ k → AllAbove x a → AllAbove x (insert_key k a)
AllAbove-insert x k [] l h = (l, tt)
AllAbove-insert x k (y ∷ ys) l h =
    if_either (AllAbove x) (leb k y) (l, h) (h.0, AllAbove-insert x k ys l h.1)

AllAbove-le : (x y : ℕ) (a : List ℕ) → x ≤ y → AllAbove y a → AllAbove x a
AllAbove-le x y [] l h = tt
AllAbove-le x y (z ∷ zs) l h = (omega (arith, l, h.0), AllAbove-le x y zs l h.1)

insert_key-IsSorted : (k : ℕ) (a : List ℕ) → IsSorted a → IsSorted (insert_key k a)
insert_key-IsSorted k [] s = (tt, tt)
insert_key-IsSorted k (y ∷ ys) s = elim (Bool-cases (leb k y)) [
  | inl p ↦ rw p ((leb→le k y p, AllAbove-le k y ys (leb→le k y p) s.0), s)
  | inr p ↦ rw p (AllAbove-insert y k ys (ground arith) s.0, insert_key-IsSorted k ys s.1)
]

pub sort_keys-IsSorted : (ks : List ℕ) → IsSorted (sort_keys ks)
sort_keys-IsSorted [] = tt
sort_keys-IsSorted (k ∷ ks) = insert_key-IsSorted k (sort_keys ks) (sort_keys-IsSorted ks)
