-- ===== src/Cogroup/Cursor.antt =====
-- `cogroup_no_dup` of dpark/utils/nested_groupby.py: what a round does to the cursors.
use dpark.Common.{
  ℕ, suc, ◌+◌, ◌≤◌, ◌<◌, ◌≡◌, refl, sym, ap, ◌∙◌, Bool, true, false, ◌||◌, Option, none, some, List,
  [], ◌∷◌, length, set, lookup, ltb, ◌==◌, arith, Bool-cases, Option-cases, inl, inr,
}
use mathlib.Core.Path.{subst}
use dpark.Dependency.Aggregate.{KeysAbove}
use dpark.Cogroup.{Cursors, least, row, advance}

module _ {V : Type 0} where
  abbrev pub is_some : Option (List V) → Bool
  is_some none = false
  is_some (some vs) = true

  -- whether an iterator has the key
  abbrev pub found : ℕ → Cursors V → Bool
  found k [] = false
  found k ((i, it) ∷ curr) = is_some (lookup k it) || found k curr

  -- the values of a key by the iterators, put into `t`
  abbrev pub fill : ℕ → Cursors V → List (List V) → List (List V)
  fill k [] t = t
  fill k ((i, it) ∷ curr) t = fill k curr (elim (lookup k it) [ none ↦ t | some vs ↦ set t i vs ])

  abbrev pub size : Cursors V → ℕ
  size [] = 0
  size ((i, it) ∷ curr) = length it + size curr

  abbrev pub KeysFrom : ℕ → List (ℕ × List V) → Type 0
  KeysFrom m [] = Unit
  KeysFrom m ((j, vs) ∷ it) = (m ≤ j) × KeysAbove j it

  abbrev pub AllFrom : ℕ → Cursors V → Type 0
  AllFrom m [] = Unit
  AllFrom m ((i, it) ∷ curr) = KeysFrom m it × AllFrom m curr

  pub lookup-above :
      (j k : ℕ) (it : List (ℕ × List V)) → KeysAbove j it → k ≤ j → lookup k it ≡ none
  lookup-above j k [] a h = refl
  lookup-above j k ((i, vs) ∷ it) a h =
      ground (arith, a.0, lookup-above i k it a.1 (omega (arith, a.0, h)))

  KeysAbove-from : (j m : ℕ) (it : List (ℕ × List V)) → KeysAbove j it → m ≤ j → KeysFrom (suc m) it
  KeysAbove-from j m [] a h = tt
  KeysAbove-from j m ((i, vs) ∷ it) a h = (omega (arith, a.0, h), a.1)

  KeysFrom-le : (m n : ℕ) (it : List (ℕ × List V)) → n ≤ m → KeysFrom m it → KeysFrom n it
  KeysFrom-le m n [] h a = tt
  KeysFrom-le m n ((j, vs) ∷ it) h a = (omega (arith, a.0, h), a.1)

  pub AllFrom-le : (m n : ℕ) (curr : Cursors V) → n ≤ m → AllFrom m curr → AllFrom n curr
  AllFrom-le m n [] h a = tt
  AllFrom-le m n ((i, it) ∷ curr) h a = (KeysFrom-le m n it h a.0, AllFrom-le m n curr h a.1)

  -- no key is left where there is no least key
  pub none_found : (curr : Cursors V) → least curr ≡ none → (k : ℕ) → found k curr ≡ false
  none_found [] e k = refl
  none_found ((i, []) ∷ curr) e k = none_found curr e k
  none_found ((i, (j, vs) ∷ it) ∷ curr) e k = elim (Option-cases (least curr)) [
    | inl p ↦ ground arith
    | inr (m, p) ↦ ground arith
  ]

  none-AllFrom : (curr : Cursors V) (m : ℕ) → least curr ≡ none → AllFrom m curr
  none-AllFrom [] m e = tt
  none-AllFrom ((i, []) ∷ curr) m e = (tt, none-AllFrom curr m e)
  none-AllFrom ((i, (j, vs) ∷ it) ∷ curr) m e = elim (Option-cases (least curr)) [
    | inl p ↦ ground arith
    | inr (n, p) ↦ ground arith
  ]

  pub least-AllFrom :
      (curr : Cursors V) (m : ℕ)
      → AllFrom 0 curr
      → least curr ≡ some m
      → AllFrom m curr × (found m curr ≡ true)
  least-AllFrom [] m a e = cc e
  least-AllFrom ((i, []) ∷ curr) m a e = let (b, f) = least-AllFrom curr m a.1 e in ((tt, b), f)
  least-AllFrom ((i, (j, vs) ∷ it) ∷ curr) m a e = elim (Option-cases (least curr)) [
    | inl p ↦
        let q : j ≡ m = ground arith in
        (((omega (arith, q), (a.0).1), none-AllFrom curr m p), ground arith)
    | inr (n, p) ↦
        let (b, f) = least-AllFrom curr n a.1 p in
        elim (Bool-cases (ltb n j)) [
          | inl c ↦
              let q : n ≡ m = ground arith in
              let f' : found m curr ≡ true = ap (λ z. found z curr) (sym q) ∙ f in
              (((ground arith, (a.0).1), subst (λ z. AllFrom z curr) q b), ground arith)
          | inr c ↦
              let q : j ≡ m = ground arith in
              (((omega (arith, q), (a.0).1), AllFrom-le n m curr (ground arith) b), ground arith)
        ]
  ]

  pub row-fill :
      (m : ℕ) (curr : Cursors V) (t : List (List V)) → AllFrom m curr → row m curr t ≡ fill m curr t
  row-fill m [] t a = refl
  row-fill m ((i, []) ∷ curr) t a = row-fill m curr t a.1
  row-fill m ((i, (j, vs) ∷ it) ∷ curr) t a = elim (Bool-cases (j == m)) [
    | inl e ↦ rw e (row-fill m curr (set t i vs) a.1)
    | inr e ↦ rw (e, lookup-above j m it (a.0).1 (a.0).0) (row-fill m curr t a.1)
  ]

  -- What the next round has: the groups of `m` are gone, all other groups are there.
  pub record IsAdvanced (m : ℕ) (curr next : Cursors V) : Type 0 where
    pub later : AllFrom (suc m) next
    pub smaller : size next ≤ size curr
    pub taken : found m curr ≡ true → size next < size curr
    pub same_found : (k : ℕ) → (m == k) ≡ false → found k next ≡ found k curr
    pub same_fill : (k : ℕ) (t : List (List V)) → (m == k) ≡ false → fill k next t ≡ fill k curr t

  cursor_stays :
      (m i j : ℕ) (vs : List V) (it : List (ℕ × List V)) (curr next : Cursors V)
      → KeysFrom m ((j, vs) ∷ it)
      → (j == m) ≡ false
      → IsAdvanced m curr next
      → IsAdvanced m ((i, (j, vs) ∷ it) ∷ curr) ((i, (j, vs) ∷ it) ∷ next)
  cursor_stays m i j vs it curr next a e r =
      let absent : lookup m it ≡ none = lookup-above j m it a.1 a.0 in
      record {
        later = ((ground (arith, a.0), a.1), r.later);
        smaller = omega (arith, r.smaller);
        taken = λ h.
            let h' : found m curr ≡ true = ground (arith, h, absent) in omega (arith, r.taken h');
        same_found = λ k h. ap (λ z. is_some (lookup k ((j, vs) ∷ it)) || z) (r.same_found k h);
        same_fill = λ k t h. r.same_fill k _ h;
      }

  -- a cursor goes on; nothing is left of it if there is no other group
  cursor_goes :
      (m i j : ℕ) (vs : List V) (it : List (ℕ × List V)) (curr next : Cursors V)
      → KeysFrom m ((j, vs) ∷ it)
      → (j == m) ≡ true
      → IsAdvanced m curr next
      → IsAdvanced m ((i, (j, vs) ∷ it) ∷ curr) ((i, it) ∷ next)
  cursor_goes m i j vs it curr next a e r = record {
    later = (KeysAbove-from j m it a.1 a.0, r.later);
    smaller = omega (arith, r.smaller);
    taken = λ h. omega (arith, r.smaller);
    same_found = λ k h.
        let n : (j == k) ≡ false = ground arith in
        rw n (ap (λ z. is_some (lookup k it) || z) (r.same_found k h));
    same_fill = λ k t h. let n : (j == k) ≡ false = ground arith in rw n (r.same_fill k _ h);
  }

  drop_empty :
      (m i : ℕ) (curr next : Cursors V)
      → IsAdvanced m curr ((i, []) ∷ next)
      → IsAdvanced m curr next
  drop_empty m i curr next r = record {
    later = r.later.1;
    smaller = omega (arith, r.smaller);
    taken = λ h. omega (arith, r.taken h);
    same_found = r.same_found;
    same_fill = r.same_fill;
  }

  pub advance-IsAdvanced :
      (m : ℕ) (curr : Cursors V) → AllFrom m curr → IsAdvanced m curr (advance m curr)
  advance-IsAdvanced m [] a = record {
    later = tt;
    smaller = omega arith;
    taken = λ h. cc h;
    same_found = λ k h. refl;
    same_fill = λ k t h. refl;
  }
  advance-IsAdvanced m ((i, []) ∷ curr) a =
      let r = advance-IsAdvanced m curr a.1 in
      record {
        later = r.later;
        smaller = omega (arith, r.smaller);
        taken = λ h. omega (arith, r.taken h);
        same_found = r.same_found;
        same_fill = r.same_fill;
      }
  advance-IsAdvanced m ((i, (j, vs) ∷ []) ∷ curr) a =
      let r = advance-IsAdvanced m curr a.1 in
      elim (Bool-cases (j == m)) [
        | inl e ↦ rw e (
            drop_empty m i _ (advance m curr)
              (cursor_goes m i j vs [] curr (advance m curr) a.0 e r))
        | inr e ↦ rw e (cursor_stays m i j vs [] curr (advance m curr) a.0 e r)
      ]
  advance-IsAdvanced m ((i, (j, vs) ∷ x ∷ it) ∷ curr) a =
      let r = advance-IsAdvanced m curr a.1 in
      elim (Bool-cases (j == m)) [
        | inl e ↦ rw e (cursor_goes m i j vs (x ∷ it) curr (advance m curr) a.0 e r)
        | inr e ↦ rw e (cursor_stays m i j vs (x ∷ it) curr (advance m curr) a.0 e r)
      ]
