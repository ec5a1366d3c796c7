-- ===== src/Cogroup/Rows.antt =====
-- `cogroup_no_dup` of dpark/utils/nested_groupby.py: the row of a key.
use dpark.Common.{
  ℕ, zero, suc, ◌+◌, ◌≤◌, ◌<◌, ◌≡◌, refl, sym, ap, ◌∙◌, Bool, true, false, ◌||◌, Option, none, some,
  List, [], ◌∷◌, ◌++◌, length, set, replicate, lookup, ltb, ◌==◌, if◌then◌else◌, arith, Bool-cases,
  Option-cases, inl, inr, map,
}
use mathlib.Core.Path.{subst}
use mathlib.Core.List.{append_assoc}
use dpark.Dependency.Aggregate.{KeysRise, KeysAbove}
use dpark.Shuffle.{total_length}
use dpark.Cogroup.{Cursors, start, least, row, advance, cogroup_from, cogroup_no_dup}
use dpark.Cogroup.Cursor.{
  is_some, found, fill, size, KeysFrom, AllFrom, lookup-above, AllFrom-le, none_found,
  least-AllFrom, row-fill, advance-IsAdvanced,
}

module _ {V : Type 0} where
  -- rows from `low` on, with rising keys
  abbrev RowsFrom : ℕ → List (ℕ × List (List V)) → Type 0
  RowsFrom low [] = Unit
  RowsFrom low ((j, t) ∷ rows) = (low ≤ j) × KeysAbove j rows

  rise-above : (m : ℕ) (rows : List (ℕ × List (List V))) → RowsFrom (suc m) rows → KeysAbove m rows
  rise-above m [] r = tt
  rise-above m ((j, t) ∷ rows) r = (r.0, r.1)

  rows-rise : (rows : List (ℕ × List (List V))) → RowsFrom 0 rows → KeysRise rows
  rows-rise [] r = tt
  rows-rise ((j, t) ∷ rows) r = r.1

  lookup-from :
      (low m : ℕ) (it : List (ℕ × List V)) → KeysFrom low it → m < low → lookup m it ≡ none
  lookup-from low m [] a h = refl
  lookup-from low m ((j, vs) ∷ it) a h =
      ground (arith, a.0, lookup-above j m it a.1 (omega (arith, a.0, h)))

  found-below : (low m : ℕ) (curr : Cursors V) → AllFrom low curr → m < low → found m curr ≡ false
  found-below low m [] a h = refl
  found-below low m ((i, it) ∷ curr) a h =
      rw (lookup-from low m it a.0 h) (found-below low m curr a.1 h)

  found-from : (low m : ℕ) (curr : Cursors V) → AllFrom low curr → found m curr ≡ true → low ≤ m
  found-from low m curr a f = elim (Bool-cases (ltb m low)) [
    | inl c ↦ cc (sym (found-below low m curr a (ground arith)) ∙ f)
    | inr c ↦ ground arith
  ]

  abbrev row_for : ℕ → ℕ → Cursors V → Option (List (List V))
  row_for n k curr = if found k curr then some (fill k curr (replicate n [])) else none

  step_end :
      (fuel n : ℕ) (curr : Cursors V) → least curr ≡ none → cogroup_from (suc fuel) n curr ≡ []
  unfolding cogroup_from
  step_end fuel n curr e = rw (cogroup_from, e) refl

  step_row :
      (fuel n : ℕ) (curr : Cursors V) (m : ℕ)
      → least curr ≡ some m
      → cogroup_from (suc fuel) n curr
        ≡ (m, row m curr (replicate n [])) ∷ cogroup_from fuel n (advance m curr)
  unfolding cogroup_from
  step_row fuel n curr m e = rw (cogroup_from, e) refl

  -- nothing is found without a group
  empty-found : (curr : Cursors V) → size curr ≤ 0 → (k : ℕ) → found k curr ≡ false
  empty-found [] h k = refl
  empty-found ((i, []) ∷ curr) h k = empty-found curr (omega (arith, h)) k
  empty-found ((i, x ∷ it) ∷ curr) h k = absurd (omega (arith, h))

  -- The rows rise by their keys, and each key has its row.
  record IsCogrouped (low n : ℕ) (curr : Cursors V) (rows : List (ℕ × List (List V))) : Type 0 where
    rise : RowsFrom low rows
    has : (k : ℕ) → lookup k rows ≡ row_for n k curr

  cogroup_from-IsCogrouped :
      (fuel n low : ℕ) (curr : Cursors V)
      → size curr ≤ fuel
      → AllFrom low curr
      → IsCogrouped low n curr (cogroup_from fuel n curr)
  unfolding cogroup_from
  cogroup_from-IsCogrouped zero n low curr h a = record {
    rise = tt;
    has = λ k. let f = empty-found curr h k in rw f refl;
  }
  cogroup_from-IsCogrouped (suc fuel) n low curr h a = elim (Option-cases (least curr)) [
    | inl e ↦
        subst (IsCogrouped low n curr) (sym (step_end fuel n curr e))
          (record { rise = tt; has = λ k. let f = none_found curr e k in rw f refl })
    | inr (m, e) ↦
        let (b, f) = least-AllFrom curr m (AllFrom-le low 0 curr (omega arith) a) e in
        let r = advance-IsAdvanced m curr b in
        let i =
          cogroup_from-IsCogrouped fuel n (suc m) (advance m curr) (omega (arith, r.taken f, h))
            r.later in
        let l : low ≤ m = found-from low m curr a f in
        subst (IsCogrouped low n curr) (sym (step_row fuel n curr m e)) (record {
          rise = (l, rise-above m _ i.rise);
          has = λ k. elim (Bool-cases (m == k)) [
            | inl q ↦
                let q' : m ≡ k = ground arith in
                let f' : found k curr ≡ true = ap (λ z. found z curr) (sym q') ∙ f in
                rw (q, f')
                  (ap some (
                    row-fill m curr (replicate n []) b ∙ ap (λ z. fill z curr (replicate n [])) q'))
            | inr q ↦ rw q (
                i.has k
                ∙ rw (r.same_found k q) (
                    ap (λ z. if found k curr then some z else none)
                      (r.same_fill k (replicate n []) q)))
          ];
        })
  ]

  -- what a row is to have: the values of the key in each list
  abbrev pub values_of : ℕ → List (ℕ × List V) → List V
  values_of k it = elim (lookup k it) [ none ↦ [] | some vs ↦ vs ]

  abbrev pub has_key : ℕ → List (List (ℕ × List V)) → Bool
  has_key k [] = false
  has_key k (it ∷ iters) = is_some (lookup k it) || has_key k iters

  abbrev pub AllRise : List (List (ℕ × List V)) → Type 0
  AllRise [] = Unit
  AllRise (it ∷ iters) = KeysRise it × AllRise iters

  start-found :
      (k i : ℕ) (iters : List (List (ℕ × List V))) → found k (start i iters) ≡ has_key k iters
  start-found k i [] = refl
  start-found k i ([] ∷ iters) = start-found k (i + 1) iters
  start-found k i ((x ∷ it) ∷ iters) =
      ap (λ z. is_some (lookup k (x ∷ it)) || z) (start-found k (i + 1) iters)

  start-size :
      (i : ℕ) (iters : List (List (ℕ × List V))) → size (start i iters) ≡ total_length iters
  start-size i [] = refl
  start-size i ([] ∷ iters) = omega (arith, start-size (i + 1) iters)
  start-size i ((x ∷ it) ∷ iters) = omega (arith, start-size (i + 1) iters)

  start-AllFrom :
      (i : ℕ) (iters : List (List (ℕ × List V))) → AllRise iters → AllFrom 0 (start i iters)
  start-AllFrom i [] a = tt
  start-AllFrom i ([] ∷ iters) a = start-AllFrom (i + 1) iters a.1
  start-AllFrom i (((j, vs) ∷ it) ∷ iters) a = ((omega arith, a.0), start-AllFrom (i + 1) iters a.1)

  set-middle :
      (pre : List (List V)) (x y : List V) (post : List (List V))
      → set (pre ++ x ∷ post) (length pre) y ≡ pre ++ y ∷ post
  set-middle [] x y post = refl
  set-middle (z ∷ pre) x y post = ap (λ l. z ∷ l) (set-middle pre x y post)

  length-end : (pre : List (List V)) (x : List V) → length (pre ++ x ∷ []) ≡ length pre + 1
  length-end [] x = refl
  length-end (z ∷ pre) x = omega (arith, length-end pre x)

  -- the list as far as it is filled, and the next item
  next_filled :
      (k i : ℕ) (iters : List (List (ℕ × List V))) (pre : List (List V)) (x : List V)
      → fill k (start i iters) ((pre ++ x ∷ []) ++ replicate (length iters) [])
        ≡ (pre ++ x ∷ []) ++ map (values_of k) iters
      → fill k (start i iters) (pre ++ x ∷ replicate (length iters) [])
        ≡ pre ++ x ∷ map (values_of k) iters
  next_filled k i iters pre x e =
      ap (fill k (start i iters)) (sym (append_assoc pre (x ∷ []) (replicate (length iters) [])))
      ∙ e
      ∙ append_assoc pre (x ∷ []) (map (values_of k) iters)

  start-fill :
      (k i : ℕ) (iters : List (List (ℕ × List V))) (pre : List (List V))
      → length pre ≡ i
      → fill k (start i iters) (pre ++ replicate (length iters) []) ≡ pre ++ map (values_of k) iters
  start-fill k i [] pre e = refl
  start-fill k i ([] ∷ iters) pre e =
      next_filled k (i + 1) iters pre []
        (start-fill k (i + 1) iters (pre ++ [] ∷ []) (omega (arith, length-end pre [], e)))
  start-fill k i ((x ∷ it) ∷ iters) pre e =
      let rep : List (List V) = replicate (length iters) [] in
      elim (lookup k (x ∷ it))
        as (λ o.
          fill k (start (i + 1) iters)
            (elim o [ none ↦ pre ++ [] ∷ rep | some vs ↦ set (pre ++ [] ∷ rep) i vs ])
          ≡ pre ++ elim o [ none ↦ [] | some vs ↦ vs ] ∷ map (values_of k) iters) [
            | none ↦
                next_filled k (i + 1) iters pre [] (
                  start-fill k (i + 1) iters (pre ++ [] ∷ []) (omega (arith, length-end pre [], e)))
            | some vs ↦
                ap (fill k (start (i + 1) iters))
                  (ap (λ z. set (pre ++ [] ∷ rep) z vs) (sym e) ∙ set-middle pre [] vs rep)
                ∙ next_filled k (i + 1) iters pre vs (
                    start-fill k (i + 1) iters (pre ++ vs ∷ [])
                      (omega (arith, length-end pre vs, e)))
          ]

  -- Of lists with rising keys it makes rows with rising keys: a key has a row just if one of the
  -- lists has it, with its values in each of the lists, in their order, and nothing for a list
  -- without it.
  pub cogroup_no_dup-has :
      (iters : List (List (ℕ × List V)))
      → AllRise iters
      → KeysRise (cogroup_no_dup iters)
        × ((k : ℕ)
            → lookup k (cogroup_no_dup iters)
              ≡ (if has_key k iters then some (map (values_of k) iters) else none))
  unfolding cogroup_no_dup
  cogroup_no_dup-has iters a =
      let i =
        cogroup_from-IsCogrouped (total_length iters) (length iters) 0 (start 0 iters)
          (omega (arith, start-size 0 iters)) (start-AllFrom 0 iters a) in
      (
        rows-rise _ i.rise,
        λ k.
            i.has k
            ∙ ap
                (λ z.
                  if z then some (fill k (start 0 iters) (replicate (length iters) [])) else none)
                (start-found k 0 iters)
            ∙ ap (λ z. if has_key k iters then some z else none) (start-fill k 0 iters [] refl),
      )
