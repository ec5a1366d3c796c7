-- ===== src/Shuffle/Mapper.antt =====
-- `ShuffleMapTask._run` of dpark/task.py: what its files for a reducer hold for a key.
use dpark.Common.{
  false, ℕ, zero, suc, ◌+◌, ◌<◌, ◌≡◌, refl, sym, ap, ◌∙◌, Bool, Option, none, some, List, [], ◌∷◌,
  ◌++◌, length, length-set, length-map, lookup, get_or, set, replicate, ◌==◌, if◌then◌else◌,
  if_either, arith, Bool-cases, Option-cases, inl, inr, map,
}
use mathlib.Core.List.{append-nil}
use mathlib.Core.Path.{subst}
use dpark.Common.Dicts.{lookup-put_same, lookup-put_other}
use dpark.Common.Keyed.{
  select, Unique, select-Unique, put-Unique, combine_all, join, join-none, join_assoc,
  combine_all-append, IsAssociative,
}
use dpark.Dependency.{Aggregator}
use dpark.Shuffle.{MapRun, dump, commit, add_value}
use dpark.Shuffle.Heads.{select_all}
use dpark.Shuffle.Reducer.{select_all-append, combine_all-at_most_one}

get_or-set {ℓ} :
    {A : Type ℓ} (l : List A) (i j : ℕ) (a d : A)
    → i < length l
    → get_or (set l i a) j d ≡ (if i == j then a else get_or l j d)
get_or-set [] i j a d h = absurd (omega (arith, h))
get_or-set (x ∷ l) zero zero a d h = refl
get_or-set (x ∷ l) zero (suc j) a d h = ground arith
get_or-set (x ∷ l) (suc i) zero a d h = ground arith
get_or-set (x ∷ l) (suc i) (suc j) a d h = ground (arith, get_or-set l i j a d (omega (arith, h)))

pub get_or-replicate : {A : Type 0} (n r : ℕ) (a : A) → get_or (replicate n a) r a ≡ a
get_or-replicate zero r a = refl
get_or-replicate (suc n) zero a = refl
get_or-replicate (suc n) (suc r) a = get_or-replicate n r a

module _ {C : Type 0} where
  -- a file after the dump of a bucket
  abbrev with_batch : List (ℕ × C) → List (List (ℕ × C)) → List (List (ℕ × C))
  with_batch [] f = f
  with_batch (x ∷ b) f = f ++ (x ∷ b) ∷ []

  select_all-with_batch :
      (k : ℕ) (b : List (ℕ × C)) (f : List (List (ℕ × C)))
      → select_all k (with_batch b f) ≡ select_all k f ++ select k b
  select_all-with_batch k [] f = sym (append-nil (select_all k f))
  select_all-with_batch k (x ∷ b) f =
      select_all-append k f ((x ∷ b) ∷ [])
      ∙ ap (λ z. select_all k f ++ z) (append-nil (select k (x ∷ b)))

  length-dump :
      (bs : List (List (ℕ × C))) (fs : List (List (List (ℕ × C))))
      → length bs ≡ length fs
      → length (dump bs fs) ≡ length fs
  unfolding dump
  length-dump [] fs h = refl
  length-dump (b ∷ bs) [] h = refl
  length-dump ([] ∷ bs) (f ∷ fs) h = ap suc (length-dump bs fs (omega (arith, h)))
  length-dump ((x ∷ b) ∷ bs) (f ∷ fs) h = ap suc (length-dump bs fs (omega (arith, h)))

  get_or-dump :
      (bs : List (List (ℕ × C))) (fs : List (List (List (ℕ × C)))) (r : ℕ)
      → length bs ≡ length fs
      → get_or (dump bs fs) r [] ≡ with_batch (get_or bs r []) (get_or fs r [])
  unfolding dump
  get_or-dump [] fs r h = refl
  get_or-dump (b ∷ bs) [] r h = absurd (omega (arith, h))
  get_or-dump ([] ∷ bs) (f ∷ fs) zero h = refl
  get_or-dump ((x ∷ b) ∷ bs) (f ∷ fs) zero h = refl
  get_or-dump ([] ∷ bs) (f ∷ fs) (suc r) h = get_or-dump bs fs r (omega (arith, h))
  get_or-dump ((x ∷ b) ∷ bs) (f ∷ fs) (suc r) h = get_or-dump bs fs r (omega (arith, h))

  pub select_all-commit :
      (k : ℕ) (fs : List (List (List (ℕ × C)))) (r : ℕ)
      → select_all k (get_or (commit fs) r []) ≡ select_all k (get_or fs r [])
  select_all-commit k [] r = refl
  select_all-commit k ([] ∷ fs) zero = refl
  select_all-commit k ((b ∷ bs) ∷ fs) zero = refl
  select_all-commit k ([] ∷ fs) (suc r) = select_all-commit k fs r
  select_all-commit k ((b ∷ bs) ∷ fs) (suc r) = select_all-commit k fs r

  pub get_or-cleared :
      (bs : List (List (ℕ × C))) (r : ℕ) → get_or {A = List (ℕ × C)} (map (λ b. []) bs) r [] ≡ []
  get_or-cleared [] r = refl
  get_or-cleared (b ∷ bs) zero = refl
  get_or-cleared (b ∷ bs) (suc r) = get_or-cleared bs r

  -- There are as many buckets as files, and a bucket has each key once.
  pub record IsMapping (n : ℕ) (s : MapRun C) : Type 0 where
    pub buckets : length s.buckets ≡ n
    pub files : length s.files ≡ n
    pub unique : (r : ℕ) → Unique (get_or s.buckets r [])

module _ {V C : Type 0} (agg : Aggregator V C) where
  -- A value is merged as the combiner that it starts is.
  abbrev pub AreConsistent : Type 0
  AreConsistent =
      (c : C) (v : V) → agg.merge_value c v ≡ agg.merge_combiners c (agg.create_combiner v)

module _ {V C : Type 0} (agg : Aggregator V C) (partition : ℕ → ℕ) (over : ℕ → Bool) where
  -- what a run holds of a key for a reducer: what is in its file, and then in its bucket
  abbrev pub prepared : ℕ → ℕ → MapRun C → Option C
  prepared k r s =
      join agg.merge_combiners
        (combine_all agg.merge_combiners (select_all k (get_or s.files r [])))
        (lookup k (get_or s.buckets r []))

  -- what one item adds to that
  abbrev pub added : ℕ → ℕ → ℕ → V → Option C
  added k r i v =
      if partition i == r then (if i == k then some (agg.create_combiner v) else none) else none

  module _ (is_none : C → Bool) (never : (c : C) → is_none c ≡ false)
      (assoc : IsAssociative agg.merge_combiners) (consistent : AreConsistent agg) where
    lookup-add_value :
        (k : ℕ) (bucket : List (ℕ × C)) (i : ℕ) (v : V)
        → lookup k (add_value is_none agg partition over bucket i v)
          ≡ join agg.merge_combiners
              (lookup k bucket)
              (if i == k then some (agg.create_combiner v) else none)
    lookup-add_value k bucket i v = elim (Bool-cases (i == k)) [
      | inl p ↦ elim (Option-cases (lookup i bucket)) [
        | inl q ↦ ground (arith, lookup-put_same i (agg.create_combiner v) bucket)
        | inr (c, q) ↦
            ground (arith, lookup-put_same i (agg.merge_value c v) bucket, consistent c v, never c)
      ]
      | inr p ↦
          rw p (
            lookup-put_other i k _ bucket p ∙ sym (join-none agg.merge_combiners (lookup k bucket)))
    ]

    -- the run before it looks at the memory limit
    abbrev pub with_value : MapRun C → ℕ → V → MapRun C
    with_value s i v = record s {
      buckets =
          set s.buckets (partition i)
            (add_value is_none agg partition over (get_or s.buckets (partition i) []) i v);
      taken = s.taken + 1;
    }

    abbrev pub dumped : MapRun C → MapRun C
    dumped s = record s { buckets = map (λ b. []) s.buckets; files = dump s.buckets s.files }

    with_value-bucket :
        (n : ℕ) (s : MapRun C) (i : ℕ) (v : V)
        → IsMapping n s
        → partition i < n
        → (r : ℕ)
        → get_or (with_value s i v).buckets r [] ≡ (
            if partition i == r
            then add_value is_none agg partition over (get_or s.buckets r []) i v
            else get_or s.buckets r [])
    with_value-bucket n s i v g h r =
        get_or-set s.buckets (partition i) r _ [] (omega (arith, h, g.buckets))
        ∙ elim (Bool-cases (partition i == r)) [
          | inl p ↦
              let e : partition i ≡ r = ground arith in
              rw p (ap (λ z. add_value is_none agg partition over (get_or s.buckets z []) i v) e)
          | inr p ↦ rw p refl
        ]

    pub with_value-IsMapping :
        (n : ℕ) (s : MapRun C) (i : ℕ) (v : V)
        → IsMapping n s
        → partition i < n
        → IsMapping n (with_value s i v)
    with_value-IsMapping n s i v g h = record {
      buckets = length-set s.buckets (partition i) _ ∙ g.buckets;
      files = g.files;
      unique = λ r. subst Unique (sym (with_value-bucket n s i v g h r)) (
          if_either Unique (partition i == r) (put-Unique i _ (get_or s.buckets r []) (g.unique r))
            (g.unique r));
    }

    pub prepared-with_value :
        (n : ℕ) (s : MapRun C) (i : ℕ) (v : V)
        → IsMapping n s
        → partition i < n
        → (k r : ℕ)
        → prepared k r (with_value s i v)
          ≡ join agg.merge_combiners (prepared k r s) (added k r i v)
    prepared-with_value n s i v g h k r =
        let x : Option C = combine_all agg.merge_combiners (select_all k (get_or s.files r [])) in
        let b = get_or s.buckets r [] in
        ap (λ z. join agg.merge_combiners x (lookup k z)) (with_value-bucket n s i v g h r)
        ∙ elim (Bool-cases (partition i == r)) [
          | inl p ↦ rw p (
              ap (join agg.merge_combiners x) (lookup-add_value k b i v)
              ∙ sym (join_assoc agg.merge_combiners assoc x (lookup k b) _))
          | inr p ↦ rw p (sym (join-none agg.merge_combiners (prepared k r s)))
        ]

    pub dumped-IsMapping : (n : ℕ) (s : MapRun C) → IsMapping n s → IsMapping n (dumped s)
    dumped-IsMapping n s g = record {
      buckets = length-map s.buckets (λ b. []) ∙ g.buckets;
      files = length-dump s.buckets s.files (g.buckets ∙ sym g.files) ∙ g.files;
      unique = λ r. subst Unique (sym (get_or-cleared s.buckets r)) tt;
    }

    -- what the files hold once the buckets are dumped
    pub filed :
        (n : ℕ) (s : MapRun C)
        → IsMapping n s
        → (k r : ℕ)
        → combine_all agg.merge_combiners (select_all k (get_or (dump s.buckets s.files) r []))
          ≡ prepared k r s
    filed n s g k r =
        let f = get_or s.files r [] in
        let b = get_or s.buckets r [] in
        ap (λ z. combine_all agg.merge_combiners (select_all k z))
          (get_or-dump s.buckets s.files r (g.buckets ∙ sym g.files))
        ∙ ap (combine_all agg.merge_combiners) (select_all-with_batch k b f)
        ∙ combine_all-append agg.merge_combiners assoc (select_all k f) (select k b)
        ∙ ap
            (λ z.
              join agg.merge_combiners (combine_all agg.merge_combiners (select_all k f))
                (combine_all agg.merge_combiners z))
            (select-Unique k b (g.unique r))
        ∙ ap (join agg.merge_combiners (combine_all agg.merge_combiners (select_all k f)))
            (combine_all-at_most_one agg.merge_combiners (lookup k b))
