-- ===== src/Shuffle/Whole.antt =====
-- A shuffle from the items of the map tasks to what a reducer yields: `ShuffleMapTask._run` of
-- dpark/task.py, then `DiskHashMerger` of dpark/shuffle.py.
use dpark.Common.{
  ℕ, ◌<◌, ◌≡◌, refl, sym, ap, ◌∙◌, Bool, true, false, Option, none, List, [], ◌∷◌, ◌++◌,
  length-replicate, lookup, get_or, replicate, ◌==◌, if◌then◌else◌, if_either, arith, Bool-cases,
  inl, inr, map,
}
use mathlib.Core.Path.{subst}
use dpark.Common.Keyed.{
  select, Unique, combine_all, join, join-none, join_assoc, combine_all-cons, IsAssociative,
}
use dpark.Dependency.{Aggregator}
use dpark.Shuffle.{MapRun, start_map, dump, map_item, map_items, run_map_task, Input}
use dpark.Shuffle.Heads.{select_all}
use dpark.Shuffle.Mapper.{
  get_or-replicate, select_all-commit, get_or-cleared, IsMapping, AreConsistent, prepared, added,
  with_value, with_value-IsMapping, prepared-with_value, dumped, dumped-IsMapping, filed,
}

start-IsMapping : {C : Type 0} (n : ℕ) → IsMapping {C = C} n (start_map n)
start-IsMapping n = record {
  buckets = length-replicate n [];
  files = length-replicate n [];
  unique = λ r. subst Unique (sym (get_or-replicate n r [])) tt;
}

-- the items of all tasks
abbrev pub all_items : {V : Type 0} → List (Input V) → List (ℕ × V)
all_items [] = []
all_items ((over, items) ∷ inputs) = items ++ all_items inputs

module _ {V C : Type 0} (agg : Aggregator V C) (partition : ℕ → ℕ) where
  -- what the reducer `r` is to have for the key `k` of the items
  abbrev pub values_for : ℕ → ℕ → List (ℕ × V) → Option C
  values_for r k items =
      if partition k == r
      then combine_all agg.merge_combiners (map agg.create_combiner (select k items))
      else none

  module _ (is_none : C → Bool) (never : (c : C) → is_none c ≡ false)
      (assoc : IsAssociative agg.merge_combiners) where
    values_for-cons :
        (over : ℕ → Bool) (r k i : ℕ) (v : V) (items : List (ℕ × V))
        → join agg.merge_combiners (added agg partition over k r i v) (values_for r k items)
          ≡ values_for r k ((i, v) ∷ items)
    values_for-cons over r k i v items = elim (Bool-cases (i == k)) [
      | inl p ↦
          let e : i ≡ k = ground arith in
          elim (Bool-cases (partition k == r)) [
            | inl q ↦
                let q' : (partition i == r) ≡ true = ap (λ z. partition z == r) e ∙ q in
                rw (p, q, q')
                  (sym (
                    combine_all-cons agg.merge_combiners assoc (agg.create_combiner v)
                      (map agg.create_combiner (select k items))))
            | inr q ↦
                let q' : (partition i == r) ≡ false = ap (λ z. partition z == r) e ∙ q in
                rw (p, q, q') refl
          ]
      | inr p ↦ elim (Bool-cases (partition i == r)) [
        | inl q ↦ rw (p, q) refl
        | inr q ↦ rw (p, q) refl
      ]
    ]

    module _ (consistent : AreConsistent agg) (n : ℕ) (within : (k : ℕ) → partition k < n) where
      module _ (over : ℕ → Bool) where
        prepared-dumped :
            (s : MapRun C)
            → IsMapping n s
            → (k r : ℕ)
            → prepared agg partition over k r
                (dumped agg partition over is_none never assoc consistent s)
              ≡ prepared agg partition over k r s
        prepared-dumped s g k r =
            let x : Option C =
              combine_all agg.merge_combiners
                (select_all k (get_or (dump s.buckets s.files) r [])) in
            ap (λ z. join agg.merge_combiners x (lookup k z)) (get_or-cleared s.buckets r)
            ∙ join-none agg.merge_combiners x
            ∙ filed agg partition over is_none never assoc consistent n s g k r

        map_item-IsMapping :
            (s : MapRun C) (i : ℕ) (v : V)
            → IsMapping n s
            → IsMapping n (map_item is_none agg partition over s i v)
        unfolding map_item
        map_item-IsMapping s i v g =
            let g' =
              with_value-IsMapping agg partition over is_none never assoc consistent n s i v g
                (within i) in
            let s' = with_value agg partition over is_none never assoc consistent s i v in
            if_either (IsMapping n) (over s.taken)
              (dumped-IsMapping agg partition over is_none never assoc consistent n s' g') g'

        prepared-map_item :
            (s : MapRun C) (i : ℕ) (v : V)
            → IsMapping n s
            → (k r : ℕ)
            → prepared agg partition over k r (map_item is_none agg partition over s i v)
              ≡ join agg.merge_combiners
                  (prepared agg partition over k r s)
                  (added agg partition over k r i v)
        unfolding map_item
        prepared-map_item s i v g k r =
            let s' = with_value agg partition over is_none never assoc consistent s i v in
            let g' =
              with_value-IsMapping agg partition over is_none never assoc consistent n s i v g
                (within i) in
            let e =
              prepared-with_value agg partition over is_none never assoc consistent n s i v g
                (within i) k r in
            if_either
              (λ z.
                prepared agg partition over k r z
                ≡ join agg.merge_combiners (prepared agg partition over k r s)
                    (added agg partition over k r i v))
              (over s.taken) (prepared-dumped s' g' k r ∙ e) e

        prepared-map_items :
            (items : List (ℕ × V)) (s : MapRun C)
            → IsMapping n s
            → IsMapping n (map_items is_none agg partition over s items)
              × ((k r : ℕ)
                  → prepared agg partition over k r (map_items is_none agg partition over s items)
                    ≡ join agg.merge_combiners
                        (prepared agg partition over k r s)
                        (values_for r k items))
        unfolding map_items
        prepared-map_items [] s g = (
          g,
          λ k r.
              sym (join-none agg.merge_combiners (prepared agg partition over k r s))
              ∙ ap (join agg.merge_combiners (prepared agg partition over k r s))
                  (sym (if_either (λ z. z ≡ none) (partition k == r) refl refl)),
        )
        prepared-map_items ((i, v) ∷ items) s g =
            let s' = map_item is_none agg partition over s i v in
            let (g', e) = prepared-map_items items s' (map_item-IsMapping s i v g) in
            (
              g',
              λ k r.
                  let p = prepared agg partition over k r s in
                  e k r
                  ∙ ap (λ z. join agg.merge_combiners z (values_for r k items))
                      (prepared-map_item s i v g k r)
                  ∙ join_assoc agg.merge_combiners assoc p (added agg partition over k r i v)
                      (values_for r k items)
                  ∙ ap (join agg.merge_combiners p) (values_for-cons over r k i v items),
            )

        prepared-start : (k r : ℕ) → prepared agg partition over k r (start_map n) ≡ none
        prepared-start k r =
            ap
              (λ z.
                join agg.merge_combiners (combine_all agg.merge_combiners (select_all k z))
                  (lookup k (get_or (replicate n []) r [])))
              (get_or-replicate n r [])
            ∙ ap (lookup k) (get_or-replicate n r [])

        -- With a partitioner that stays below the number of reducers, the files of a map task hold
        -- for each reducer and each key that is the reducer's all values of the key, combined in
        -- their order, and nothing for other keys, whenever the buckets are dumped in between, for
        -- an associative aggregator that merges a value as it merges the combiner of the value and
        -- none of whose combiners is None.
        pub run_map_task_lem :
            (items : List (ℕ × V)) (k r : ℕ)
            → combine_all agg.merge_combiners
                (select_all k (get_or (run_map_task is_none agg partition over n items) r []))
              ≡ values_for r k items
        unfolding run_map_task
        run_map_task_lem items k r =
            let s = map_items is_none agg partition over (start_map n) items in
            let (g, e) = prepared-map_items items (start_map n) (start-IsMapping n) in
            ap (combine_all agg.merge_combiners) (select_all-commit k (dump s.buckets s.files) r)
            ∙ filed agg partition over is_none never assoc consistent n s g k r
            ∙ e k r
            ∙ ap (λ z. join agg.merge_combiners z (values_for r k items)) (prepared-start k r)
