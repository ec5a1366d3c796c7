-- ===== src/Shuffle.antt =====
-- dpark/task.py (`ShuffleMapTask._run`, `BucketDumper`) and dpark/shuffle.py (`DiskHashMerger`,
-- `heap_merged`): the two sides of a shuffle, with Python 2's `dict.items`. A bucket or
-- `combined` is a dictionary in the order of insertion. A file of a map task for one reducer is the
-- list of its batches. Whether the memory limit is passed after an item is an argument.
pub mod Heads
pub mod Runs
pub mod Reducer
pub mod Mapper
pub mod Order
pub mod Whole
mod Tests
use dpark.Common.{
  Result, ok, raise, attribute_error, ◌>>=◌, ℕ, zero, suc, ◌+◌, Bool, true, false, ◌&&◌, Option,
  none, some, List, [], ◌∷◌, ◌++◌, length, lookup, get_or, set, replicate, leb, ◌==◌, if◌then◌else◌,
  map,
}
use dpark.Common.Dicts.{put}
use dpark.Dependency.{Aggregator}

-- `heapq.heappop` on the heads of the lists, compared by key and then by the number of the list: the
-- head of the first list whose key is least, and the lists without it. The heap has one entry for
-- each list that is not exhausted, so the heads are its entries.
unfoldable pub pop_min : {C : Type 0} → List (List (ℕ × C)) → Option ((ℕ × C) × List (List (ℕ × C)))
pop_min [] = none
pop_min ([] ∷ ls) = elim (pop_min ls) [ none ↦ none | some (x, rest) ↦ some (x, [] ∷ rest) ]
pop_min ((x ∷ l) ∷ ls) = elim (pop_min ls) [
  | none ↦ some (x, l ∷ ls)
  | some (y, rest) ↦ if leb x.0 y.0 then some (x, l ∷ ls) else some (y, (x ∷ l) ∷ rest)
]

abbrev pub total_length : {A : Type 0} → List (List A) → ℕ
total_length [] = 0
total_length (l ∷ ls) = length l + total_length ls

-- `items.sort(key=itemgetter(0))`
abbrev pub insert_item : {C : Type 0} → ℕ × C → List (ℕ × C) → List (ℕ × C)
insert_item x [] = x ∷ []
insert_item x (y ∷ ys) = if leb x.0 y.0 then x ∷ y ∷ ys else y ∷ insert_item x ys

abbrev pub sort_items : {C : Type 0} → List (ℕ × C) → List (ℕ × C)
sort_items [] = []
sort_items (x ∷ xs) = insert_item x (sort_items xs)

module _ {C : Type 0} (combiner : C → C → C) where
  -- the loop of `heap_merged`; it takes one item at a time, so their number is enough fuel
  unfoldable pub heap_merged_from : ℕ → ℕ → C → List (List (ℕ × C)) → List (ℕ × C)
  unfolding pop_min
  heap_merged_from zero last_key last_value ls = (last_key, last_value) ∷ []
  heap_merged_from (suc n) last_key last_value ls = elim (pop_min ls) [
    | none ↦ (last_key, last_value) ∷ []
    | some ((k, v), rest) ↦
        let same = heap_merged_from n last_key (combiner last_value v) rest in
        let other = heap_merged_from n k v rest in
        if k == last_key then same else (last_key, last_value) ∷ other
  ]

  -- `heap_merged`
  unfoldable pub heap_merged : List (List (ℕ × C)) → List (ℕ × C)
  unfolding heap_merged_from
  heap_merged ls = elim (pop_min ls) [
    | none ↦ []
    | some ((k, v), rest) ↦ heap_merged_from (total_length rest) k v rest
  ]

-- `DiskHashMerger`; `seen` counts the items that were merged
pub record DiskHashMerger (C : Type 0) : Type 0 where
  pub combined : List (ℕ × C)
  pub archives : List (List (ℕ × C))
  pub rotate_num : ℕ
  pub seen : ℕ

abbrev pub new_merger : {C : Type 0} → DiskHashMerger C
new_merger = record { combined = []; archives = []; rotate_num = 0; seen = 0 }

abbrev pub max_rotate : ℕ
max_rotate = 1000

-- what `_dump` leaves: `SortedItemsOnDisk` sorts what it writes
unfoldable pub dump_combined : {C : Type 0} → DiskHashMerger C → DiskHashMerger C
dump_combined m = record m {
  combined = [];
  archives = m.archives ++ sort_items m.combined ∷ [];
  rotate_num = m.rotate_num + 1;
}

-- `_rotate`: past the limit `logger.warnging` is no method
unfoldable pub rotate : {C : Type 0} → DiskHashMerger C → Result (DiskHashMerger C)
unfolding dump_combined
rotate m = if leb (m.rotate_num + 1) max_rotate then ok (dump_combined m) else raise attribute_error

-- `is_none` is Python's test `is None` on a combiner, which a user's function may return.
module _ {C : Type 0} (is_none : C → Bool) (merge_combiner : C → C → C) where
  -- `combined[k] = merge_combiner(o, v) if o is not None else v`
  abbrev pub merge_value_in : List (ℕ × C) → ℕ → C → List (ℕ × C)
  merge_value_in combined k v =
      put k
        (elim (lookup k combined) [
          | none ↦ v
          | some o ↦ if is_none o then v else merge_combiner o v
        ])
        combined

  module _ (use_disk : Bool) (over : ℕ → Bool) where
    -- one item of `_merge`
    unfoldable pub merge_item : DiskHashMerger C → ℕ → C → Result (DiskHashMerger C)
    unfolding rotate
    merge_item m k v =
        let m' : DiskHashMerger C = record m {
          combined = merge_value_in m.combined k v;
          seen = m.seen + 1;
        } in
        if use_disk && over m.seen then rotate m' else ok m'

    -- `_merge`
    unfoldable pub merge_items : DiskHashMerger C → List (ℕ × C) → Result (DiskHashMerger C)
    unfolding merge_item
    merge_items m [] = ok m
    merge_items m ((k, v) ∷ items) = do m' ← merge_item m k v; merge_items m' items

    -- `merge`, called for one batch after the other
    unfoldable pub merge_batches :
        DiskHashMerger C → List (List (ℕ × C)) → Result (DiskHashMerger C)
    unfolding merge_items
    merge_batches m [] = ok m
    merge_batches m (b ∷ bs) = do m' ← merge_items m b; merge_batches m' bs

-- `__iter__`
unfoldable pub merged_items : {C : Type 0} → (C → C → C) → DiskHashMerger C → List (ℕ × C)
unfolding heap_merged
merged_items merge_combiner m = elim m.archives [
  | [] ↦ m.combined
  | _ ∷ _ ↦ heap_merged merge_combiner (m.archives ++ sort_items m.combined ∷ [])
]

-- `ShuffleMapTask._run`: the buckets, the files that the dumper has written for each reducer, and
-- how many items were taken
pub record MapRun (C : Type 0) : Type 0 where
  pub buckets : List (List (ℕ × C))
  pub files : List (List (List (ℕ × C)))
  pub taken : ℕ

abbrev pub start_map : {C : Type 0} → ℕ → MapRun C
start_map n = record { buckets = replicate n []; files = replicate n []; taken = 0 }

-- `BucketDumper.dump`: the batch of a bucket is appended to its file, empty buckets are left out
unfoldable pub dump :
    {C : Type 0} → List (List (ℕ × C)) → List (List (List (ℕ × C))) → List (List (List (ℕ × C)))
dump [] fs = fs
dump (b ∷ bs) [] = []
dump ([] ∷ bs) (f ∷ fs) = f ∷ dump bs fs
dump ((x ∷ b) ∷ bs) (f ∷ fs) = (f ++ (x ∷ b) ∷ []) ∷ dump bs fs

-- `commit`: a reducer without a file gets one with an empty batch
abbrev pub commit : {C : Type 0} → List (List (List (ℕ × C))) → List (List (List (ℕ × C)))
commit [] = []
commit ([] ∷ fs) = ([] ∷ []) ∷ commit fs
commit ((b ∷ bs) ∷ fs) = (b ∷ bs) ∷ commit fs

module _ {V C : Type 0} (is_none : C → Bool) (agg : Aggregator V C) (partition : ℕ → ℕ)
    (over : ℕ → Bool) where
  -- `merge_value` or `create_combiner` for one item in its bucket
  abbrev pub add_value : List (ℕ × C) → ℕ → V → List (ℕ × C)
  add_value bucket k v =
      put k
        (elim (lookup k bucket) [
          | none ↦ agg.create_combiner v
          | some r ↦ if is_none r then agg.create_combiner v else agg.merge_value r v
        ])
        bucket

  -- one item of the loop; `over` is the test for a dump in between
  unfoldable pub map_item : MapRun C → ℕ → V → MapRun C
  unfolding dump
  map_item s k v =
      let buckets =
        set s.buckets (partition k) (add_value (get_or s.buckets (partition k) []) k v) in
      let s' : MapRun C = record s { buckets = buckets; taken = s.taken + 1 } in
      if over s.taken
      then record s' { buckets = map (λ b. []) buckets; files = dump buckets s.files }
      else s'

  unfoldable pub map_items : MapRun C → List (ℕ × V) → MapRun C
  unfolding map_item
  map_items s [] = s
  map_items s ((k, v) ∷ items) = map_items (map_item s k v) items

  -- `_run`: the files for the reducers
  unfoldable pub run_map_task : ℕ → List (ℕ × V) → List (List (List (ℕ × C)))
  unfolding map_items
  run_map_task n items = let s = map_items (start_map n) items in commit (dump s.buckets s.files)

-- What a task reads, and when its memory limit is passed: after which of its items.
abbrev pub Input : Type 0 → Type 0
Input V = (ℕ → Bool) × List (ℕ × V)

module _ {V C : Type 0} (is_none : C → Bool) (agg : Aggregator V C) (partition : ℕ → ℕ) where
  -- the batches in the files of one reducer, from the tasks over `inputs`
  unfoldable pub fetch_all : ℕ → ℕ → List (Input V) → List (List (ℕ × C))
  unfolding run_map_task
  fetch_all n r [] = []
  fetch_all n r ((over, input) ∷ inputs) =
      get_or (run_map_task is_none agg partition over n input) r [] ++ fetch_all n r inputs

  -- The whole shuffle, for the reducer `r` of `n`. `arrive` is the order in which the batches come:
  -- the files are put in a random order, and the threads that fetch them mix their batches. Each
  -- file is fetched as a whole; what else may happen to a fetch is in Fetch.antt.
  unfoldable pub shuffle :
      (List (List (ℕ × C)) → List (List (ℕ × C)))
      → Bool
      → (ℕ → Bool)
      → ℕ
      → ℕ
      → List (Input V)
      → Result (List (ℕ × C))
  unfolding fetch_all merge_batches merged_items
  shuffle arrive use_disk over_reduce n r inputs = do
    m ←
        merge_batches is_none agg.merge_combiners use_disk over_reduce new_merger
          (arrive (fetch_all n r inputs))
    ok (merged_items agg.merge_combiners m)
