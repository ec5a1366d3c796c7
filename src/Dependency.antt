-- ===== src/Dependency.antt =====
-- dpark/dependency.py: from which splits of its parents a split is computed (the narrow
-- dependencies), what a shuffle does with the values of a key (the aggregators, but that which
-- keeps the smallest), and to which partition a key goes (the partitioners).
pub mod Bisect
pub mod Partition
pub mod Aggregate
mod Tests
use dpark.Common.{
  ℤ, int_ltb, int_mod, ℕ, zero, suc, ◌+◌, ◌-◌, ◌*◌, ◌/◌, ◌%◌, Bool, true, false, not, ◌&&◌, ◌||◌,
  Option, none, some, List, [], ◌∷◌, ◌++◌, min, max, length, contains, leb, ltb, ◌==◌,
  if◌then◌else◌, Result, ok, raise, zero_division, assertion_error, index_error, or_raise,
  get_elem?, ◌>>=◌,
}

-- `list(range(a, b))`: `count` numbers from `a`
abbrev pub count_from : ℕ → ℕ → List ℕ
count_from a zero = []
count_from a (suc n) = a ∷ count_from (a + 1) n

abbrev pub range : ℕ → ℕ → List ℕ
range a b = count_from a (b - a)

-- The narrow dependencies with their fields, and `getParents` of each. A Cartesian dependency is
-- that of Python 2, where `/` is the integer quotient.
pub data Narrow : Type 0 where
  one_to_one : Narrow
  one_to_range : ℕ → ℕ → Narrow
  cartesian : Bool → ℕ → Narrow
  range_dep : ℕ → ℕ → ℕ → Narrow

unfoldable pub get_parents : Narrow → ℕ → Result (List ℕ)
get_parents one_to_one pid = ok (pid ∷ [])
get_parents (one_to_range size len) pid = ok (range (pid * size) (min ((pid + 1) * size) len))
get_parents (cartesian first n) pid =
    if n == 0
    then raise zero_division
    else (if first then ok ((pid / n) ∷ []) else ok ((pid % n) ∷ []))
get_parents (range_dep in_start out_start len) pid =
    if leb out_start pid && ltb pid (out_start + len)
    then ok ((pid - out_start + in_start) ∷ [])
    else ok []

-- The operations of an aggregator.
pub record Aggregator (V C : Type 0) : Type 0 where
  pub create_combiner : V → C
  pub merge_value : C → V → C
  pub merge_combiners : C → C → C

-- `GroupByAggregator` and `MergeAggregator`
abbrev pub group_by_aggregator : {V : Type 0} → Aggregator V (List V)
group_by_aggregator = record {
  create_combiner = λ x. x ∷ [];
  merge_value = λ c x. c ++ x ∷ [];
  merge_combiners = λ x y. x ++ y;
}

-- `AddAggregator`, over numbers
abbrev pub add_aggregator : Aggregator ℕ ℕ
add_aggregator = record {
  create_combiner = λ x. x;
  merge_value = λ s x. s + x;
  merge_combiners = λ x y. x + y;
}

-- `UniqAggregator`, with a set of numbers as the list of its members
abbrev pub add_member : List ℕ → ℕ → List ℕ
add_member s x = if contains s x then s else s ++ x ∷ []

abbrev pub add_members : List ℕ → List ℕ → List ℕ
add_members s [] = s
add_members s (x ∷ xs) = add_members (add_member s x) xs

abbrev pub uniq_aggregator : Aggregator ℕ (List ℕ)
uniq_aggregator = record {
  create_combiner = λ x. x ∷ [];
  merge_value = add_member;
  merge_combiners = add_members;
}

module _ {V C : Type 0} (agg : Aggregator V C) where
  -- the loop of `aggregate_sorted` after the first item, with `curr_key` and `curr_value`
  unfoldable pub aggregate_from : ℕ → C → List (ℕ × V) → List (ℕ × C)
  aggregate_from key c [] = (key, c) ∷ []
  aggregate_from key c ((k, v) ∷ items) =
      let start = aggregate_from k (agg.create_combiner v) items in
      let continue = aggregate_from key (agg.merge_value c v) items in
      if k == key then continue else (key, c) ∷ start

  -- `aggregate_sorted`: the pairs that the generator yields
  unfoldable pub aggregate_sorted : List (ℕ × V) → List (ℕ × C)
  unfolding aggregate_from
  aggregate_sorted [] = []
  aggregate_sorted ((k, v) ∷ items) = aggregate_from k (agg.create_combiner v) items

-- `bisect.bisect(a, x)` of Python's library, its search by halves; each step makes `hi - lo`
-- smaller, so the length of the list is enough fuel
unfoldable pub bisect_range : {A : Type 0} → (A → A → Bool) → ℕ → List A → A → ℕ → ℕ → Result ℕ
bisect_range lt zero a x lo hi = if ltb lo hi then raise assertion_error else ok lo
bisect_range lt (suc fuel) a x lo hi =
    let mid = (lo + hi) / 2 in
    let below = bisect_range lt fuel a x lo mid in
    let above = bisect_range lt fuel a x (mid + 1) hi in
    if ltb lo hi
    then (or_raise (get_elem? a mid) index_error >>= λ e. if lt x e then below else above)
    else ok lo

unfoldable pub bisect_by : {A : Type 0} → (A → A → Bool) → List A → A → Result ℕ
unfolding bisect_range
bisect_by lt a x = bisect_range lt (length a) a x 0 (length a)

-- the search among keys
unfoldable pub bisect : List ℕ → ℕ → Result ℕ
unfolding bisect_by
bisect a x = bisect_by ltb a x

-- `HashPartitioner`; the hash, which may be negative, is the argument of `get_partition`
pub record HashPartitioner : Type 0 where
  pub partitions : ℕ
  pub thresholds : Option (List ℤ)

-- `HashPartitioner.__init__`, with its assertions
unfoldable pub hash_partitioner : ℕ → Option (List ℤ) → Result HashPartitioner
hash_partitioner n none = ok (record { partitions = max 1 n; thresholds = none })
hash_partitioner n (some ts) =
    if length ts == max 1 n - 1
    then ok (record { partitions = max 1 n; thresholds = some ts })
    else raise assertion_error

-- `HashPartitioner.getPartition`, of a key with the hash `h`
unfoldable pub hash_partition : HashPartitioner → ℤ → Result ℕ
unfolding bisect_by
hash_partition p h = elim p.thresholds [
  | none ↦ ok (int_mod h p.partitions)
  | some ts ↦ bisect_by int_ltb ts h
]

-- `sorted(keys)`
abbrev pub insert_key : ℕ → List ℕ → List ℕ
insert_key k [] = k ∷ []
insert_key k (x ∷ xs) = if leb k x then k ∷ x ∷ xs else x ∷ insert_key k xs

abbrev pub sort_keys : List ℕ → List ℕ
sort_keys [] = []
sort_keys (k ∷ ks) = insert_key k (sort_keys ks)

-- `RangePartitioner`
pub record RangePartitioner : Type 0 where
  pub keys : List ℕ
  pub reverse : Bool

abbrev pub range_partitioner : List ℕ → Bool → RangePartitioner
range_partitioner keys reverse = record { keys = sort_keys keys; reverse = reverse }

abbrev pub num_partitions : RangePartitioner → ℕ
num_partitions p = length p.keys + 1

-- `RangePartitioner.getPartition`
unfoldable pub range_partition : RangePartitioner → ℕ → Result ℕ
unfolding bisect
range_partition p key = do
  idx ← bisect p.keys key
  ok (if p.reverse then length p.keys - idx else idx)
