-- ===== src/Dependency/Tests.antt =====
-- Runs of the partitioners and aggregators of dpark/dependency.py, and the theorems at them.
use dpark.Common.{
  pos, negsuc, none, ℕ, ◌≡◌, refl, true, false, some, List, [], ◌∷◌, ok, arith, lookup,
}
use dpark.Dependency.{
  HashPartitioner, hash_partitioner, hash_partition, range_partitioner, range_partition,
  aggregate_sorted, group_by_aggregator, add_aggregator, uniq_aggregator, get_parents, one_to_range,
  cartesian, range_dep,
}
use dpark.Dependency.Partition.{IsPlaced, hash_partition-lt, IsOrdered, range_partition-IsOrdered}
use dpark.Dependency.Aggregate.{KeysRise, combined, aggregate_sorted_lem}

range_parents : get_parents (one_to_range 3 8) 2 ≡ ok (6 ∷ 7 ∷ [])
unfolding get_parents
range_parents = refl

shifted_parents : get_parents (range_dep 0 5 4) 7 ≡ ok (2 ∷ [])
unfolding get_parents
shifted_parents = refl

product_parents : get_parents (cartesian false 4) 9 ≡ ok (1 ∷ [])
unfolding get_parents
product_parents = refl

abbrev by_thresholds : HashPartitioner
by_thresholds = record { partitions = 3; thresholds = some (negsuc 9 ∷ pos 20 ∷ []) }

built : hash_partitioner 3 (some (negsuc 9 ∷ pos 20 ∷ [])) ≡ ok by_thresholds
unfolding hash_partitioner
built = refl

middle : hash_partition by_thresholds (negsuc 9) ≡ ok 1
unfolding hash_partition
middle = refl

-- -7 % 3 is 2
negative : hash_partition (record { partitions = 3; thresholds = none }) (negsuc 6) ≡ ok 2
unfolding hash_partition
negative = refl

plainly_built : hash_partitioner 3 none ≡ ok (record { partitions = 3; thresholds = none })
unfolding hash_partitioner
plainly_built = refl

hash_partition-lt_example : IsPlaced (record { partitions = 3; thresholds = none }) (negsuc 6)
hash_partition-lt_example =
    hash_partition-lt 3 none (record { partitions = 3; thresholds = none }) (negsuc 6) plainly_built

reversed : range_partition (range_partitioner (7 ∷ 3 ∷ []) true) 5 ≡ ok 1
unfolding range_partition
reversed = refl

range_partition-IsOrdered_example : IsOrdered (range_partitioner (7 ∷ 3 ∷ []) true) 5 9
range_partition-IsOrdered_example = range_partition-IsOrdered (7 ∷ 3 ∷ []) true 5 9 (ground arith)

abbrev some_items : List (ℕ × ℕ)
some_items = (1, 5) ∷ (1, 6) ∷ (3, 7) ∷ []

grouped : aggregate_sorted group_by_aggregator some_items ≡ (1, 5 ∷ 6 ∷ []) ∷ (3, 7 ∷ []) ∷ []
unfolding aggregate_sorted
grouped = refl

different : aggregate_sorted uniq_aggregator ((1, 5) ∷ (1, 5) ∷ []) ≡ (1, 5 ∷ []) ∷ []
unfolding aggregate_sorted
different = refl

aggregate_sorted_lem_example :
    KeysRise (aggregate_sorted add_aggregator some_items)
    × ((k : ℕ)
        → lookup k (aggregate_sorted add_aggregator some_items)
          ≡ combined add_aggregator k some_items)
aggregate_sorted_lem_example =
    aggregate_sorted_lem add_aggregator some_items (ground arith, (ground arith, tt))
