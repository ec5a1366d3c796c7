-- ===== src/Splits.antt =====
-- dpark/rdd.py: how the splits of an RDD are made of a list of data (`ParallelCollection.slice`,
-- for a list) or of the splits of other RDDs (`UnionRDD`, `MergedRDD`, `SliceRDD`), with the
-- dependencies that say from which splits each is computed.
pub mod Slices
pub mod Groups
mod Tests
use dpark.Common.{
  ℕ, zero, suc, ◌+◌, ◌-◌, ◌*◌, ◌/◌, ◌%◌, Bool, true, false, Option, none, some, List, [], ◌∷◌, ◌++◌,
  length, take, drop, ltb, ◌==◌, if◌then◌else◌, Result, ok, raise, value_error, zero_division,
  ◌>>=◌,
}
use dpark.Dependency.{Narrow, one_to_range, range_dep}

-- the length of a slice: a quotient, rounded up
abbrev pub slice_size : ℕ → ℕ → ℕ
slice_size m k = if m % k == 0 then m / k else m / k + 1

module _ {A : Type 0} where
  -- `l[a:b]`
  abbrev pub slice : List A → ℕ → ℕ → List A
  slice l a b = take (b - a) (drop a l)

  -- `[l[i * n: i * n + n] for i in range(k)]`, from `i`
  abbrev pub slices_from : List A → ℕ → ℕ → ℕ → List (List A)
  slices_from l n i zero = []
  slices_from l n i (suc k) = slice l (i * n) (i * n + n) ∷ slices_from l n (i + 1) k

  -- `ParallelCollection.slice` of a list
  unfoldable pub slice_data : List A → ℕ → Result (List (List A))
  slice_data values num =
      if num == 0
      then raise value_error
      else (if length values == 0
          then ok ([] ∷ [])
          else ok (slices_from values (slice_size (length values) num) 0 num))

-- `MergedRDD`: the splits of another RDD in groups
pub record MergedRdd (A : Type 0) : Type 0 where
  pub split_size : ℕ
  pub num_splits : ℕ
  pub splits : List (List A)
  pub dependency : Narrow

module _ {A : Type 0} where
  unfoldable pub merge_by : List A → ℕ → Result (MergedRdd A)
  merge_by splits size =
      if size == 0
      then raise zero_division
      else (let num = (length splits + size - 1) / size in
          ok (record {
            split_size = size;
            num_splits = num;
            splits = slices_from splits size 0 num;
            dependency = one_to_range size (length splits);
          }))

  -- `MergedRDD.__init__`, with `splitSize` or else `numSplits`
  unfoldable pub merged_rdd : List A → Option ℕ → ℕ → Result (MergedRdd A)
  unfolding merge_by
  merged_rdd splits (some size) num = merge_by splits size
  merged_rdd splits none num =
      if num == 0 then raise zero_division else merge_by splits ((length splits + num - 1) / num)

-- `UnionRDD` over RDDs of the given lengths. A split has its index, the number of its RDD, and the
-- number of the split there.
pub record UnionSplit : Type 0 where
  pub index : ℕ
  pub rdd : ℕ
  pub split : ℕ

abbrev pub union_splits : ℕ → ℕ → ℕ → ℕ → List UnionSplit
union_splits pos r i zero = []
union_splits pos r i (suc k) =
    record { index = pos + i; rdd = r; split = i } ∷ union_splits pos r (i + 1) k

-- the loop of `UnionRDD.__init__`, at the RDD `r` and the position `pos`
unfoldable pub union_from : ℕ → ℕ → List ℕ → List UnionSplit × List Narrow
union_from pos r [] = ([], [])
union_from pos r (len ∷ lens) =
    let rest = union_from (pos + len) (r + 1) lens in
    (union_splits pos r 0 len ++ rest.0, range_dep 0 pos len ∷ rest.1)

unfoldable pub union_rdd : List ℕ → List UnionSplit × List Narrow
unfolding union_from
union_rdd lens = union_from 0 0 lens

-- `SliceRDD.__init__`: the splits from `i` to `j`, and their dependency
unfoldable pub slice_rdd : {A : Type 0} → List A → ℕ → ℕ → List A × Narrow
slice_rdd splits i j =
    let j' = if ltb (length splits) j then length splits else j in
    (slice splits i j', range_dep i 0 (j' - i))
