-- ===== src/Splits/Tests.antt =====
-- Runs of the splits of dpark/rdd.py, and the theorems at them.
use dpark.Common.{ℕ, ◌≡◌, refl, false, none, List, [], ◌∷◌, ok, length, ◌==◌}
use dpark.Dependency.{one_to_range, range_dep}
use dpark.Splits.{slice_data, merged_rdd, MergedRdd, union_rdd, slice_rdd}
use dpark.Splits.Slices.{concat, slice_data_lem}
use dpark.Splits.Groups.{IsMerged, merged_rdd-IsMerged}

abbrev five : List ℕ
five = 10 ∷ 11 ∷ 12 ∷ 13 ∷ 14 ∷ []

abbrev in_four : List (List ℕ)
in_four = (10 ∷ 11 ∷ []) ∷ (12 ∷ 13 ∷ []) ∷ (14 ∷ []) ∷ [] ∷ []

sliced : slice_data five 4 ≡ ok in_four
unfolding slice_data
sliced = refl

slice_data_lem_example : (concat in_four ≡ five) × ((length five == 0) ≡ false → length in_four ≡ 4)
slice_data_lem_example = slice_data_lem five 4 in_four sliced

abbrev in_threes : MergedRdd ℕ
in_threes = record {
  split_size = 3;
  num_splits = 2;
  splits = (10 ∷ 11 ∷ 12 ∷ []) ∷ (13 ∷ 14 ∷ []) ∷ [];
  dependency = one_to_range 3 5;
}

merged : merged_rdd five none 2 ≡ ok in_threes
unfolding merged_rdd
merged = refl

merged_rdd-IsMerged_example : IsMerged five in_threes
merged_rdd-IsMerged_example = merged_rdd-IsMerged five none 2 in_threes merged

joined : union_rdd (1 ∷ 2 ∷ []) ≡ (
  record { index = 0; rdd = 0; split = 0 }
      ∷ record { index = 1; rdd = 1; split = 0 }
      ∷ record { index = 2; rdd = 1; split = 1 }
      ∷ [],
  range_dep 0 0 1 ∷ range_dep 0 1 2 ∷ [],
)
unfolding union_rdd
joined = refl

cut : slice_rdd five 1 9 ≡ (11 ∷ 12 ∷ 13 ∷ 14 ∷ [], range_dep 1 0 4)
unfolding slice_rdd
cut = refl
