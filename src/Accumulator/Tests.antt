-- ===== src/Accumulator/Tests.antt =====
-- A run of the accumulators of dpark/accumulator.py, and the theorems at it.
use dpark.Common.{ℕ, ◌+◌, ◌≡◌, refl, List, [], ◌∷◌, ok}
use dpark.Accumulator.{Accums, original, merge, clear, values, load_accum, add_copy}
use dpark.Accumulator.Merging.{value_of, total, merge-total, clear-merged}

abbrev before : Accums
before = record { originals = (1, 10) ∷ (2, 0) ∷ []; local_accums = [] }

abbrev updates : List (ℕ × ℕ)
updates = (1, 5) ∷ []

abbrev after_merge : Accums
after_merge = record { originals = (1, 15) ∷ (2, 0) ∷ []; local_accums = (1, original) ∷ [] }

merged : merge updates before ≡ ok after_merge
unfolding merge
merged = refl

-- what a task has added is handed back
handed_back : (values (add_copy 1 0 4 (load_accum 1 before))).1 ≡ (1, 4) ∷ []
unfolding values add_copy load_accum
handed_back = refl

merge-total_example : value_of 1 after_merge ≡ value_of 1 before + total 1 updates
merge-total_example = merge-total updates before after_merge 1 merged

clear-merged_example : value_of 1 (clear after_merge) ≡ 0
clear-merged_example = clear-merged updates before after_merge 1 merged refl
