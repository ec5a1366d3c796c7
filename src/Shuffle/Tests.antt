-- ===== src/Shuffle/Tests.antt =====
-- Runs of the shuffle, and its theorems at them.
use dpark.Common.{
  ok, ◌==◌, ℕ, ◌+◌, ◌%◌, ◌<◌, ◌≡◌, refl, Bool, true, false, List, [], ◌∷◌, lookup, get_or, arith,
  leb,
}
use dpark.Common.Keyed.{combine_all}
use dpark.Dependency.{add_aggregator}
use dpark.Dependency.Aggregate.{KeysRise}
use dpark.Shuffle.{
  DiskHashMerger, heap_merged, new_merger, merge_batches, merged_items, run_map_task, Input,
  shuffle,
}
use dpark.Shuffle.Heads.{select_all}
use dpark.Shuffle.Runs.{heap_merged_lem}
use dpark.Shuffle.Whole.{values_for, run_map_task_lem}

abbrev two_runs : List (List (ℕ × ℕ))
two_runs = ((1, 5) ∷ (4, 6) ∷ []) ∷ ((1, 7) ∷ (2, 8) ∷ []) ∷ []

abbrev adding : ℕ → ℕ → ℕ
adding a b = a + b

merged_runs : heap_merged adding two_runs ≡ (1, 12) ∷ (2, 8) ∷ (4, 6) ∷ []
unfolding heap_merged
merged_runs = refl

heap_merged_lem_example :
    KeysRise (heap_merged adding two_runs)
    × ((k : ℕ)
        → lookup k (heap_merged adding two_runs) ≡ combine_all adding (select_all k two_runs))
heap_merged_lem_example =
    heap_merged_lem adding two_runs ((omega arith, tt), ((omega arith, tt), tt))

-- the limit is passed after each item but the first
abbrev often : ℕ → Bool
often i = leb 1 i

abbrev never_none : ℕ → Bool
never_none c = false

-- what the merger has after the two runs
abbrev full_merger : DiskHashMerger ℕ
full_merger = record {
  combined = [];
  archives = ((1, 5) ∷ (4, 6) ∷ []) ∷ ((1, 7) ∷ []) ∷ ((2, 8) ∷ []) ∷ [];
  rotate_num = 3;
  seen = 4;
}

with_disk : merge_batches never_none adding true often new_merger two_runs ≡ ok full_merger
unfolding merge_batches
with_disk = refl

disk_items : merged_items adding full_merger ≡ (1, 12) ∷ (2, 8) ∷ (4, 6) ∷ []
unfolding merged_items
disk_items = refl

-- a combiner that counts as None is replaced
replaced :
    merge_batches (λ c. c == 5) adding false often new_merger (((1, 5) ∷ (1, 7) ∷ []) ∷ [])
    ≡ ok (record { combined = (1, 7) ∷ []; archives = []; rotate_num = 0; seen = 2 })
unfolding merge_batches
replaced = refl

adding_assoc : (a b c : ℕ) → adding (adding a b) c ≡ adding a (adding b c)
adding_assoc a b c = omega arith

abbrev by_rest : ℕ → ℕ
by_rest k = k % 2

by_rest-lt : (k : ℕ) → by_rest k < 2
by_rest-lt k = omega arith

abbrev items : List (ℕ × ℕ)
items = (3, 1) ∷ (2, 10) ∷ (3, 5) ∷ (5, 7) ∷ []

map_files :
    run_map_task never_none add_aggregator by_rest often 2 items
    ≡ (((2, 10) ∷ []) ∷ []) ∷ (((3, 1) ∷ []) ∷ ((3, 5) ∷ []) ∷ ((5, 7) ∷ []) ∷ []) ∷ []
unfolding run_map_task
map_files = refl

run_map_task_lem_example :
    combine_all adding
      (select_all 3 (get_or (run_map_task never_none add_aggregator by_rest often 2 items) 1 []))
    ≡ values_for add_aggregator by_rest 1 3 items
run_map_task_lem_example =
    run_map_task_lem add_aggregator by_rest never_none (λ c. refl) adding_assoc (λ c v. refl) 2
      by_rest-lt often items 3 1

abbrev inputs : List (Input ℕ)
inputs = (often, items) ∷ ((λ i. false), (5, 2) ∷ (4, 4) ∷ []) ∷ []

-- the first two batches come in the other order
abbrev exchange : List (List (ℕ × ℕ)) → List (List (ℕ × ℕ))
exchange [] = []
exchange (x ∷ []) = x ∷ []
exchange (x ∷ y ∷ bs) = y ∷ x ∷ bs

shuffled :
    shuffle never_none add_aggregator by_rest exchange true often 2 1 inputs
    ≡ ok ((3, 6) ∷ (5, 9) ∷ [])
unfolding shuffle
shuffled = refl
