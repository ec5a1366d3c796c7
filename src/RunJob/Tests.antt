-- ===== src/RunJob/Tests.antt =====
-- A run of the results of dpark/schedule.py's `runJob`, and the theorem at it.
use dpark.Common.{
  ℕ, zero, suc, ◌+◌, ◌<◌, ◌≡◌, refl, true, Option, some, none, List, [], ◌∷◌, ok, arith, contains,
  length,
}
use dpark.RunJob.{Job, start_job, complete_all}
use dpark.RunJob.Termination.{AreDistinct, IsServed, complete_all-IsServed}

abbrev two_parts : List ℕ
two_parts = 5 ∷ 6 ∷ []

abbrev ends : List ℕ
ends = 1 ∷ 0 ∷ []

abbrev answer : ℕ → ℕ
answer o = o + 40

two_parts-AreDistinct : AreDistinct two_parts
two_parts-AreDistinct zero zero p g h = refl
two_parts-AreDistinct zero (suc zero) p g h = ground arith
two_parts-AreDistinct zero (suc (suc j)) p g h = cc
two_parts-AreDistinct (suc zero) zero p g h = ground arith
two_parts-AreDistinct (suc zero) (suc zero) p g h = refl
two_parts-AreDistinct (suc zero) (suc (suc j)) p g h = cc
two_parts-AreDistinct (suc (suc i)) j p g h = cc

ends-inside : (o : ℕ) → contains ends o ≡ true → o < length two_parts
ends-inside o h = ground arith

abbrev after_ends : Job ℕ
after_ends = record {
  output_parts = two_parts;
  results = none ∷ none ∷ [];
  finished = true ∷ true ∷ [];
  last_finished = 2;
  num_finished = 2;
  pending_tasks = [];
}

-- the second output ends first, and is yielded last
served :
    complete_all (start_job two_parts) ((1, 41) ∷ (0, 40) ∷ [])
    ≡ ok (after_ends, some 40 ∷ some 41 ∷ [])
unfolding complete_all start_job
served = refl

complete_all-IsServed_example :
    (job : Job ℕ) × (out : List (Option ℕ)) × IsServed answer two_parts ends job out
complete_all-IsServed_example =
    complete_all-IsServed answer two_parts ends two_parts-AreDistinct (refl, (refl, tt)) ends-inside
