-- ===== src/Stages/Tests.antt =====
-- Runs of the stages of a job, and the theorems at them.
use dpark.Common.{
  ℕ, zero, suc, ◌<◌, ◌≡◌, ◌↔◌, refl, Bool, true, false, List, [], ◌∷◌, contains, get_or, ok, arith,
}
use dpark.Stages.{Program, Dep, narrow, shuffled, Outputs, Sched, get_missing}
use dpark.Stages.Events.{Event, map_success, fetch_failed, resubmit, submit_final, steps}
use dpark.Stages.Missing.{IsProgram, narrow_targets, shuffles, Needs, get_missing_lem}
use dpark.Stages.Live.{IsLive}
use dpark.Stages.Keeping.{steps-IsLive}
use dpark.Stages.Progress.{IsUnderWay, AllLose, steps-IsUnderWay}

-- The final RDD 3 reads the shuffles 0 and 1; the map stage of shuffle 1 reads shuffle 0.
abbrev deps : ℕ → List Dep
deps r =
    get_or ([] ∷ (shuffled 0 ∷ []) ∷ (shuffled 0 ∷ []) ∷ (narrow 2 ∷ shuffled 1 ∷ []) ∷ []) r []

abbrev diamond : Program
diamond = record {
  dependencies = deps;
  partitions = λ r. 1;
  should_cache = λ r. false;
  shuffle_rdd = λ d. d;
  final_rdd = 3;
}

abbrev no_cache : ℕ → Bool
no_cache r = false

first_missing : get_missing diamond [] no_cache 0 ≡ 0 ∷ 1 ∷ []
unfolding get_missing
first_missing = refl

waits : (submit_final diamond [] (false ∷ []) no_cache).waiting ≡ 0 ∷ 2 ∷ []
unfolding submit_final
waits = refl

runs : (submit_final diamond [] (false ∷ []) no_cache).running ≡ 1 ∷ []
unfolding submit_final
runs = refl

diamond-IsProgram : IsProgram diamond
diamond-IsProgram = record { narrow_lower = lower; shuffle_lower = older }
  where
    lower : (r t : ℕ) → contains (narrow_targets (deps r)) t ≡ true → t < r
    lower zero t h = cc h
    lower (suc zero) t h = cc h
    lower (suc (suc zero)) t h = cc h
    lower (suc (suc (suc zero))) t h = ground arith
    lower (suc (suc (suc (suc r)))) t h = cc h

    older : (r d : ℕ) → contains (shuffles (deps r)) d ≡ true → d < r
    older zero d h = cc h
    older (suc zero) d h = ground arith
    older (suc (suc zero)) d h = ground arith
    older (suc (suc (suc zero))) d h = ground arith
    older (suc (suc (suc (suc r)))) d h = cc h

get_missing_lem_example :
    (contains (get_missing diamond [] no_cache 0) 1 ≡ true)
    ↔ Needs diamond [] no_cache diamond-IsProgram 0 1
get_missing_lem_example = get_missing_lem diamond [] no_cache diamond-IsProgram 0 1

-- both shuffles have their outputs, from an earlier job, on host 7
abbrev on_seven : Outputs
on_seven = (0, (7 ∷ []) ∷ []) ∷ (1, (7 ∷ []) ∷ []) ∷ []

-- a task of the final stage cannot fetch the outputs of shuffle 1 from host 7
abbrev host_lost : List Event
host_lost = fetch_failed 0 1 7 ∷ resubmit no_cache ∷ []

abbrev recomputes : Sched
recomputes = record {
  outputs = (0, (7 ∷ []) ∷ []) ∷ (1, [] ∷ []) ∷ [];
  finished = false ∷ [];
  waiting = 0 ∷ [];
  running = 2 ∷ [];
  failed = [];
  cached = no_cache;
  submitted = (0, 0 ∷ []) ∷ (2, 0 ∷ []) ∷ [];
  map_locs = [];
}

after_loss :
    steps diamond (submit_final diamond on_seven (false ∷ []) no_cache) host_lost ≡ ok recomputes
unfolding submit_final steps
after_loss = refl

after_all :
    steps diamond
      (submit_final diamond on_seven (false ∷ []) no_cache)
      (fetch_failed 0 1 7 ∷ resubmit no_cache ∷ map_success 1 0 8 no_cache ∷ [])
    ≡ ok (record recomputes {
      outputs = (0, (7 ∷ []) ∷ []) ∷ (1, (8 ∷ []) ∷ []) ∷ [];
      waiting = [];
      running = 0 ∷ [];
      submitted = (0, 0 ∷ []) ∷ (2, 0 ∷ []) ∷ (0, 0 ∷ []) ∷ [];
      map_locs = (1, 8 ∷ []) ∷ [];
    })
unfolding submit_final steps
after_all = refl

steps-IsLive_example : IsLive diamond recomputes
steps-IsLive_example =
    steps-IsLive diamond diamond-IsProgram host_lost on_seven (false ∷ []) no_cache recomputes
      (tt, (refl, tt)) after_loss

loses :
    AllLose diamond diamond-IsProgram
      (submit_final diamond on_seven (false ∷ []) no_cache)
      host_lost
unfolding submit_final get_missing
loses = ((λ r. refl), λ s e. (tt, λ s' e'. tt))

steps-IsUnderWay_example : IsUnderWay recomputes
steps-IsUnderWay_example =
    steps-IsUnderWay diamond diamond-IsProgram host_lost on_seven (false ∷ []) no_cache recomputes 0
      (tt, (refl, tt)) loses after_loss refl

-- The outputs that a late failure names are not there any more: the final stage waits for nothing,
-- and the map stage runs without a task.
stale_failure :
    steps diamond
      (submit_final diamond on_seven (false ∷ []) no_cache)
      (fetch_failed 0 1 9 ∷ resubmit no_cache ∷ [])
    ≡ ok (record recomputes { outputs = on_seven; submitted = (0, 0 ∷ []) ∷ (2, []) ∷ [] })
unfolding submit_final steps
stale_failure = refl
