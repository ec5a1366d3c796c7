-- ===== src/Stages/Events.antt =====
-- dpark/schedule.py: the event loop of `runJob`, but for the ends of the result tasks: the end of a
-- map task, a failed fetch, and the resubmission of the failed stages. `snapshot` is what
-- `updateCacheLocs` gets from the cache tracker.
use dpark.Common.{
  ℕ, suc, Bool, List, [], ◌∷◌, ◌++◌, contains, if◌then◌else◌, Result, ok, raise, key_error, ◌>>=◌,
}
use dpark.Common.Dicts.{put}
use dpark.Stages.{
  Program, Outputs, add_output_loc, remove_host, insert, without, all_located, Sched, last_locs,
  get_outputs, get_missing, submit_missing_tasks, submit_each, submit_stage, stage_rdd,
}

-- What happens to the scheduler.
pub data Event : Type 0 where
  map_success : ℕ → ℕ → ℕ → (ℕ → Bool) → Event
  fetch_failed : ℕ → ℕ → ℕ → Event
  resubmit : (ℕ → Bool) → Event

-- `newlyRunnable` and what is left of `waiting`
abbrev pub runnable : (ℕ → List ℕ) → List ℕ → List ℕ
runnable missing [] = []
runnable missing (x ∷ xs) = elim (missing x) [
  | [] ↦ x ∷ runnable missing xs
  | _ ∷ _ ↦ runnable missing xs
]

abbrev pub blocked : (ℕ → List ℕ) → List ℕ → List ℕ
blocked missing [] = []
blocked missing (x ∷ xs) = elim (missing x) [
  | [] ↦ blocked missing xs
  | _ ∷ _ ↦ x ∷ blocked missing xs
]

abbrev pub insert_all : List ℕ → List ℕ → List ℕ
insert_all [] l = l
insert_all (x ∷ xs) l = insert x (insert_all xs l)

-- the variables at the start of a job; the outputs of earlier jobs are there
abbrev pub idle : Outputs → List Bool → (ℕ → Bool) → Sched
idle outputs finished cached = record {
  outputs = outputs;
  finished = finished;
  waiting = [];
  running = [];
  failed = [];
  cached = cached;
  submitted = [];
  map_locs = [];
}

-- a stage goes back from running to waiting
abbrev pub moved : Sched → ℕ → Sched
moved s stage = record s { waiting = insert stage s.waiting; running = without stage s.running }

module _ (p : Program) where
  -- the outputs of a shuffle on a host are lost
  abbrev pub marked : Sched → ℕ → ℕ → Sched
  marked s d host = record s {
    outputs = put d (remove_host (get_outputs p s.outputs d) host) s.outputs;
    failed = insert (suc d) s.failed;
  }

  -- the stages that wait for nothing more are submitted
  abbrev pub release_waiting : Sched → Sched
  release_waiting s =
      let missing = get_missing p s.outputs s.cached in
      let newly = runnable missing s.waiting in
      submit_each (submit_missing_tasks p)
        (record s { waiting = blocked missing s.waiting; running = insert_all newly s.running })
        newly

  -- the branch of a `ShuffleMapTask` of the shuffle `d`
  unfoldable pub map_task_succeeded : Sched → ℕ → ℕ → ℕ → (ℕ → Bool) → Result Sched
  map_task_succeeded s d partition host snapshot =
      let locs = add_output_loc (get_outputs p s.outputs d) partition host in
      let s' : Sched = record s { outputs = put d locs s.outputs } in
      if all_located locs
      then (if contains s.running (suc d)
          then ok (
              release_waiting (record s' {
                running = without (suc d) s.running;
                map_locs = s.map_locs ++ (d, last_locs locs) ∷ [];
                cached = snapshot;
              }))
          else raise key_error)
      else ok s'

  -- a task of `stage` could not fetch the outputs of the shuffle `d` from `host`
  unfoldable pub fetch_has_failed : Sched → ℕ → ℕ → ℕ → Sched
  fetch_has_failed s stage d host =
      marked (if contains s.running stage then moved s stage else s) d host

  -- The depth of the recursion of `submitStage` is bounded by the id of the stage's RDD.
  abbrev pub submit : Sched → ℕ → Sched
  submit s stage = submit_stage p (suc (stage_rdd p stage)) s stage

  -- the failed stages are submitted again
  unfoldable pub resubmit_failed : Sched → (ℕ → Bool) → Sched
  unfolding submit_stage
  resubmit_failed s snapshot =
      let s' = submit_each submit (record s { cached = snapshot }) s.failed in
      record s' { failed = [] }

  -- `runJob` up to its loop: `submitStage(finalStage)`
  unfoldable pub submit_final : Outputs → List Bool → (ℕ → Bool) → Sched
  unfolding submit_stage
  submit_final outputs finished cached = submit (idle outputs finished cached) 0

  unfoldable pub step : Sched → Event → Result Sched
  unfolding map_task_succeeded fetch_has_failed resubmit_failed
  step s (map_success d partition host snapshot) = map_task_succeeded s d partition host snapshot
  step s (fetch_failed stage d host) = ok (fetch_has_failed s stage d host)
  step s (resubmit snapshot) = ok (resubmit_failed s snapshot)

  unfoldable pub steps : Sched → List Event → Result Sched
  unfolding step
  steps s [] = ok s
  steps s (e ∷ es) = do s' ← step s e; steps s' es
