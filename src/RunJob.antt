-- ===== src/RunJob.antt =====
-- dpark/schedule.py: how `runJob` hands out the results of the tasks of its final stage. The tasks
-- end in any order; the results are yielded in the order of the outputs. The task of an output is
-- named by its partition.
pub mod Pending
pub mod Delivery
pub mod Yielding
pub mod Termination
mod Tests
use dpark.Common.{
  ℕ, zero, suc, ◌+◌, ◌-◌, Bool, true, false, Option, none, some, List, [], ◌∷◌, ◌++◌, length,
  get_elem?, get_or, set, replicate, contains, ◌==◌, if◌then◌else◌, Result, ok, raise, key_error,
  index_error, or_raise, ◌>>=◌,
}

-- The variables of `runJob` that the results go through.
pub record Job (R : Type 0) : Type 0 where
  pub output_parts : List ℕ
  pub results : List (Option R)
  pub finished : List Bool
  pub last_finished : ℕ
  pub num_finished : ℕ
  pub pending_tasks : List ℕ

-- `myPending |= set(t.id for t in tasks)`
abbrev pub add_all : List ℕ → List ℕ → List ℕ
add_all s [] = s
add_all s (x ∷ xs) = add_all (if contains s x then s else x ∷ s) xs

-- `pendingTasks[stage].remove(task.id)`: the set has a member once
unfoldable pub remove : ℕ → List ℕ → Result (List ℕ)
remove x [] = raise key_error
remove x (y ∷ ys) =
    let rest = remove x ys in
    if y == x then ok ys else elim rest [ ok ys' ↦ ok (y ∷ ys') | raise e ↦ raise e ]

module _ {R : Type 0} where
  -- the start of `runJob`, once the tasks of the final stage are submitted
  unfoldable pub start_job : List ℕ → Job R
  start_job parts = record {
    output_parts = parts;
    results = replicate (length parts) none;
    finished = replicate (length parts) false;
    last_finished = 0;
    num_finished = 0;
    pending_tasks = add_all [] parts;
  }

  -- the loop that yields the results that are due, over the `k` outputs from `last`: the results
  -- that are left, the new `last_finished`, what is yielded
  unfoldable pub deliver :
      ℕ → ℕ → List Bool → List (Option R) → List (Option R) × ℕ × List (Option R)
  deliver zero last finished results = (results, last, [])
  deliver (suc k) last finished results =
      let rest = deliver k (last + 1) finished (set results last none) in
      if get_or finished last false
      then (rest.0, rest.1, get_or results last none ∷ rest.2)
      else (results, last, [])

  -- what `deliver` leaves of a job
  abbrev pub delivered : Job R → List Bool → List (Option R) × ℕ × List (Option R) → List ℕ → Job R
  delivered job finished d pending = record job {
    results = d.0;
    finished = finished;
    last_finished = d.1;
    num_finished = job.num_finished + 1;
    pending_tasks = pending;
  }

  -- one successful event of a result task, for the output `o`
  unfoldable pub complete : Job R → ℕ → R → Result (Job R × List (Option R))
  unfolding remove deliver
  complete job o value = do
    part ← or_raise (get_elem? job.output_parts o) index_error
    pending ← remove part job.pending_tasks
    let finished = set job.finished o true
    let results = set job.results o (some value)
    let d = deliver (length job.output_parts - job.last_finished) job.last_finished finished results
    ok (delivered job finished d pending, d.2)

  -- the loop over the events: what is yielded, in its order
  unfoldable pub complete_all : Job R → List (ℕ × R) → Result (Job R × List (Option R))
  unfolding complete
  complete_all job [] = ok (job, [])
  complete_all job ((o, value) ∷ events) = do
    (job', out) ← complete job o value
    (job'', out') ← complete_all job' events
    ok (job'', out ++ out')
