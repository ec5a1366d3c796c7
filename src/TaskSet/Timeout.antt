-- ===== src/TaskSet/Timeout.antt =====
-- dpark/taskset.py: `check_task_timeout`, which takes tasks for not launched that are staged or
-- running for too long. The float tests `finished > n * 0.8` and `time_used > max_task_time *
-- 4 ** num_try * (n / finished)` are written with the divisor on the other side.
use dpark.Common.{
  ℕ, zero, suc, ◌+◌, ◌-◌, ◌*◌, ◌^◌, Bool, true, false, not, ◌&&◌, ◌||◌, Option, some, List, [], ◌∷◌,
  ℤ, pos, negsuc, dec, get_elem?, set, count_true, leb, ltb, ◌==◌, if◌then◌else◌, Result, ok,
  index_error, or_raise, ◌>>=◌,
}
use dpark.Task.{TaskState, TaskReason, Task}
use dpark.TaskSet.{Env, TaskSet, task_timeout}
use dpark.TaskSet.Status.{abort_set, is_count, max_task_failures}

abbrev pub wait_for_running : ℕ
wait_for_running = 30

abbrev pub is_staging : Option TaskState → Bool
is_staging (some TaskState.staging) = true
is_staging _ = false

abbrev pub is_running : Option TaskState → Bool
is_running (some TaskState.running) = true
is_running _ = false

-- `sorted` of pairs of a start time and a place
unfoldable pub insert_pair : ℕ × ℕ → List (ℕ × ℕ) → List (ℕ × ℕ)
insert_pair p [] = p ∷ []
insert_pair p (q ∷ qs) =
    let rest = insert_pair p qs in
    if ltb q.0 p.0 || (q.0 == p.0 && ltb q.1 p.1) then q ∷ rest else p ∷ q ∷ qs

-- the tasks that run, by their start times: those that are launched, not finished, running
unfoldable pub running_tasks : ℕ → List Bool → List Bool → List Task → List (ℕ × ℕ)
unfolding insert_pair
running_tasks i (l ∷ ls) (f ∷ fs) (t ∷ ts) =
    let rest = running_tasks (i + 1) ls fs ts in
    if l && not f && is_running t.status then insert_pair (t.start_time, i) rest else rest
running_tasks i _ _ _ = []

module _ (env : Env) (now : ℕ) where
  -- a task that is staged but does not run is handed out again
  unfoldable pub release_staged : TaskSet env → ℕ → Task → TaskSet env
  release_staged s i t = record s {
    counter = record s.counter {
      fail_staging_timeout = s.counter.fail_staging_timeout + 1;
      launched = dec s.counter.launched;
    };
    tasks = set s.tasks i (record t { reason_next = TaskReason.stage_timeout });
    launched = set s.launched i false;
  }

  abbrev pub is_staged_late : TaskSet env → Task → Bool → Bool
  is_staged_late s t launched =
      launched
      && is_staging t.status
      && ltb (t.stage_time + s.max_stage_time + wait_for_running) now

  -- the first loop, over `k` places from `i`; it ends after the fourth released task
  unfoldable pub check_staged : TaskSet env → ℕ → ℕ → ℕ → Result (TaskSet env)
  unfolding release_staged
  check_staged s zero i released = ok s
  check_staged s (suc k) i released = do
    t ← or_raise (get_elem? s.tasks i) index_error
    launched ← or_raise (get_elem? s.launched i) index_error
    let late = is_staged_late s t launched
    let s' = release_staged s i t
    let next = check_staged s k (i + 1) released
    let next' = check_staged s' k (i + 1) (released + 1)
    if late then (if ltb 3 (released + 1) then ok s' else next') else next

  -- a task that runs for too long: handed out again, or after too many tries the set is aborted
  unfoldable pub release_running : TaskSet env → ℕ → Task → ℕ → TaskSet env
  unfolding abort_set
  release_running s i t used =
      let s' : TaskSet env = record s {
        counter = record s.counter { fail_run_timeout = s.counter.fail_run_timeout + 1 };
      } in
      if leb t.num_try max_task_failures
      then record s' {
        tasks = set s'.tasks i (record t {
          time_used = t.time_used + used;
          stage_time = 0;
          start_time = 0;
          reason_next = TaskReason.run_timeout;
        });
        launched = set s'.launched i false;
        counter = record s'.counter { launched = dec s'.counter.launched };
      }
      else abort_set env s' (task_timeout t.id)

  -- the second loop; it ends at the first task that is not late, or after the fourth that is
  unfoldable pub check_running : TaskSet env → ℕ → List (ℕ × ℕ) → ℕ → Result (TaskSet env)
  unfolding release_running
  check_running s finished [] released = ok s
  check_running s finished ((start, i) ∷ rest) released = do
    t ← or_raise (get_elem? s.tasks i) index_error
    let used = now - t.start_time
    let late = ltb (s.max_task_time * 4 ^ t.num_try * s.counter.n) (used * finished)
    let s' = release_running s i t used
    let next = check_running s' finished rest (released + 1)
    if late then (if ltb 3 (released + 1) then ok s' else next) else ok s

  -- `if self.counter.finished > self.counter.n * 0.8`
  unfoldable pub check_running_late : TaskSet env → ℤ → Result (TaskSet env)
  unfolding check_running running_tasks
  check_running_late s (pos k) =
      let late = check_running s k (running_tasks 0 s.launched s.finished s.tasks) 0 in
      if ltb (4 * s.counter.n) (5 * k) then late else ok s
  check_running_late s (negsuc k) = ok s

  -- the counter is set right if it is not the number of set flags
  abbrev pub recount : TaskSet env → TaskSet env
  recount s =
      if is_count s.counter.launched (count_true s.launched)
      then s
      else record s { counter = record s.counter { launched = pos (count_true s.launched) } }

  abbrev pub is_below : ℤ → ℕ → Bool
  is_below (pos k) n = ltb k n
  is_below (negsuc k) n = true

  -- `check_task_timeout`: the answer tells whether a task was taken for not launched
  unfoldable pub check_task_timeout : TaskSet env → Result (TaskSet env × Bool)
  unfolding check_staged check_running_late
  check_task_timeout s =
      let s₁ : TaskSet env = recount (record s { last_check = now }) in
      if ltb now (s.last_check + 5) then ok (s, false) else (do
        s₂ ← check_staged s₁ s.counter.n 0 0
        s₃ ← check_running_late s₂ s₂.counter.finished
        ok (s₃, is_below s₃.counter.launched (count_true s.launched)))
