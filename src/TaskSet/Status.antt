-- ===== src/TaskSet/Status.antt =====
-- dpark/taskset.py: what a task set does with the status of a task (`statusUpdate`,
-- `_task_finished`, `_task_lost`, `_abort`). An exception leaves the handler; the state that it
-- leaves behind is not modelled (only the status of the task had been written). An exception that
-- a task failed with is part of its payload.
use dpark.Common.{
  ℕ, zero, suc, ◌+◌, ◌-◌, ◌*◌, ◌^◌, Bool, true, false, ◌&&◌, Option, none, some, List, [], ◌∷◌,
  ◌++◌, ℤ, pos, negsuc, inc, dec, get_elem?, set, lookup, leb, ltb, ◌==◌, if◌then◌else◌, min, max,
  Result, ok, raise, index_error, attribute_error, or_raise, ◌>>=◌,
}
use dpark.Task.{
  TaskId, Host, TaskState, TaskEndReason, TaskEndReason-discrete, TaskReason, Task, maybe_oom,
  append_try,
}
use dpark.TaskSet.{
  Env, TaskSet, TaskCounter, SchedCall, task_ended, kill_task, taskset_finished,
  request_more_resources, abort, Cause, without_retry, too_many_failures,
}

abbrev pub max_task_failures : ℕ
max_task_failures = 4

-- 20 GB, in MB
abbrev pub max_task_memory : ℕ
max_task_memory = 20 * 2 ^ 10

-- `==` of a counter that may be negative and a length
abbrev pub is_count : ℤ → ℕ → Bool
is_count (pos k) n = k == n
is_count (negsuc k) n = false

abbrev pub retry_host : TaskId → ℕ → List ((TaskId × ℕ) × Host) → Option Host
retry_host id k [] = none
retry_host id k ((key, h) ∷ m) = if key.0 == id && key.1 == k then some h else retry_host id k m

-- `t.mem = max(mem90, t.mem)` for every task that is not launched
unfoldable pub raise_memory : ℕ → List Bool → List Task → List Task
raise_memory m (l ∷ ls) (t ∷ ts) =
    let rest = raise_memory m ls ts in (if l then t else record t { mem = max m t.mem }) ∷ rest
raise_memory m ls ts = ts

-- The loop that cancels a set: every task that is not launched counts as launched and finished.
unfoldable pub cancel_unlaunched :
    List Bool → List Bool → TaskCounter → Result (List Bool × List Bool × TaskCounter)
cancel_unlaunched ls [] c = ok (ls, [], c)
cancel_unlaunched [] (f ∷ fs) c = raise index_error
cancel_unlaunched (l ∷ ls) (f ∷ fs) c = do
  (ls', fs', c') ←
      cancel_unlaunched ls fs
        (if l then c else record c { launched = inc c.launched; finished = inc c.finished })
  ok (true ∷ ls', (if l then f else true) ∷ fs', c')

-- `killTask` of every try of a finished task but the one that finished
unfoldable pub kill_others : {P : Type 0} → TaskId → ℕ → ℕ → ℕ → List (SchedCall P)
kill_others id zero k num_try = []
kill_others id (suc n) k num_try =
    if k + 1 == num_try
    then kill_others id n (k + 1) num_try
    else kill_task id (k + 1) ∷ kill_others id n (k + 1) num_try

is_known : Option TaskEndReason → List (Option TaskEndReason) → Bool
is_known r [] = false
is_known none (none ∷ rs) = true
is_known none (some _ ∷ rs) = is_known none rs
is_known (some r) (none ∷ rs) = is_known (some r) rs
is_known (some r) (some q ∷ rs) = elim (TaskEndReason-discrete r q) [
  | yes _ ↦ true
  | no _ ↦ is_known (some r) rs
]

-- `self.reasons.add(reason)`
abbrev pub add_reason :
    Option TaskEndReason → List (Option TaskEndReason) → List (Option TaskEndReason)
unfolding is_known
add_reason r rs = if is_known r rs then rs else r ∷ rs

module _ (env : Env) where
  -- `self.id_retry_host[(task.id, num_try)]` if it is there, else `task.host`
  abbrev pub host_of : TaskSet env → Task → ℕ → Result Host
  host_of s t k = elim (retry_host t.id k s.id_retry_host) [
    | some h ↦ ok h
    | none ↦ or_raise t.host attribute_error
  ]

  -- `_abort`
  unfoldable pub abort_set : TaskSet env → Cause → TaskSet env
  abort_set s cause = record s {
    failed = true;
    cause_of_failure = some cause;
    calls = s.calls ++ (taskset_finished ∷ abort ∷ []);
  }

  -- `tasksetFinished`, once every task is finished
  abbrev pub notify_finished : TaskSet env → TaskSet env
  notify_finished s =
      if is_count s.counter.finished s.counter.n
      then record s { calls = s.calls ++ taskset_finished ∷ [] }
      else s

  -- `_task_finished`, for the task `t` at place `i`
  unfoldable pub task_finished : ℕ → TaskSet env → ℕ → Task → ℕ → env.Payload → Result (TaskSet env)
  unfolding kill_others
  task_finished now s i t num_try payload = do
    hostname ← host_of s t num_try
    manager ← env.task_succeed s.manager t.id hostname
    let used = t.time_used + (now - t.start_time)
    ok (
        notify_finished (record s {
          finished = set s.finished i true;
          counter = record s.counter { finished = inc s.counter.finished };
          tasks = set s.tasks i (record t { time_used = used });
          total_time_used = s.total_time_used + used;
          max_task_time = max s.max_task_time used;
          running_hosts = set s.running_hosts i [];
          manager = manager;
          calls =
              s.calls
              ++ (task_ended t.id TaskEndReason.success payload
                  ∷ kill_others t.id t.num_try 0 num_try);
        }))

  -- the branch of `_task_lost` for a fetch that failed twice
  abbrev pub cancelled :
      TaskSet env → Task → env.Payload → List Bool → List Bool → TaskCounter → TaskSet env
  cancelled s t payload launched finished counter = notify_finished (record s {
    launched = launched;
    finished = finished;
    counter = counter;
    calls = s.calls ++ task_ended t.id TaskEndReason.fetch_failed payload ∷ [];
  })

  unfoldable pub cancel_after_fetch : TaskSet env → ℕ → Task → env.Payload → Result (TaskSet env)
  unfolding cancel_unlaunched
  cancel_after_fetch s i t payload = do
    done ← or_raise (get_elem? s.finished i) index_error
    let c = record s.counter { fail_fetch = s.counter.fail_fetch + 1 }
    (launched, finished, counter) ←
        cancel_unlaunched s.launched (set s.finished i true)
          (if done then c else record c { finished = inc c.finished })
    ok (cancelled s t payload launched finished counter)

  -- more memory for the task, and for those not launched if the 0.9 quantile has grown
  unfoldable pub enlarge_memory : TaskSet env → ℕ → Task → TaskSet env
  unfolding raise_memory
  enlarge_memory s i t =
      let tasks = set s.tasks i (record t { mem = min (t.mem * 2) max_task_memory }) in
      let s' : TaskSet env = record s {
        tasks = tasks;
        counter = record s.counter { fail_oom = s.counter.fail_oom + 1 };
      } in
      elim (env.quantile90 s.mem_digest) [
        | none ↦ s'
        | some m ↦
            if ltb s.mem90 m
            then record s' { mem90 = m; tasks = raise_memory m s.launched tasks }
            else s'
      ]

  -- what a loss for another reason than memory is taken for
  unfoldable pub note_reason : TaskSet env → TaskState → Option TaskEndReason → TaskSet env
  unfolding abort_set
  note_reason s TaskState.failed (some (TaskEndReason.fatal_exception k)) =
      let r = TaskEndReason.fatal_exception k in
      record (abort_set s (without_retry r)) { reasons = add_reason (some r) s.reasons }
  note_reason s TaskState.failed reason = record s { reasons = add_reason reason s.reasons }
  note_reason s _ reason = s

  -- the end of `_task_lost`, for the task `t` at place `i`: the failure is counted, and the task
  -- may be launched again
  unfoldable pub release_as : TaskSet env → ℕ → Task → Host → Bool → ℕ → TaskSet env
  unfolding abort_set
  release_as s i t hostname give_up failures =
      let s₁ : TaskSet env = record s {
        counter = record s.counter { fail_all = s.counter.fail_all + 1 };
        num_failures = set s.num_failures i (failures + 1);
      } in
      let s₂ : TaskSet env = if give_up then abort_set s₁ (too_many_failures t.id) else s₁ in
      record s₂ {
        tasks = set s₂.tasks i (record t { reason_next = TaskReason.fail });
        manager = env.task_failed s₂.manager t.id hostname;
        launched = set s₂.launched i false;
        calls =
            if is_count s₂.counter.launched s₂.counter.n
            then s₂.calls ++ request_more_resources ∷ []
            else s₂.calls;
        running_hosts = set s₂.running_hosts i [];
        counter = record s₂.counter { launched = dec s₂.counter.launched };
      }

  unfoldable pub release_task : TaskSet env → ℕ → Host → Bool → ℕ → Result (TaskSet env)
  unfolding release_as
  release_task s i hostname give_up failures = do
    t ← or_raise (get_elem? s.tasks i) index_error
    ok (release_as s i t hostname give_up failures)

  abbrev pub is_fetch_failed : Option TaskEndReason → Bool
  is_fetch_failed (some TaskEndReason.fetch_failed) = true
  is_fetch_failed _ = false

  -- `_task_lost` but for the first branch
  unfoldable pub task_failed_once :
      TaskSet env → ℕ → Task → ℕ → TaskState → Option TaskEndReason → ℕ → Result (TaskSet env)
  unfolding enlarge_memory note_reason release_task maybe_oom
  task_failed_once s i t num_try status reason failures = do
    hostname ← host_of s t num_try
    let s' = if maybe_oom reason then enlarge_memory s i t else note_reason s status reason
    release_task s' i hostname (leb max_task_failures failures) failures

  -- `_task_lost`; a payload with no exception has no `serverUri`
  unfoldable pub task_lost :
      TaskSet env
      → ℕ
      → Task
      → ℕ
      → TaskState
      → Option TaskEndReason
      → env.Payload
      → Result (TaskSet env)
  unfolding cancel_after_fetch task_failed_once
  task_lost s i t num_try status reason payload = do
    failures ← or_raise (get_elem? s.num_failures i) index_error
    let cancelled =
        if env.has_server_uri payload
        then cancel_after_fetch s i t payload
        else raise attribute_error
    let lost = task_failed_once s i t num_try status reason failures
    if is_fetch_failed reason && leb 1 failures then cancelled else lost

  -- `self.launched[i] = True` for a task that is not taken for launched
  abbrev pub count_launched : TaskSet env → ℕ → Bool → TaskSet env
  count_launched s i launched = if launched then s else record s {
    launched = set s.launched i true;
    counter = record s.counter { launched = inc s.counter.launched };
  }

  -- the three cases of `statusUpdate`, for the task `t` at place `i`
  unfoldable pub react :
      ℕ
      → TaskSet env
      → ℕ
      → Task
      → ℕ
      → TaskState
      → Option TaskEndReason
      → env.Payload
      → Option ℕ
      → Result (TaskSet env)
  unfolding task_finished task_lost
  react now s i t num_try TaskState.running reason payload rss = ok (record s {
    tasks = set s.tasks i (record t { start_time = now });
    max_stage_time = max s.max_stage_time (now - t.stage_time);
  })
  react now s i t num_try TaskState.finished reason payload rss =
      let digest : env.Digest = elim rss [
        | none ↦ s.mem_digest
        | some bytes ↦ env.digest_add s.mem_digest bytes
      ] in
      task_finished now (record s { mem_digest = digest }) i t num_try payload
  react now s i t num_try status reason payload rss = task_lost s i t num_try status reason payload

  -- `statusUpdate` for the task at place `i`; `rss` is `stats.bytes_max_rss`
  unfoldable pub update_task :
      ℕ
      → TaskSet env
      → ℕ
      → ℕ
      → TaskState
      → Option TaskEndReason
      → env.Payload
      → Option ℕ
      → Result (TaskSet env)
  unfolding react append_try
  update_task now s i num_try status reason payload rss = do
    t ← or_raise (get_elem? s.tasks i) index_error
    tries ← append_try num_try (status, now) t.tries
    let t' = record t { status = some status; tries = tries }
    let s' : TaskSet env = record s { tasks = set s.tasks i t' }
    finished ← or_raise (get_elem? s.finished i) index_error
    launched ← or_raise (get_elem? s.launched i) index_error
    let reaction = react now (count_launched s' i launched) i t' num_try status reason payload rss
    if finished then ok s' else reaction

  -- `statusUpdate`: a task that was never started is not known, and its status is ignored
  unfoldable pub status_update :
      ℕ
      → TaskSet env
      → TaskId
      → ℕ
      → TaskState
      → Option TaskEndReason
      → env.Payload
      → Option ℕ
      → Result (TaskSet env)
  unfolding update_task
  status_update now s id num_try status reason payload rss = elim (lookup id s.tid_to_index) [
    | none ↦ ok s
    | some i ↦ update_task now s i num_try status reason payload rss
  ]
