-- ===== src/TaskSet/Offering.antt =====
-- dpark/taskset.py: how a task set starts (`__init__`, `_addPendingTask`) and how it answers
-- resource offers (`taskOffer` and what it calls). Slave `i` of an offer has its free resources at
-- place `i` of `free`, which stands for the three lists `cpus`, `mems` and `gpus`.
use dpark.Common.{
  ℕ, zero, suc, ◌+◌, Bool, true, false, not, ◌&&◌, ◌||◌, Option, none, some, List, [], ◌∷◌, ◌++◌,
  map, pos, inc, length, get_elem?, get_or, set, replicate, contains, lookup, leb, ltb, ◌==◌,
  if◌then◌else◌, Result, ok, raise, index_error, or_raise, ◌>>=◌,
}
use dpark.Task.{Host, TaskState, Task, try_next}
use dpark.TaskSet.{Env, Offer, Free, TaskSet}

-- what `statusUpdate` and `taskOffer` hand back for one started task: slave, offer, task
abbrev pub Launch : Type 0
Launch = ℕ × Offer × Task

abbrev pub Offers : Type 0
Offers = List (Host × ℕ × Offer)

-- the counts of `st`, in the order of the first occurrences
unfoldable pub tally : List (ℕ × ℕ) → ℕ → List (ℕ × ℕ)
tally [] t = (t, 1) ∷ []
tally ((j, c) ∷ st) t = let rest = tally st t in if j == t then (j, c + 1) ∷ st else (j, c) ∷ rest

unfoldable pub tallies : List (ℕ × ℕ) → List ℕ → List (ℕ × ℕ)
unfolding tally
tallies st [] = st
tallies st (t ∷ ts) = tallies (tally st t) ts

-- `sorted(…, key=itemgetter(1), reverse=True)`: stable, the largest count first
unfoldable pub insert_by_count : ℕ × ℕ → List (ℕ × ℕ) → List (ℕ × ℕ)
insert_by_count e [] = e ∷ []
insert_by_count e (x ∷ xs) =
    let rest = insert_by_count e xs in if ltb e.1 x.1 then x ∷ rest else e ∷ x ∷ xs

unfoldable pub sort_by_count : List (ℕ × ℕ) → List (ℕ × ℕ)
unfolding insert_by_count
sort_by_count [] = []
sort_by_count (x ∷ xs) = insert_by_count x (sort_by_count xs)

-- `setdefault(host, []).append(i)`
unfoldable pub add_pending_host : Host → ℕ → List (Host × List ℕ) → List (Host × List ℕ)
add_pending_host h i [] = (h, i ∷ []) ∷ []
add_pending_host h i ((j, l) ∷ m) =
    let rest = add_pending_host h i m in if j == h then (j, l ++ i ∷ []) ∷ m else (j, l) ∷ rest

unfoldable pub add_pending_hosts : List Host → ℕ → List (Host × List ℕ) → List (Host × List ℕ)
unfolding add_pending_host
add_pending_hosts [] i m = m
add_pending_hosts (h ∷ hs) i m = add_pending_hosts hs i (add_pending_host h i m)

abbrev pub prepend : Option Launch → List Launch → List Launch
prepend none ls = ls
prepend (some l) ls = l ∷ ls

-- enough of each resource is free
abbrev pub fits : Task → Free → Bool
fits t free = leb t.cpus (free.cpus + 1) && leb t.mem free.mem && leb t.gpus free.gpus

module _ (env : Env) where
  -- `_addPendingTask`, for the task `t` at place `i`
  unfoldable pub add_pending_task : TaskSet env → ℕ → Task → TaskSet env
  unfolding add_pending_hosts
  add_pending_task s i t = record s {
    pending_tasks_with_no_prefs =
        if length t.locs == 0
        then s.pending_tasks_with_no_prefs ++ i ∷ []
        else s.pending_tasks_with_no_prefs;
    pending_tasks_for_host = add_pending_hosts t.locs i s.pending_tasks_for_host;
    all_pending_tasks = s.all_pending_tasks ++ i ∷ [];
  }

  unfoldable pub add_pending_tasks : TaskSet env → ℕ → List Task → TaskSet env
  unfolding add_pending_task
  add_pending_tasks s i [] = s
  add_pending_tasks s i (t ∷ ts) = add_pending_tasks (add_pending_task s i t) (i + 1) ts

  -- the fields of a new set over `n` tasks, before they are put on the pending lists
  unfoldable pub fresh_set : List Task → ℕ → env.Manager → env.Digest → TaskSet env
  fresh_set tasks n manager digest = record {
    tasks = tasks;
    launched = replicate n false;
    finished = replicate n false;
    num_failures = replicate n 0;
    running_hosts = replicate n [];
    tid_to_index = [];
    counter = record {
      n = n;
      launched = pos 0;
      finished = pos 0;
      fail_oom = 0;
      fail_fetch = 0;
      fail_run_timeout = 0;
      fail_staging_timeout = 0;
      fail_all = 0;
    };
    total_time_used = 0;
    max_task_time = 0;
    pending_tasks_for_host = [];
    pending_tasks_with_no_prefs = [];
    all_pending_tasks = [];
    reasons = [];
    failed = false;
    cause_of_failure = none;
    last_check = 0;
    host_cache = [];
    manager = manager;
    id_retry_host = [];
    task_local_set = [];
    mem_digest = digest;
    max_stage_time = 0;
    mem90 = 0;
    calls = [];
  }

  -- what `__init__` writes into a task
  abbrev pub prepare : ℕ → ℕ → ℕ → Task → Task
  prepare cpus mem gpus t = record t {
    status = none;
    num_try = 0;
    time_used = 0;
    cpus = cpus;
    mem = mem;
    gpus = gpus;
  }

  -- `__init__`; an empty list of tasks fails at `tasks[0]`
  unfoldable pub init : List Task → ℕ → ℕ → ℕ → env.Manager → env.Digest → Result (TaskSet env)
  unfolding fresh_set add_pending_tasks
  init [] cpus mem gpus manager digest = raise index_error
  init (t ∷ ts) cpus mem gpus manager digest =
      let tasks = map (prepare cpus mem gpus) (t ∷ ts) in
      ok (add_pending_tasks (fresh_set tasks (length tasks) manager digest) 0 tasks)

  -- `_getPendingTasksForHost`
  unfoldable pub pending_for_names : TaskSet env → List Host → List ℕ
  pending_for_names s [] = []
  pending_for_names s (h ∷ hs) =
      elim (lookup h s.pending_tasks_for_host) [ none ↦ [] | some l ↦ l ] ++ pending_for_names s hs

  unfoldable pub get_pending_tasks_for_host : TaskSet env → Host → List ℕ
  unfolding pending_for_names sort_by_count tallies
  get_pending_tasks_for_host s host =
      map (λ e. e.0) (sort_by_count (tallies [] (pending_for_names s (env.resolve host))))

  -- `_getPendingTasksForHostWithCache`: an empty list in the cache is computed again
  unfoldable pub get_pending_with_cache : TaskSet env → Host → TaskSet env × List ℕ
  unfolding get_pending_tasks_for_host
  get_pending_with_cache s host = elim (lookup host s.host_cache) [
    | some (i ∷ l) ↦ (s, i ∷ l)
    | _ ↦
        let tasks = get_pending_tasks_for_host s host in
        (record s { host_cache = (host, tasks) ∷ s.host_cache }, tasks)
  ]

  -- the body of the loop of `_findTaskFromList`: is task `i` the one to start?
  unfoldable pub can_start : TaskSet env → ℕ → Host → Free → Result Bool
  can_start s i host free = do
    launched ← or_raise (get_elem? s.launched i) index_error
    finished ← or_raise (get_elem? s.finished i) index_error
    hosts ← or_raise (get_elem? s.running_hosts i) index_error
    t ← or_raise (get_elem? s.tasks i) index_error
    ok (
        not (
          launched
          || finished
          || contains hosts host
          || env.task_failed_on_host s.manager t.id host)
        && fits t free)

  -- `_findTaskFromList`
  unfoldable pub find_task_from_list : TaskSet env → List ℕ → Host → Free → Result (Option ℕ)
  unfolding can_start
  find_task_from_list s [] host free = ok none
  find_task_from_list s (i ∷ l) host free =
      let rest = find_task_from_list s l host free in
      do b ← can_start s i host free; if b then ok (some i) else rest

  -- what `_try_update_task_offer` changes when the task fits
  unfoldable pub start_task : ℕ → TaskSet env → ℕ → Task → Offer → TaskSet env × Task
  unfolding try_next
  start_task now s idx t o =
      let t' =
        try_next now (record t { status = some TaskState.staging; host = some o.hostname }) in
      (
        record s {
          tasks = set s.tasks idx t';
          id_retry_host = ((t.id, t'.num_try), o.hostname) ∷ s.id_retry_host;
          tid_to_index = (t.id, idx) ∷ s.tid_to_index;
          launched = set s.launched idx true;
          counter = record s.counter { launched = inc s.counter.launched };
          running_hosts =
              set s.running_hosts idx (get_or s.running_hosts idx [] ++ o.hostname ∷ []);
          task_local_set =
              if contains t.locs o.hostname && not (contains s.task_local_set t.id)
              then t.id ∷ s.task_local_set
              else s.task_local_set;
        },
        t',
      )

  -- `_try_update_task_offer`
  unfoldable pub try_update_task_offer :
      ℕ → TaskSet env → ℕ → ℕ → Offer → List Free → Result (TaskSet env × Option Launch)
  unfolding start_task
  try_update_task_offer now s idx i o free = do
    t ← or_raise (get_elem? s.tasks idx) index_error
    f ← or_raise (get_elem? free i) index_error
    let (s', t') = start_task now s idx t o
    ok (if fits t f then (s', some (i, o, t')) else (s, none))

  -- `if local_task is not None`
  unfoldable pub offer_found_task :
      ℕ → TaskSet env → ℕ → Offer → List Free → Option ℕ → Result (TaskSet env × Option Launch)
  unfolding try_update_task_offer
  offer_found_task now s i o free none = ok (s, none)
  offer_found_task now s i o free (some idx) = try_update_task_offer now s idx i o free

  -- one host of the first loop of `taskOffer`
  unfoldable pub offer_to_host :
      ℕ → TaskSet env → Host → ℕ → Offer → List Free → Result (TaskSet env × Option Launch)
  unfolding get_pending_with_cache find_task_from_list offer_found_task
  offer_to_host now s host i o free = do
    let (s', pending) = get_pending_with_cache s host
    f ← or_raise (get_elem? free i) index_error
    found ← find_task_from_list s' pending host f
    offer_found_task now s' i o free found

  -- the first loop: tasks that prefer the hosts
  unfoldable pub offer_local :
      ℕ → TaskSet env → Offers → List Free → Result (TaskSet env × List Launch)
  unfolding offer_to_host
  offer_local now s [] free = ok (s, [])
  offer_local now s ((host, i, o) ∷ offers) free = do
    (s', launch) ← offer_to_host now s host i o free
    (s'', launches) ← offer_local now s' offers free
    ok (s'', prepend launch launches)

  -- `if i is None: continue`
  unfoldable pub offer_chosen :
      ℕ → TaskSet env → ℕ → List Free → Option (ℕ × Offer) → Result (TaskSet env × Option Launch)
  unfolding try_update_task_offer
  offer_chosen now s idx free none = ok (s, none)
  offer_chosen now s idx free (some (i, o)) = try_update_task_offer now s idx i o free

  -- one task of the second loop
  unfoldable pub offer_to_task :
      ℕ → TaskSet env → ℕ → Offers → List Free → Result (TaskSet env × Option Launch)
  unfolding offer_chosen
  offer_to_task now s idx offers free = do
    launched ← or_raise (get_elem? s.launched idx) index_error
    finished ← or_raise (get_elem? s.finished idx) index_error
    t ← or_raise (get_elem? s.tasks idx) index_error
    hosts ← or_raise (get_elem? s.running_hosts idx) index_error
    let (manager, choice) = env.offer_choice s.manager now t.id offers hosts
    let s' = record s { manager = manager }
    if launched || finished then ok (s, none) else offer_chosen now s' idx free choice

  -- the second loop, over the `k` tasks from `idx`: the first that can be started anywhere
  unfoldable pub offer_any :
      ℕ → TaskSet env → ℕ → ℕ → Offers → List Free → Result (TaskSet env × List Launch)
  unfolding offer_to_task
  offer_any now s zero idx offers free = ok (s, [])
  offer_any now s (suc k) idx offers free = do
    (s', launch) ← offer_to_task now s idx offers free
    elim launch [ some l ↦ ok (s', l ∷ []) | none ↦ offer_any now s' k (idx + 1) offers free ]

  -- `if prefer_list: return prefer_list`, else the second loop
  unfoldable pub offer_rest :
      ℕ → TaskSet env → Offers → List Free → List Launch → Result (TaskSet env × List Launch)
  unfolding offer_any
  offer_rest now s offers free (l ∷ ls) = ok (s, l ∷ ls)
  offer_rest now s offers free [] = offer_any now s (length s.tasks) 0 offers free

  -- `taskOffer`
  unfoldable pub task_offer :
      ℕ → TaskSet env → Offers → List Free → Result (TaskSet env × List Launch)
  unfolding offer_local offer_rest
  task_offer now s offers free = do
    (s', launches) ← offer_local now s offers free
    offer_rest now s' offers free launches
