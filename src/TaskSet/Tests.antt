-- ===== src/TaskSet/Tests.antt =====
-- Runs of a small task set, and the theorems at inputs that meet their hypotheses.
use dpark.Common.{
  set, map, ℕ, ◌≡◌, refl, true, false, Option, none, some, List, [], ◌∷◌, pos, ok, arith,
}
use dpark.HostStatus.{HostManager, task_succeed}
use dpark.HostStatus.Failures.{IsTracked, task_succeed-Forgets}
use dpark.Task.{Task, TaskState, TaskReason, TaskEndReason, TaskTry, append_try}
use dpark.TaskSet.{Env, Offer, Free, TaskSet, TaskCounter, task_ended}
use dpark.TaskSet.Invariant.{IsConsistent}
use dpark.TaskSet.Starting.{IsIdle, init-IsConsistent}
use dpark.TaskSet.Offering.{Offers, init, prepare, task_offer}
use dpark.TaskSet.Status.{status_update}
use dpark.TaskSet.Launching.{Launches, task_offer-Launches}
use dpark.TaskSet.Accounting.{status_update-IsConsistent}
use dpark.TaskSet.Behaviour.{Known, Finishes, finished_ignored, finish_lem}
use dpark.TaskSet.Totality.{Returns, status_update_total}
use dpark.TaskSet.Timeout.{check_task_timeout}
use dpark.TaskSet.Late.{check_task_timeout-IsConsistent}

-- the host statistics with a choice of the first host, and a digest that keeps the last size
abbrev first_offer : Offers → Option (ℕ × Offer)
first_offer [] = none
first_offer ((h, i, o) ∷ _) = some (i, o)

abbrev no_hosts : HostManager
no_hosts = record { host_dict = []; failed_dict = [] }

no_hosts-IsTracked : IsTracked no_hosts
no_hosts-IsTracked = record { noted = λ id h e. cc; registered = λ id h e. cc }

abbrev sample : Env
sample = record {
  Manager = HostManager;
  Digest = ℕ;
  Payload = ℕ;
  task_failed_on_host = λ m id h. false;
  offer_choice = λ m now id offers blacklist. (m, first_offer offers);
  task_succeed = λ m id h. task_succeed 8 id h m;
  has_server_uri = λ p. true;
  task_failed = λ m id h. m;
  digest_add = λ d b. b;
  quantile90 = λ d. some d;
  resolve = λ h. h ∷ [];
}

abbrev new_task : ℕ → Task
new_task id = record {
  id = id;
  locs = [];
  status = none;
  num_try = 0;
  reason_next = TaskReason.first;
  tries = [];
  host = none;
  cpus = 1;
  mem = 100;
  gpus = 0;
  stage_time = 0;
  start_time = 0;
  time_used = 0;
}

abbrev started_task : ℕ → Task
started_task id = record (new_task id) {
  status = some TaskState.staging;
  num_try = 1;
  tries = (1, record { reason = TaskReason.first; status = (TaskState.staging, 5) ∷ [] }) ∷ [];
  host = some 9;
}

abbrev counter : TaskCounter
counter = record {
  n = 2;
  launched = pos 0;
  finished = pos 0;
  fail_oom = 0;
  fail_fetch = 0;
  fail_run_timeout = 0;
  fail_staging_timeout = 0;
  fail_all = 0;
}

-- two tasks, none started
abbrev fresh : TaskSet sample
fresh = record {
  tasks = new_task 0 ∷ new_task 1 ∷ [];
  launched = false ∷ false ∷ [];
  finished = false ∷ false ∷ [];
  num_failures = 0 ∷ 0 ∷ [];
  running_hosts = [] ∷ [] ∷ [];
  tid_to_index = [];
  counter = counter;
  total_time_used = 0;
  max_task_time = 0;
  pending_tasks_for_host = [];
  pending_tasks_with_no_prefs = 0 ∷ 1 ∷ [];
  all_pending_tasks = 0 ∷ 1 ∷ [];
  reasons = [];
  failed = false;
  cause_of_failure = none;
  last_check = 0;
  host_cache = [];
  manager = no_hosts;
  id_retry_host = [];
  task_local_set = [];
  mem_digest = 0;
  max_stage_time = 0;
  mem90 = 0;
  calls = [];
}

-- the first task is staged on host 9
abbrev staged : TaskSet sample
staged = record fresh {
  tasks = started_task 0 ∷ new_task 1 ∷ [];
  launched = true ∷ false ∷ [];
  running_hosts = (9 ∷ []) ∷ [] ∷ [];
  tid_to_index = (0, 0) ∷ [];
  counter = record counter { launched = pos 1 };
  host_cache = (9, []) ∷ [];
  id_retry_host = ((0, 1), 9) ∷ [];
}

abbrev ended_task : Task
ended_task = record (started_task 0) {
  status = some TaskState.finished;
  tries =
      (
        1,
        record {
          reason = TaskReason.first;
          status = (TaskState.staging, 5) ∷ (TaskState.finished, 8) ∷ [];
        },
      )
      ∷ [];
  time_used = 8;
}

-- the set after the first task has finished
abbrev after_finish : TaskSet sample
after_finish = record staged {
  tasks = ended_task ∷ new_task 1 ∷ [];
  finished = true ∷ false ∷ [];
  running_hosts = [] ∷ [] ∷ [];
  counter = record counter { launched = pos 1; finished = pos 1 };
  total_time_used = 8;
  max_task_time = 8;
  calls = task_ended 0 TaskEndReason.success 7 ∷ [];
}

fresh-IsConsistent : IsConsistent fresh
fresh-IsConsistent = ground arith

staged-IsConsistent : IsConsistent staged
staged-IsConsistent = ground arith

init-IsConsistent_example :
    IsConsistent fresh
    × IsIdle fresh
    × (fresh.tasks ≡ map (prepare sample 1 100 0) (new_task 0 ∷ new_task 1 ∷ []))
unfolding init
init-IsConsistent_example =
    init-IsConsistent (new_task 0 ∷ new_task 1 ∷ []) 1 100 0 no_hosts 0 fresh refl

abbrev offers : Offers
offers = (9, 0, record { hostname = 9 }) ∷ []

abbrev free : List Free
free = record { cpus = 1; mem = 200; gpus = 0 } ∷ []

offered :
    task_offer sample 5 fresh offers free
    ≡ ok (staged, (0, record { hostname = 9 }, started_task 0) ∷ [])
unfolding task_offer
offered = refl

task_offer-Launches_example :
    Launches free fresh staged ((0, record { hostname = 9 }, started_task 0) ∷ [])
task_offer-Launches_example =
    task_offer-Launches sample free 5 fresh staged offers
      ((0, record { hostname = 9 }, started_task 0) ∷ []) fresh-IsConsistent offered

staged-Known : Known staged 0 1 0 (started_task 0) 9
staged-Known = record { indexed = refl; task = refl; host = refl }

finished_set : status_update sample 8 staged 0 1 TaskState.finished none 7 none ≡ ok after_finish
unfolding status_update task_succeed
finished_set = refl

status_update-IsConsistent_example : IsConsistent after_finish
status_update-IsConsistent_example =
    status_update-IsConsistent 8 staged after_finish 0 1 TaskState.finished none 7 none
      staged-IsConsistent finished_set

finish_lem_example : Finishes staged after_finish 0 1 0 1 7
finish_lem_example =
    finish_lem 8 staged 0 1 0 (started_task 0) 9 none 7 none staged-Known after_finish
      staged-IsConsistent refl finished_set

status_update_total_example :
    Returns (status_update sample 8 staged 0 1 TaskState.finished none 7 none)
status_update_total_example =
    status_update_total 8 staged 0 1 0 (started_task 0) 9 TaskState.finished none 7 none
      staged-IsConsistent staged-Known refl
      (record {
        succeeds = λ e h q.
            let (m, p, _) = task_succeed-Forgets 8 0 h no_hosts no_hosts-IsTracked in (m, p);
        uri = λ e. refl;
      })

abbrev late_task : Task
late_task = record ended_task {
  status = some TaskState.running;
  tries =
      (
        1,
        record {
          reason = TaskReason.first;
          status = (TaskState.staging, 5) ∷ (TaskState.finished, 8) ∷ (TaskState.running, 9) ∷ [];
        },
      )
      ∷ [];
}

ignored :
    status_update sample 9 after_finish 0 1 TaskState.running none 7 none
    ≡ ok (record after_finish { tasks = late_task ∷ new_task 1 ∷ [] })
unfolding status_update
ignored = refl

finished_ignored_example :
    (tries : List (ℕ × TaskTry)) × (append_try 1 (TaskState.running, 9) ended_task.tries ≡ ok tries)
    × (record after_finish { tasks = late_task ∷ new_task 1 ∷ [] } ≡ record after_finish {
      tasks =
          set after_finish.tasks 0
            (record ended_task { status = some TaskState.running; tries = tries });
    })
finished_ignored_example =
    finished_ignored 9 after_finish 0 1 0 ended_task 9 none 7 none
      (record { indexed = refl; task = refl; host = refl }) TaskState.running
      (record after_finish { tasks = late_task ∷ new_task 1 ∷ [] }) refl ignored

-- the staged task is handed out again after more than 30 units
abbrev released_set : TaskSet sample
released_set = record staged {
  tasks = record (started_task 0) { reason_next = TaskReason.stage_timeout } ∷ new_task 1 ∷ [];
  launched = false ∷ false ∷ [];
  counter = record counter { fail_staging_timeout = 1 };
  last_check = 31;
}

timed_out : check_task_timeout sample 31 staged ≡ ok (released_set, true)
unfolding check_task_timeout
timed_out = refl

check_task_timeout-IsConsistent_example : IsConsistent released_set
check_task_timeout-IsConsistent_example =
    check_task_timeout-IsConsistent 31 staged released_set true staged-IsConsistent
      (refl, (refl, tt)) timed_out
