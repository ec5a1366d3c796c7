-- ===== src/TaskSet.antt =====
-- dpark/taskset.py: the state of a `TaskSet`, and what it uses of other components. What the
-- scheduler is told (`self.sched`) is the list `calls`, the newest last; log lines are left out.
-- `time.time()` is the argument `now` of each operation, in whole units.
pub mod Offering
pub mod Status
pub mod Invariant
pub mod Launching
pub mod Cancelling
pub mod Accounting
pub mod Behaviour
pub mod Totality
pub mod Starting
mod Tests
pub mod Timeout
pub mod Running
pub mod Late
use dpark.Common.{Result, ℕ, Bool, Option, List, ℤ}
use dpark.Task.{TaskId, Host, TaskEndReason, Task}

-- A Mesos offer, and the resources that are left in it.
pub record Offer : Type 0 where
  pub hostname : Host

pub record Free : Type 0 where
  pub cpus : ℕ
  pub mem : ℕ
  pub gpus : ℕ

-- The components that a task set calls: the `TaskHostManager` of hostatus.py, the `TDigest` of
-- memory sizes (its 0.9 quantile as `int`, `none` for NaN), the resolver of host names (the name,
-- its aliases and addresses), and the type of what a task hands back with its statistics.
pub record Env : Type 1 where
  pub Manager : Type 0
  pub Digest : Type 0
  pub Payload : Type 0
  pub task_failed_on_host : Manager → TaskId → Host → Bool
  pub offer_choice :
      Manager → ℕ → TaskId → List (Host × ℕ × Offer) → List Host → Manager × Option (ℕ × Offer)
  pub task_succeed : Manager → TaskId → Host → Result Manager
  pub task_failed : Manager → TaskId → Host → Manager
  pub digest_add : Digest → ℕ → Digest
  pub has_server_uri : Payload → Bool
  pub quantile90 : Digest → Option ℕ
  pub resolve : Host → List Host

pub data SchedCall (Payload : Type 0) : Type 0 where
  task_ended : TaskId → TaskEndReason → Payload → SchedCall Payload
  kill_task : TaskId → ℕ → SchedCall Payload
  taskset_finished : SchedCall Payload
  request_more_resources : SchedCall Payload
  abort : SchedCall Payload

-- `TaskCounter`; `launched` and `finished` are Python integers that are also counted down.
pub record TaskCounter : Type 0 where
  pub n : ℕ
  pub launched : ℤ
  pub finished : ℤ
  pub fail_oom : ℕ
  pub fail_fetch : ℕ
  pub fail_run_timeout : ℕ
  pub fail_staging_timeout : ℕ
  pub fail_all : ℕ

-- What `causeOfFailure` says.
pub data Cause : Type 0 where
  without_retry : TaskEndReason → Cause
  too_many_failures task_timeout : TaskId → Cause

-- In the dictionaries the newest entry of a key stands first.
pub record TaskSet (env : Env) : Type 0 where
  pub tasks : List Task
  pub launched : List Bool
  pub finished : List Bool
  pub num_failures : List ℕ
  pub running_hosts : List (List Host)
  pub tid_to_index : List (TaskId × ℕ)
  pub counter : TaskCounter
  pub total_time_used : ℕ
  pub max_task_time : ℕ
  pub pending_tasks_for_host : List (Host × List ℕ)
  pub pending_tasks_with_no_prefs : List ℕ
  pub all_pending_tasks : List ℕ
  pub reasons : List (Option TaskEndReason)
  pub failed : Bool
  pub cause_of_failure : Option Cause
  pub last_check : ℕ
  pub host_cache : List (Host × List ℕ)
  pub manager : env.Manager
  pub id_retry_host : List ((TaskId × ℕ) × Host)
  pub task_local_set : List TaskId
  pub mem_digest : env.Digest
  pub max_stage_time : ℕ
  pub mem90 : ℕ
  pub calls : List (SchedCall env.Payload)
