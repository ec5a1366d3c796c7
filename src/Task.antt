-- ===== src/Task.antt =====
-- dpark/task.py: task states, the reasons for which a try ends, and the record that the scheduler
-- keeps of a task (`DAGTask`) with its tries. A task id is the number of its partition, since the
-- set id in front of it is the same for all tasks of a set. A reason string outside the constants
-- is one of the executor's exception reasons, fatal or not, named by a number.
use dpark.Common.{
  ℕ, ◌+◌, Bool, true, false, Option, some, List, [], ◌∷◌, ◌++◌, ℕ_discrete, ◌==◌, if◌then◌else◌,
  Result, ok, raise, key_error,
}

abbrev pub TaskId : Type 0
TaskId = ℕ

abbrev pub Host : Type 0
Host = ℕ

pub data TaskState : Type 0 where
  staging running finished failed killed lost error : TaskState

pub data TaskEndReason : Type 0 where
  success other_ecs load_failed other_failure fetch_failed task_oom : TaskEndReason
  recv_sig recv_sig_kill launch_failed mesos_cgroup_oom : TaskEndReason
  fatal_exception exception : ℕ → TaskEndReason

pub data TaskReason : Type 0 where
  first run_timeout stage_timeout fail : TaskReason

pub TaskEndReason-discrete : Discrete TaskEndReason
TaskEndReason-discrete = hlevel ℕ_discrete

-- `maybe_oom`; a missing reason is none of the three
unfoldable pub maybe_oom : Option TaskEndReason → Bool
maybe_oom (some task_oom) = true
maybe_oom (some recv_sig_kill) = true
maybe_oom (some mesos_cgroup_oom) = true
maybe_oom _ = false

-- `TaskTry`: why it was started, and the states that it went through with their times
pub record TaskTry : Type 0 where
  pub reason : TaskReason
  pub status : List (TaskState × ℕ)

-- `DAGTask` as the scheduler sees it; `tries` has the newest entry of a key first. CPU amounts
-- count steps of 1e-4, memory is in MB.
pub record Task : Type 0 where
  pub id : TaskId
  pub locs : List Host
  pub status : Option TaskState
  pub num_try : ℕ
  pub reason_next : TaskReason
  pub tries : List (ℕ × TaskTry)
  pub host : Option Host
  pub cpus : ℕ
  pub mem : ℕ
  pub gpus : ℕ
  pub stage_time : ℕ
  pub start_time : ℕ
  pub time_used : ℕ

-- `try_next`, at time `now`
unfoldable pub try_next : ℕ → Task → Task
try_next now t = record t {
  num_try = t.num_try + 1;
  tries =
      (t.num_try + 1, record { reason = t.reason_next; status = (TaskState.staging, now) ∷ [] })
      ∷ t.tries;
}

-- `self.tries[num_try].append(status)`: a KeyError for a try that was never started
unfoldable pub append_try : ℕ → TaskState × ℕ → List (ℕ × TaskTry) → Result (List (ℕ × TaskTry))
append_try k st [] = raise key_error
append_try k st ((j, tr) ∷ rest) =
    let later = append_try k st rest in
    if j == k
    then ok ((j, record tr { status = tr.status ++ st ∷ [] }) ∷ rest)
    else elim later [ ok rest' ↦ ok ((j, tr) ∷ rest') | raise e ↦ raise e ]
