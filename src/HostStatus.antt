-- ===== src/HostStatus.antt =====
-- dpark/hostatus.py: `HostStatus`, what is known of the tasks that ran on one host, and
-- `TaskHostManager`, that chooses the host for a task. `time.time()` is the argument `now`, in
-- whole units. A success rate is a fraction (of its parts, the second is not zero).
pub mod Choice
pub mod Failures
pub mod Choosing
mod Tests
use dpark.Common.{
  ℕ, zero, suc, ◌+◌, ◌-◌, ◌*◌, ◌^◌, Bool, true, false, ◌&&◌, Option, none, some, List, [], ◌∷◌,
  ◌++◌, min, length, contains, lookup, leb, ltb, if◌then◌else◌, Result, ok, raise, key_error,
  or_raise, ◌>>=◌,
}
use dpark.Common.Dicts.{put, delete, has_key}
use dpark.Task.{TaskId, Host}

abbrev pub purge_elapsed : ℕ
purge_elapsed = 60 * 5

pub record HostStatus : Type 0 where
  pub failed_log : List ℕ
  pub succeeded_log : List ℕ
  pub failed_cnt : ℕ
  pub succeed_cnt : ℕ
  pub start_point : ℕ
  pub failed_tasks : List (TaskId × List ℕ)
  pub purge_elapsed : ℕ

-- `HostStatus.__init__`
abbrev pub new_status : ℕ → HostStatus
new_status elapsed = record {
  failed_log = [];
  succeeded_log = [];
  failed_cnt = 0;
  succeed_cnt = 0;
  start_point = 0;
  failed_tasks = [];
  purge_elapsed = elapsed;
}

-- `HostStatus.task_succeed`
unfoldable pub status_succeed : ℕ → TaskId → HostStatus → HostStatus
status_succeed now id h = record h {
  succeeded_log = h.succeeded_log ++ now ∷ [];
  failed_tasks = if has_key id h.failed_tasks then delete id h.failed_tasks else h.failed_tasks;
}

-- `HostStatus.task_failed`
unfoldable pub status_failed : ℕ → TaskId → HostStatus → HostStatus
status_failed now id h = record h {
  failed_log = h.failed_log ++ now ∷ [];
  failed_tasks = elim (lookup id h.failed_tasks) [
    | some times ↦ put id (times ++ now ∷ []) h.failed_tasks
    | none ↦ put id (now ∷ []) h.failed_tasks
  ];
}

-- the times after `now - elapsed`, which may be before zero
unfoldable pub later_than : ℕ → ℕ → List ℕ → List ℕ
later_than now elapsed [] = []
later_than now elapsed (x ∷ xs) =
    let rest = later_than now elapsed xs in if ltb now (x + elapsed) then x ∷ rest else rest

-- `_begin_log_ts`
abbrev pub first_or : ℕ → List ℕ → ℕ
first_or d [] = d
first_or d (x ∷ xs) = x

abbrev pub begin_log_ts : ℕ → HostStatus → ℕ
begin_log_ts now h = min (min now (first_or now h.failed_log)) (first_or now h.succeeded_log)

-- `purge_old`
unfoldable pub purge_old : ℕ → HostStatus → HostStatus
unfolding later_than
purge_old now h =
    let failed = later_than now h.purge_elapsed h.failed_log in
    let succeeded = later_than now h.purge_elapsed h.succeeded_log in
    let h' : HostStatus = record h { failed_log = failed; succeeded_log = succeeded } in
    record h' {
      failed_cnt = length failed;
      succeed_cnt = length succeeded;
      start_point = begin_log_ts now h';
    }

-- `recent_succeed_rate`
abbrev pub rate_of : HostStatus → ℕ × ℕ
rate_of h =
    if ltb (h.failed_cnt + h.succeed_cnt) 1
    then (1, 1)
    else (h.succeed_cnt, h.succeed_cnt + h.failed_cnt)

unfoldable pub recent_succeed_rate : ℕ → HostStatus → HostStatus × (ℕ × ℕ)
unfolding purge_old
recent_succeed_rate now h = let h' = purge_old now h in (h', rate_of h')

-- `failed_on`
abbrev pub failed_on : TaskId → HostStatus → Bool
failed_on id h = has_key id h.failed_tasks

-- the last entry; a log of failures is never empty
abbrev pub last_or : ℕ → List ℕ → ℕ
last_or d [] = d
last_or d (x ∷ xs) = last_or x xs

-- `should_forbit`
unfoldable pub should_forbit : ℕ → TaskId → HostStatus → HostStatus × Bool
unfolding purge_old
should_forbit now id h =
    let h' = purge_old now h in
    (
      h',
      elim (lookup id h'.failed_tasks) [
        | none ↦ false
        | some times ↦ ltb (now - last_or now times) (h'.purge_elapsed * 2 ^ length times)
      ],
    )

-- `erase_failed_task`
unfoldable pub erase_failed_task : TaskId → HostStatus → HostStatus
erase_failed_task id h = record h {
  failed_tasks = if has_key id h.failed_tasks then delete id h.failed_tasks else h.failed_tasks;
}

-- `TaskHostManager`; the sets of host names are lists
pub record HostManager : Type 0 where
  pub host_dict : List (Host × HostStatus)
  pub failed_dict : List (TaskId × List Host)

-- `register_host`
unfoldable pub register_host : Host → ℕ → HostManager → HostManager
register_host host elapsed m =
    if has_key host m.host_dict
    then m
    else record m { host_dict = put host (new_status elapsed) m.host_dict }

-- `task_failed_on_host`
unfoldable pub task_failed_on_host : TaskId → Host → HostManager → Bool
task_failed_on_host id host m = elim (lookup host m.host_dict) [
  | none ↦ false
  | some h ↦ failed_on id h
]

-- the loop of `task_succeed` over the hosts on which the task failed
unfoldable pub erase_on_hosts :
    TaskId → List Host → List (Host × HostStatus) → Result (List (Host × HostStatus))
unfolding erase_failed_task
erase_on_hosts id [] d = ok d
erase_on_hosts id (host ∷ hosts) d = do
  h ← or_raise (lookup host d) key_error
  erase_on_hosts id hosts (put host (erase_failed_task id h) d)

-- `task_succeed`: first on the host itself
unfoldable pub succeed_on_host : ℕ → TaskId → Host → HostManager → HostManager
unfolding status_succeed
succeed_on_host now id host m = elim (lookup host m.host_dict) [
  | none ↦ m
  | some h ↦ record m { host_dict = put host (status_succeed now id h) m.host_dict }
]

unfoldable pub forget_failures : TaskId → HostManager → Result HostManager
unfolding erase_on_hosts
forget_failures id m = elim (lookup id m.failed_dict) [
  | none ↦ ok m
  | some hosts ↦ do
    d ← erase_on_hosts id hosts m.host_dict
    ok (record { host_dict = d; failed_dict = delete id m.failed_dict })
]

unfoldable pub task_succeed : ℕ → TaskId → Host → HostManager → Result HostManager
unfolding succeed_on_host forget_failures
task_succeed now id host m = forget_failures id (succeed_on_host now id host m)

abbrev pub add_host : Host → List Host → List Host
add_host host hosts = if contains hosts host then hosts else host ∷ hosts

-- `task_failed`
unfoldable pub task_failed : ℕ → TaskId → Host → HostManager → HostManager
unfolding status_failed
task_failed now id host m = elim (lookup host m.host_dict) [
  | none ↦ m
  | some h ↦
      let hosts : List Host = elim (lookup id m.failed_dict) [ none ↦ [] | some hs ↦ hs ] in
      record {
        host_dict = put host (status_failed now id h) m.host_dict;
        failed_dict = put id (add_host host hosts) m.failed_dict;
      }
]

-- `is_unhealthy_host`: the state that the purge leaves, and the answer
unfoldable pub is_unhealthy_host : ℕ → Host → HostManager → HostManager × Bool
unfolding recent_succeed_rate
is_unhealthy_host now host m = elim (lookup host m.host_dict) [
  | none ↦ (m, false)
  | some h ↦
      let (h', rate) = recent_succeed_rate now h in
      (
        record m { host_dict = put host h' m.host_dict },
        ltb 30 (now - h'.start_point)
            && ltb 20 (h'.succeed_cnt + h'.failed_cnt)
            && ltb (10 * rate.0) rate.1,
      )
]
