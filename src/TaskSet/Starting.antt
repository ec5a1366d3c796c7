-- ===== src/TaskSet/Starting.antt =====
-- A new task set (`__init__`) is consistent, whatever the tasks and the resources.
use dpark.Common.{
  ℕ, ◌+◌, ◌≡◌, refl, false, List, [], ◌∷◌, pos, length, length-replicate, map, ok, ok-injective,
  sym, ap, ◌∙◌, count_true,
}
use mathlib.Core.Path.{subst}
use dpark.Common.Flags.{count_true-replicate-false, Covers-replicate}
use dpark.Task.{Task}
use dpark.TaskSet.{Env, TaskSet}
use dpark.TaskSet.Invariant.{IsConsistent, SameBooks-IsConsistent}
use dpark.TaskSet.Offering.{init, prepare, fresh_set, add_pending_task, add_pending_tasks}

module _ {env : Env} where
  add_pending-IsConsistent :
      (s : TaskSet env) (i : ℕ) (ts : List Task)
      → IsConsistent s
      → IsConsistent (add_pending_tasks env s i ts)
  unfolding add_pending_tasks add_pending_task
  add_pending-IsConsistent s i [] c = c
  add_pending-IsConsistent s i (t ∷ ts) c =
      add_pending-IsConsistent (add_pending_task env s i t) (i + 1) ts (
        SameBooks-IsConsistent
          (record {
            tasks = refl;
            launched = refl;
            finished = refl;
            failures = refl;
            hosts = refl;
            n = refl;
            launched_count = refl;
            finished_count = refl;
          })
          c)

  fresh_set-IsConsistent :
      (tasks : List Task) (n : ℕ) (manager : env.Manager) (digest : env.Digest)
      → length tasks ≡ n
      → IsConsistent (fresh_set env tasks n manager digest)
  unfolding fresh_set
  fresh_set-IsConsistent tasks n manager digest e = record {
    tasks = e;
    launched = length-replicate n false;
    finished = length-replicate n false;
    failures = length-replicate {A = ℕ} n 0;
    hosts = length-replicate n [];
    launched_count = sym (ap pos (count_true-replicate-false n));
    finished_count = sym (ap pos (count_true-replicate-false n));
    covered = Covers-replicate n;
  }

  -- Nothing of the set is launched or finished, by the flags and by the counters.
  pub record IsIdle (s : TaskSet env) : Type 0 where
    pub launched : count_true s.launched ≡ 0
    pub finished : count_true s.finished ≡ 0
    pub launched_counter : s.counter.launched ≡ pos 0
    pub finished_counter : s.counter.finished ≡ pos 0

  add_pending-IsIdle :
      (s : TaskSet env) (i : ℕ) (ts : List Task) → IsIdle s → IsIdle (add_pending_tasks env s i ts)
  unfolding add_pending_tasks add_pending_task
  add_pending-IsIdle s i [] r = r
  add_pending-IsIdle s i (t ∷ ts) r =
      add_pending-IsIdle (add_pending_task env s i t) (i + 1) ts (record {
        launched = r.launched;
        finished = r.finished;
        launched_counter = r.launched_counter;
        finished_counter = r.finished_counter;
      })

  fresh_set-IsIdle :
      (tasks : List Task) (n : ℕ) (manager : env.Manager) (digest : env.Digest)
      → IsIdle (fresh_set env tasks n manager digest)
  unfolding fresh_set
  fresh_set-IsIdle tasks n manager digest = record {
    launched = count_true-replicate-false n;
    finished = count_true-replicate-false n;
    launched_counter = refl;
    finished_counter = refl;
  }

  add_pending-tasks :
      (s : TaskSet env) (i : ℕ) (ts : List Task) → (add_pending_tasks env s i ts).tasks ≡ s.tasks
  unfolding add_pending_tasks add_pending_task
  add_pending-tasks s i [] = refl
  add_pending-tasks s i (t ∷ ts) = add_pending-tasks (add_pending_task env s i t) (i + 1) ts

  -- A task set that is built has the tasks it was given, each prepared. It is consistent; nothing
  -- is launched and nothing is finished, by the flags and by the counters.
  pub init-IsConsistent :
      (tasks : List Task) (cpus mem gpus : ℕ) (manager : env.Manager) (digest : env.Digest)
      (s : TaskSet env)
      → init env tasks cpus mem gpus manager digest ≡ ok s
      → IsConsistent s × IsIdle s × (s.tasks ≡ map (prepare env cpus mem gpus) tasks)
  unfolding init
  init-IsConsistent [] cpus mem gpus manager digest s h = cc
  init-IsConsistent (t ∷ ts) cpus mem gpus manager digest s h =
      let tasks = map (prepare env cpus mem gpus) (t ∷ ts) in
      let fresh = fresh_set env tasks (length tasks) manager digest in
      (
        subst IsConsistent (ok-injective h) (
            add_pending-IsConsistent fresh 0 tasks
              (fresh_set-IsConsistent tasks (length tasks) manager digest refl)),
        subst IsIdle (ok-injective h) (
            add_pending-IsIdle fresh 0 tasks
              (fresh_set-IsIdle tasks (length tasks) manager digest)),
        ap (λ x. x.tasks) (sym (ok-injective h))
            ∙ add_pending-tasks fresh 0 tasks
            ∙ (unfold fresh_set in refl),
      )
