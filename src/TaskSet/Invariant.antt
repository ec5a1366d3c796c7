-- ===== src/TaskSet/Invariant.antt =====
-- The invariant of a task set: the lists have one entry for each task, the two counters are the
-- numbers of set flags, and a finished task counts as launched.
use dpark.Common.{
  ℕ, ◌≡◌, ◌∙◌, sym, ap, false, some, pos, length, length-set, count_true, get_elem?, arith,
}
use mathlib.Core.Path.{subst₂}
use dpark.Common.Flags.{Covers, count_true-set-true, Covers-set_first}
use dpark.TaskSet.{Env, TaskSet, Offer}
use dpark.Task.{Task}
use dpark.TaskSet.Offering.{start_task}

pub record IsConsistent {env : Env} (s : TaskSet env) : Type 0 where
  pub tasks : length s.tasks ≡ s.counter.n
  pub launched : length s.launched ≡ s.counter.n
  pub finished : length s.finished ≡ s.counter.n
  pub failures : length s.num_failures ≡ s.counter.n
  pub hosts : length s.running_hosts ≡ s.counter.n
  pub launched_count : s.counter.launched ≡ pos (count_true s.launched)
  pub finished_count : s.counter.finished ≡ pos (count_true s.finished)
  pub covered : Covers s.launched s.finished

module _ {env : Env} where
  pub start_task-IsConsistent :
      (now : ℕ) (s : TaskSet env) (idx : ℕ) (t : Task) (o : Offer)
      → IsConsistent s
      → get_elem? s.launched idx ≡ some false
      → IsConsistent (start_task env now s idx t o).0
  unfolding start_task
  start_task-IsConsistent now s idx t o c h = record {
    tasks = length-set _ _ _ ∙ c.tasks;
    launched = length-set _ _ _ ∙ c.launched;
    finished = c.finished;
    failures = c.failures;
    hosts = length-set _ _ _ ∙ c.hosts;
    launched_count = ground (arith, c.launched_count, count_true-set-true s.launched idx h);
    finished_count = c.finished_count;
    covered = Covers-set_first _ _ idx c.covered;
  }

  -- What the invariant speaks of: two sets that agree on it are consistent together.
  pub record SameBooks (s s' : TaskSet env) : Type 0 where
    pub tasks : length s'.tasks ≡ length s.tasks
    pub launched : s'.launched ≡ s.launched
    pub finished : s'.finished ≡ s.finished
    pub failures : length s'.num_failures ≡ length s.num_failures
    pub hosts : length s'.running_hosts ≡ length s.running_hosts
    pub n : s'.counter.n ≡ s.counter.n
    pub launched_count : s'.counter.launched ≡ s.counter.launched
    pub finished_count : s'.counter.finished ≡ s.counter.finished

  pub SameBooks-IsConsistent :
      {s s' : TaskSet env} → SameBooks s s' → IsConsistent s → IsConsistent s'
  SameBooks-IsConsistent {s} {s'} b c = record {
    tasks = omega (arith, b.tasks, b.n, c.tasks);
    launched = omega (arith, ap length b.launched, b.n, c.launched);
    finished = omega (arith, ap length b.finished, b.n, c.finished);
    failures = omega (arith, b.failures, b.n, c.failures);
    hosts = omega (arith, b.hosts, b.n, c.hosts);
    launched_count =
        b.launched_count ∙ c.launched_count ∙ sym (ap (λ l. pos (count_true l)) b.launched);
    finished_count =
        b.finished_count ∙ c.finished_count ∙ sym (ap (λ l. pos (count_true l)) b.finished);
    covered = subst₂ Covers (sym b.launched) (sym b.finished) c.covered;
  }
