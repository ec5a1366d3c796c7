-- ===== src/TaskSet/Late.antt =====
-- What `check_task_timeout` keeps: without finished tasks in the state staging, the invariant.
use dpark.Common.{
  ℕ, zero, suc, ◌+◌, ◌≡◌, refl, sym, ap, ◌∙◌, true, false, some, Bool, Bool-cases, inl, inr, List,
  [], ◌∷◌, pos, length-set, length, get_elem?, set, count_true, arith, ok, or_raise, index_error,
  or_raise-eq-ok, ok-injective, >>=-eq-ok, if_cases, if_cases_eq, if_either, ltb, leb, ◌&&◌, ◌-◌,
  ◌*◌, ◌^◌, ℤ, negsuc,
}
use mathlib.Core.Path.{subst}
use dpark.Common.Flags.{count_true-set-false, Covers-clear}
use dpark.Task.{Task}
use dpark.TaskSet.{Env, TaskSet}
use dpark.TaskSet.Invariant.{IsConsistent, SameBooks, SameBooks-IsConsistent}
use dpark.TaskSet.Status.{abort_set, is_count, max_task_failures}
use dpark.TaskSet.Timeout.{
  release_staged, check_staged, release_running, check_running, check_running_late, recount,
  check_task_timeout, is_staging, is_staged_late,
}
use dpark.TaskSet.Running.{Fresh, RunsFrom, RunsFrom-clear, running_tasks-RunsFrom}

-- No finished task is in the state staging.
abbrev pub NoneStaged : List Bool → List Task → Type 0
NoneStaged (f ∷ fs) (t ∷ ts) = ((f && is_staging t.status) ≡ false) × NoneStaged fs ts
NoneStaged _ _ = Unit

NoneStaged-get :
    (fs : List Bool) (ts : List Task) (i : ℕ) {t : Task}
    → NoneStaged fs ts
    → length fs ≡ length ts
    → get_elem? ts i ≡ some t
    → is_staging t.status ≡ true
    → get_elem? fs i ≡ some false
NoneStaged-get [] [] i n e h st = cc
NoneStaged-get [] (t ∷ ts) i n e h st = absurd (omega arith)
NoneStaged-get (f ∷ fs) [] i n e h st = absurd (omega arith)
NoneStaged-get (f ∷ fs) (t ∷ ts) zero n e h st = ground arith
NoneStaged-get (f ∷ fs) (t ∷ ts) (suc i) n e h st = NoneStaged-get fs ts i n.1 (omega arith) h st

-- A write of a task with the status of the one that was there
NoneStaged-set :
    (fs : List Bool) (ts : List Task) (i : ℕ) {t : Task} (t' : Task)
    → NoneStaged fs ts
    → get_elem? ts i ≡ some t
    → t'.status ≡ t.status
    → NoneStaged fs (set ts i t')
NoneStaged-set [] ts i t' n h e = tt
NoneStaged-set (f ∷ fs) [] i t' n h e = cc
NoneStaged-set (f ∷ fs) (t ∷ ts) zero t' n h e = (ground arith, n.1)
NoneStaged-set (f ∷ fs) (t ∷ ts) (suc i) t' n h e = (n.0, NoneStaged-set fs ts i t' n.1 h e)

module _ {env : Env} (now : ℕ) where
  release_staged-IsConsistent :
      (s : TaskSet env) (i : ℕ) (t : Task)
      → IsConsistent s
      → get_elem? s.launched i ≡ some true
      → get_elem? s.finished i ≡ some false
      → IsConsistent (release_staged env now s i t)
  unfolding release_staged
  release_staged-IsConsistent s i t c l f = record {
    tasks = length-set _ _ _ ∙ c.tasks;
    launched = length-set _ _ _ ∙ c.launched;
    finished = c.finished;
    failures = c.failures;
    hosts = c.hosts;
    launched_count = ground (arith, c.launched_count, count_true-set-false s.launched i l);
    finished_count = c.finished_count;
    covered = Covers-clear _ _ i c.covered f;
  }

  staged_step :
      (s : TaskSet env) (i : ℕ) (t : Task) (launched : Bool)
      → IsConsistent s
      → NoneStaged s.finished s.tasks
      → get_elem? s.tasks i ≡ some t
      → get_elem? s.launched i ≡ some launched
      → is_staged_late env now s t launched ≡ true
      → IsConsistent (release_staged env now s i t)
        × NoneStaged (release_staged env now s i t).finished (release_staged env now s i t).tasks
  staged_step s i t true c n te le late = (
    release_staged-IsConsistent s i t c le
        (NoneStaged-get s.finished s.tasks i n (c.finished ∙ sym c.tasks) te (ground arith)),
    (unfold release_staged in NoneStaged-set s.finished s.tasks i _ n te refl),
  )
  staged_step s i t false c n te le late = cc

  SameBooks-at_check : (s : TaskSet env) → SameBooks s (record s { last_check = now })
  SameBooks-at_check s = record {
    tasks = refl;
    launched = refl;
    finished = refl;
    failures = refl;
    hosts = refl;
    n = refl;
    launched_count = refl;
    finished_count = refl;
  }

  recount_step :
      (s : TaskSet env)
      → IsConsistent s
      → NoneStaged s.finished s.tasks
      → IsConsistent (recount env now s)
        × NoneStaged (recount env now s).finished (recount env now s).tasks
  recount_step s c n = elim (Bool-cases (is_count s.counter.launched (count_true s.launched))) [
    | inl p ↦ rw p (c, n)
    | inr p ↦ rw p (SameBooks-IsConsistent (ground (arith, c.launched_count)) c, n)
  ]

  check_staged-IsConsistent :
      (k : ℕ) (s s' : TaskSet env) (i released : ℕ)
      → IsConsistent s
      → NoneStaged s.finished s.tasks
      → check_staged env now s k i released ≡ ok s'
      → IsConsistent s'
  unfolding check_staged
  check_staged-IsConsistent zero s s' i released c n h = subst IsConsistent (ok-injective h) c
  check_staged-IsConsistent (suc k) s s' i released c n h =
      let (t, te, h₁) = >>=-eq-ok (or_raise (get_elem? s.tasks i) index_error) _ h in
      let (launched, le, h₂) = >>=-eq-ok (or_raise (get_elem? s.launched i) index_error) _ h₁ in
      let te' = or_raise-eq-ok (get_elem? s.tasks i) index_error te in
      if_cases_eq (is_staged_late env now s t launched) h₂
        (λ late h₃.
          let (c', n') =
            staged_step s i t launched c n (or_raise-eq-ok (get_elem? s.tasks i) index_error te)
              (or_raise-eq-ok (get_elem? s.launched i) index_error le) late in
          if_cases (ltb 3 (released + 1)) h₃ (λ e. subst IsConsistent (ok-injective e) c')
            (check_staged-IsConsistent k (release_staged env now s i t) s' (i + 1) (released + 1) c'
              n'))
        (λ _ h₃. check_staged-IsConsistent k s s' (i + 1) released c n h₃)

  release_running-IsConsistent :
      (s : TaskSet env) (i : ℕ) (t : Task) (used : ℕ)
      → IsConsistent s
      → get_elem? s.launched i ≡ some true
      → get_elem? s.finished i ≡ some false
      → IsConsistent (release_running env now s i t used)
  unfolding release_running abort_set
  release_running-IsConsistent s i t used c l f =
      if_either IsConsistent (leb t.num_try max_task_failures)
        (record {
          tasks = length-set _ _ _ ∙ c.tasks;
          launched = length-set _ _ _ ∙ c.launched;
          finished = c.finished;
          failures = c.failures;
          hosts = c.hosts;
          launched_count = ground (arith, c.launched_count, count_true-set-false s.launched i l);
          finished_count = c.finished_count;
          covered = Covers-clear _ _ i c.covered f;
        })
        (record {
          tasks = c.tasks;
          launched = c.launched;
          finished = c.finished;
          failures = c.failures;
          hosts = c.hosts;
          launched_count = c.launched_count;
          finished_count = c.finished_count;
          covered = c.covered;
        })

  release_running-RunsFrom :
      (s : TaskSet env) (i : ℕ) (t : Task) (used : ℕ) (r : List (ℕ × ℕ))
      → Fresh i r
      → RunsFrom 0 s.launched s.finished r
      → RunsFrom 0
          (release_running env now s i t used).launched
          (release_running env now s i t used).finished
          r
  unfolding release_running abort_set
  release_running-RunsFrom s i t used r n h = elim (Bool-cases (leb t.num_try max_task_failures)) [
    | inl p ↦ rw p (RunsFrom-clear s.launched s.finished i r n h)
    | inr p ↦ rw p h
  ]

  check_running-IsConsistent :
      (s s' : TaskSet env) (finished : ℕ) (r : List (ℕ × ℕ)) (released : ℕ)
      → IsConsistent s
      → RunsFrom 0 s.launched s.finished r
      → check_running env now s finished r released ≡ ok s'
      → IsConsistent s'
  unfolding check_running
  check_running-IsConsistent s s' finished [] released c n h = subst IsConsistent (ok-injective h) c
  check_running-IsConsistent s s' finished ((start, i) ∷ rest) released c n h =
      let (t, te, h₁) = >>=-eq-ok (or_raise (get_elem? s.tasks i) index_error) _ h in
      let used = now - t.start_time in
      let e : i - 0 ≡ i = omega arith in
      let c' =
        release_running-IsConsistent s i t used c (ap (get_elem? s.launched) (sym e) ∙ n.1)
          (ap (get_elem? s.finished) (sym e) ∙ n.2) in
      if_cases (ltb (s.max_task_time * 4 ^ t.num_try * s.counter.n) (used * finished)) h₁
        (λ h₂.
          if_cases (ltb 3 (released + 1)) h₂ (λ q. subst IsConsistent (ok-injective q) c')
            (check_running-IsConsistent (release_running env now s i t used) s' finished rest
              (released + 1) c' (release_running-RunsFrom s i t used rest n.3 n.4)))
        (λ q. subst IsConsistent (ok-injective q) c)

  check_running_late-IsConsistent :
      (s s' : TaskSet env) (z : ℤ)
      → IsConsistent s
      → check_running_late env now s z ≡ ok s'
      → IsConsistent s'
  unfolding check_running_late
  check_running_late-IsConsistent s s' (negsuc k) c h = subst IsConsistent (ok-injective h) c
  check_running_late-IsConsistent s s' (pos k) c h =
      if_cases (ltb (4 * s.counter.n) (5 * k)) h
        (check_running-IsConsistent s s' k _ 0 c
          (running_tasks-RunsFrom 0 s.launched s.finished s.tasks))
        (λ e. subst IsConsistent (ok-injective e) c)

  -- If `check_task_timeout` returns on a consistent set in which no finished task is in the state
  -- staging, the set stays consistent.
  pub check_task_timeout-IsConsistent :
      (s s' : TaskSet env) (b : Bool)
      → IsConsistent s
      → NoneStaged s.finished s.tasks
      → check_task_timeout env now s ≡ ok (s', b)
      → IsConsistent s'
  unfolding check_task_timeout
  check_task_timeout-IsConsistent s s' b c n h =
      let s₀ : TaskSet env = record s { last_check = now } in
      let c₀ = SameBooks-IsConsistent (SameBooks-at_check s) c in
      let (c₁, n₁) = recount_step s₀ c₀ n in
      if_cases (ltb now (s.last_check + 5)) h (λ e. subst IsConsistent (ground arith) c)
        (λ h₁.
          let (s₂, e₂, h₂) =
            >>=-eq-ok (check_staged env now (recount env now s₀) s.counter.n 0 0) _ h₁ in
          let c₂ = check_staged-IsConsistent s.counter.n (recount env now s₀) s₂ 0 0 c₁ n₁ e₂ in
          let (s₃, e₃, h₃) = >>=-eq-ok (check_running_late env now s₂ s₂.counter.finished) _ h₂ in
          subst IsConsistent (ground arith)
            (check_running_late-IsConsistent s₂ s₃ s₂.counter.finished c₂ e₃))
