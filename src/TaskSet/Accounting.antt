-- ===== src/TaskSet/Accounting.antt =====
-- `statusUpdate` keeps the invariant, on every branch.
use dpark.Common.{
  ℕ, suc, ◌+◌, ◌≡◌, refl, sym, ap, ◌∙◌, Bool, true, false, Option, none, some, List, [], ◌∷◌, ◌++◌,
  inc, length, length-set, get_elem?, get_elem?-set_self, set, lookup, arith, ok, or_raise,
  index_error, Bool-cases, Option-cases, or_raise-eq-ok, get_elem?-lt, if_either, if_cases,
  if_cases_eq, inl, inr, ok-injective, >>=-eq-ok, if◌then◌else◌, leb, ◌&&◌, ◌>>=◌,
}
use mathlib.Core.Path.{subst}
use dpark.Common.Flags.{
  count_true-set-true, count_true-set-false, Covers-set_both, Covers-set_first, Covers-clear,
}
use dpark.Task.{Task, TaskId, Host, TaskState, TaskEndReason, maybe_oom, append_try}
use dpark.TaskSet.Cancelling.{cancel-Cancelled}
use dpark.TaskSet.{Env, TaskSet, TaskCounter, task_ended}
use dpark.TaskSet.Invariant.{IsConsistent, SameBooks, SameBooks-IsConsistent}
use dpark.TaskSet.Status.{
  host_of, notify_finished, task_finished, cancel_unlaunched, cancel_after_fetch, enlarge_memory,
  release_as, raise_memory, note_reason, abort_set, release_task, task_failed_once, task_lost,
  count_launched, react, update_task, status_update, is_fetch_failed, cancelled, is_count,
}

length-raise_memory :
    (m : ℕ) (ls : List Bool) (ts : List Task) → length (raise_memory m ls ts) ≡ length ts
unfolding raise_memory
length-raise_memory m (l ∷ ls) (t ∷ ts) = ap suc (length-raise_memory m ls ts)
length-raise_memory m _ ts = refl

module _ {env : Env} where
  notify-IsConsistent : (s : TaskSet env) → IsConsistent s → IsConsistent (notify_finished env s)
  notify-IsConsistent s c = elim (Bool-cases (is_count s.counter.finished s.counter.n)) [
    | inl p ↦ rw p (SameBooks-IsConsistent (ground arith) c)
    | inr p ↦ rw p c
  ]

  task_finished-IsConsistent :
      (now : ℕ) (s s' : TaskSet env) (i : ℕ) (t : Task) (num_try : ℕ) (payload : env.Payload)
      → IsConsistent s
      → get_elem? s.finished i ≡ some false
      → get_elem? s.launched i ≡ some true
      → task_finished env now s i t num_try payload ≡ ok s'
      → IsConsistent s'
  unfolding task_finished
  task_finished-IsConsistent now s s' i t num_try payload c f l h =
      let (hostname, e, h₁) = >>=-eq-ok (host_of env s t num_try) _ h in
      let (manager, m, h') = >>=-eq-ok (env.task_succeed s.manager t.id hostname) _ h₁ in
      subst IsConsistent (ok-injective h') (
        notify-IsConsistent _ (record {
          tasks = length-set _ _ _ ∙ c.tasks;
          launched = c.launched;
          finished = length-set _ _ _ ∙ c.finished;
          failures = c.failures;
          hosts = length-set _ _ _ ∙ c.hosts;
          launched_count = c.launched_count;
          finished_count = ground (arith, c.finished_count, count_true-set-true s.finished i f);
          covered = Covers-set_both _ _ i c.covered l;
        }))

  released :
      (s : TaskSet env) (i : ℕ) (t : Task) (host : Host) (give_up : Bool) (failures : ℕ)
      → IsConsistent s
      → get_elem? s.finished i ≡ some false
      → get_elem? s.launched i ≡ some true
      → IsConsistent (release_as env s i t host give_up failures)
  unfolding release_as abort_set
  released s i t host true failures c f l = record {
    tasks = length-set _ _ _ ∙ c.tasks;
    launched = length-set _ _ _ ∙ c.launched;
    finished = c.finished;
    failures = length-set _ _ _ ∙ c.failures;
    hosts = length-set _ _ _ ∙ c.hosts;
    launched_count = ground (arith, c.launched_count, count_true-set-false s.launched i l);
    finished_count = c.finished_count;
    covered = Covers-clear _ _ i c.covered f;
  }
  released s i t host false failures c f l = record {
    tasks = length-set _ _ _ ∙ c.tasks;
    launched = length-set _ _ _ ∙ c.launched;
    finished = c.finished;
    failures = length-set _ _ _ ∙ c.failures;
    hosts = length-set _ _ _ ∙ c.hosts;
    launched_count = ground (arith, c.launched_count, count_true-set-false s.launched i l);
    finished_count = c.finished_count;
    covered = Covers-clear _ _ i c.covered f;
  }

  release-IsConsistent :
      (s s' : TaskSet env) (i : ℕ) (host : Host) (give_up : Bool) (failures : ℕ)
      → IsConsistent s
      → get_elem? s.finished i ≡ some false
      → get_elem? s.launched i ≡ some true
      → release_task env s i host give_up failures ≡ ok s'
      → IsConsistent s'
  unfolding release_task
  release-IsConsistent s s' i host give_up failures c f l h =
      let (t, e, h') = >>=-eq-ok (or_raise (get_elem? s.tasks i) index_error) _ h in
      subst IsConsistent (ok-injective h') (released s i t host give_up failures c f l)

  cancel_after_fetch-IsConsistent :
      (s s' : TaskSet env) (i : ℕ) (t : Task) (payload : env.Payload)
      → IsConsistent s
      → get_elem? s.finished i ≡ some false
      → get_elem? s.launched i ≡ some true
      → cancel_after_fetch env s i t payload ≡ ok s'
      → IsConsistent s'
  unfolding cancel_after_fetch
  cancel_after_fetch-IsConsistent s s' i t payload c f l h =
      let c₁ : TaskCounter = record s.counter {
        fail_fetch = s.counter.fail_fetch + 1;
        finished = inc s.counter.finished;
      } in
      let h₁ : (do
        (launched, finished, counter) ← cancel_unlaunched s.launched (set s.finished i true) c₁
        ok (cancelled env s t payload launched finished counter))
          ≡ ok s' =
        rw (f) at h in
      let ((ls, fs, c₂), e, h₂) =
        >>=-eq-ok (cancel_unlaunched s.launched (set s.finished i true) c₁) _ h₁ in
      let r =
        cancel-Cancelled s.launched (set s.finished i true) ls fs c₁ c₂
          (c.launched ∙ sym (length-set _ _ _ ∙ c.finished)) (Covers-set_both _ _ i c.covered l)
          e in
      subst IsConsistent (ok-injective h₂) (
        notify-IsConsistent
          (record s {
            launched = ls;
            finished = fs;
            counter = c₂;
            calls = s.calls ++ task_ended t.id TaskEndReason.fetch_failed payload ∷ [];
          })
          (record {
            tasks = omega (arith, c.tasks, r.n);
            launched = omega (arith, r.launched_len, c.launched, r.n);
            finished = omega (arith, r.finished_len, length-set s.finished i true, c.finished, r.n);
            failures = omega (arith, c.failures, r.n);
            hosts = omega (arith, c.hosts, r.n);
            launched_count = ground (arith, r.launched 0, c.launched_count);
            finished_count =
                ground (arith, r.finished 0, c.finished_count, count_true-set-true s.finished i f);
            covered = r.covered;
          }))

  pub enlarge-SameBooks :
      (s : TaskSet env) (i : ℕ) (t : Task) → SameBooks s (enlarge_memory env s i t)
  unfolding enlarge_memory
  enlarge-SameBooks s i t = grind (arith, length-set, length-raise_memory)

  pub note_reason-SameBooks :
      (s : TaskSet env) (st : TaskState) (r : Option TaskEndReason)
      → SameBooks s (note_reason env s st r)
  unfolding note_reason abort_set
  note_reason-SameBooks s st r = ground arith

  task_failed_once-IsConsistent :
      (s s' : TaskSet env) (i : ℕ) (t : Task) (k : ℕ) (st : TaskState) (r : Option TaskEndReason)
      (failures : ℕ)
      → IsConsistent s
      → get_elem? s.finished i ≡ some false
      → get_elem? s.launched i ≡ some true
      → task_failed_once env s i t k st r failures ≡ ok s'
      → IsConsistent s'
  unfolding task_failed_once
  task_failed_once-IsConsistent s s' i t k st r failures c f l h =
      let (host, e, h') = >>=-eq-ok (host_of env s t k) _ h in
      let noted : TaskSet env =
        if maybe_oom r then enlarge_memory env s i t else note_reason env s st r in
      let b : SameBooks s noted =
        if_either (SameBooks s) (maybe_oom r) (enlarge-SameBooks s i t)
          (note_reason-SameBooks s st r) in
      release-IsConsistent noted s' i host _ failures (SameBooks-IsConsistent b c)
        (ap (λ x. get_elem? x i) b.finished ∙ f) (ap (λ x. get_elem? x i) b.launched ∙ l) h'

  task_lost-IsConsistent :
      (s s' : TaskSet env) (i : ℕ) (t : Task) (k : ℕ) (st : TaskState) (r : Option TaskEndReason)
      (payload : env.Payload)
      → IsConsistent s
      → get_elem? s.finished i ≡ some false
      → get_elem? s.launched i ≡ some true
      → task_lost env s i t k st r payload ≡ ok s'
      → IsConsistent s'
  unfolding task_lost
  task_lost-IsConsistent s s' i t k st r payload c f l h =
      let (failures, e, h') = >>=-eq-ok (or_raise (get_elem? s.num_failures i) index_error) _ h in
      if_cases (is_fetch_failed env r && leb 1 failures) h'
        (λ q.
          if_cases (env.has_server_uri payload) q
            (cancel_after_fetch-IsConsistent s s' i t payload c f l) (λ x. cc x))
        (task_failed_once-IsConsistent s s' i t k st r failures c f l)

  react-IsConsistent :
      (now : ℕ) (s s' : TaskSet env) (i : ℕ) (t : Task) (k : ℕ) (st : TaskState)
      (r : Option TaskEndReason) (payload : env.Payload) (rss : Option ℕ)
      → IsConsistent s
      → get_elem? s.finished i ≡ some false
      → get_elem? s.launched i ≡ some true
      → react env now s i t k st r payload rss ≡ ok s'
      → IsConsistent s'
  unfolding react
  react-IsConsistent now s s' i t k TaskState.running r payload rss c f l h =
      subst IsConsistent (ok-injective h) (
        SameBooks-IsConsistent
          (record {
            tasks = length-set _ _ _;
            launched = refl;
            finished = refl;
            failures = refl;
            hosts = refl;
            n = refl;
            launched_count = refl;
            finished_count = refl;
          })
          c)
  react-IsConsistent now s s' i t k TaskState.finished r payload rss c f l h =
      let d : env.Digest = elim rss [
        | none ↦ s.mem_digest
        | some b ↦ env.digest_add s.mem_digest b
      ] in
      let b : SameBooks s (record s { mem_digest = d }) = record {
        tasks = refl;
        launched = refl;
        finished = refl;
        failures = refl;
        hosts = refl;
        n = refl;
        launched_count = refl;
        finished_count = refl;
      } in
      task_finished-IsConsistent now (record s { mem_digest = d }) s' i t k payload
        (SameBooks-IsConsistent b c) f l h
  react-IsConsistent now s s' i t k st r payload rss c f l h =
      task_lost-IsConsistent s s' i t k st r payload c f l h

  pub count_launched-IsConsistent :
      (s : TaskSet env) (i : ℕ) (b : Bool)
      → IsConsistent s
      → get_elem? s.launched i ≡ some b
      → IsConsistent (count_launched env s i b)
        × (get_elem? (count_launched env s i b).launched i ≡ some true)
  count_launched-IsConsistent s i true c l = (c, l)
  count_launched-IsConsistent s i false c l = (
    record {
      tasks = c.tasks;
      launched = length-set _ _ _ ∙ c.launched;
      finished = c.finished;
      failures = c.failures;
      hosts = c.hosts;
      launched_count = ground (arith, c.launched_count, count_true-set-true s.launched i l);
      finished_count = c.finished_count;
      covered = Covers-set_first _ _ i c.covered;
    },
    get_elem?-set_self s.launched i true (get_elem?-lt s.launched i l),
  )

  count_launched-finished :
      (s : TaskSet env) (i : ℕ) (b : Bool)
      → get_elem? (count_launched env s i b).finished i ≡ get_elem? s.finished i
  count_launched-finished s i true = refl
  count_launched-finished s i false = refl

  update_task-IsConsistent :
      (now : ℕ) (s s' : TaskSet env) (i k : ℕ) (st : TaskState) (r : Option TaskEndReason)
      (payload : env.Payload) (rss : Option ℕ)
      → IsConsistent s
      → update_task env now s i k st r payload rss ≡ ok s'
      → IsConsistent s'
  unfolding update_task
  update_task-IsConsistent now s s' i k st r payload rss c h =
      let (t, te, h₁) = >>=-eq-ok (or_raise (get_elem? s.tasks i) index_error) _ h in
      let (tries, tr, h₂) = >>=-eq-ok (append_try k (st, now) t.tries) _ h₁ in
      let t' : Task = record t { status = some st; tries = tries } in
      let s₁ : TaskSet env = record s { tasks = set s.tasks i t' } in
      let b : SameBooks s s₁ = record {
        tasks = length-set _ _ _;
        launched = refl;
        finished = refl;
        failures = refl;
        hosts = refl;
        n = refl;
        launched_count = refl;
        finished_count = refl;
      } in
      let c₁ = SameBooks-IsConsistent b c in
      let (finished, fe, h₃) = >>=-eq-ok (or_raise (get_elem? s.finished i) index_error) _ h₂ in
      let (launched, le, h₄) = >>=-eq-ok (or_raise (get_elem? s.launched i) index_error) _ h₃ in
      let (c₂, l₂) = count_launched-IsConsistent s₁ i launched c₁ (or_raise-eq-ok _ _ le) in
      if_cases_eq finished h₄ (λ _ e. subst IsConsistent (ok-injective e) c₁)
        (λ q e.
          react-IsConsistent now (count_launched env s₁ i launched) s' i t' k st r payload rss c₂
            (count_launched-finished s₁ i launched ∙ or_raise-eq-ok _ _ fe ∙ ap some q) l₂ e)

  -- If `statusUpdate` returns, it keeps the invariant: whatever status arrives for whichever task,
  -- the counters `launched` and `finished` stay the numbers of flags that are set, and no task is
  -- finished without being launched.
  pub status_update-IsConsistent :
      (now : ℕ) (s s' : TaskSet env) (id : TaskId) (k : ℕ) (st : TaskState)
      (r : Option TaskEndReason) (payload : env.Payload) (rss : Option ℕ)
      → IsConsistent s
      → status_update env now s id k st r payload rss ≡ ok s'
      → IsConsistent s'
  unfolding status_update
  status_update-IsConsistent now s s' id k st r payload rss c h =
      elim (Option-cases (lookup id s.tid_to_index)) [
        | inl p ↦ subst IsConsistent (ground arith) c
        | inr (i, p) ↦ update_task-IsConsistent now s s' i k st r payload rss c (ground arith)
      ]
