-- ===== src/TaskSet/Behaviour.antt =====
-- What `statusUpdate` does on its branches, for a task that the set knows.
use dpark.Common.{
  ℕ, ◌+◌, ◌-◌, ◌≡◌, refl, sym, ap, ◌∙◌, Bool, true, false, Option, some, [], ◌∷◌, ◌++◌, pos, inc,
  get_elem?, get_elem?-set_self, get_elem?-lt, set, count_true, lookup, arith, ok, >>=-eq-ok,
  if◌then◌else◌, ◌==◌, get_elem?-some, ◌>>=◌, ok-injective, max, List, zero, suc, ◌<◌, ◌≤◌,
  contains, ltb, leb, not, ◌&&◌, map, Bool-cases, inl, inr, or_raise, index_error,
}
use mathlib.Core.List.{append-nil}
use dpark.Common.Flags.{count_true-set-true}
use dpark.Task.{Task, TaskTry, TaskId, Host, TaskState, TaskEndReason, append_try}
use dpark.TaskSet.{Env, TaskSet, task_ended, kill_task, taskset_finished}
use dpark.TaskSet.Invariant.{IsConsistent}
use dpark.TaskSet.Status.{
  host_of, notify_finished, task_finished, kill_others, count_launched, react, update_task,
  status_update,
}

-- The numbers are above `lo` and rise, so each comes once.
abbrev pub IsRising : ℕ → List ℕ → Type 0
IsRising lo [] = Unit
IsRising lo (x ∷ xs) = (lo < x) × IsRising x xs

IsRising-le : (lo hi : ℕ) (xs : List ℕ) → lo ≤ hi → IsRising hi xs → IsRising lo xs
IsRising-le lo hi [] l r = tt
IsRising-le lo hi (x ∷ xs) l (a, r) = (omega (arith, l, a), r)

-- The calls of `kill_others` for the tries above `m` and up to `m + n`, as numbers.
record Kills (P : Type 0) (id : TaskId) (n m k : ℕ) : Type 0 where
  kills : List ℕ
  calls : kill_others {P = P} id n m k ≡ map (λ j. kill_task id j) kills
  rising : IsRising m kills
  killed : (j : ℕ) → contains kills j ≡ (ltb m j && leb j (m + n) && not (j == k))

kill_others-Kills : (P : Type 0) (id : TaskId) (n m k : ℕ) → Kills P id n m k
unfolding kill_others
kill_others-Kills P id zero m k = record {
  kills = [];
  calls = refl;
  rising = tt;
  killed = λ j. ground arith;
}
kill_others-Kills P id (suc n) m k =
    let r = kill_others-Kills P id n (m + 1) k in
    elim (Bool-cases (m + 1 == k)) [
      | inl p ↦ record {
        kills = r.kills;
        calls = rw p r.calls;
        rising = IsRising-le m (m + 1) r.kills (omega arith) r.rising;
        killed = λ j. ground (arith, r.killed j);
      }
      | inr p ↦ record {
        kills = (m + 1) ∷ r.kills;
        calls = rw (p, r.calls) refl;
        rising = (omega arith, r.rising);
        killed = λ j. ground (arith, r.killed j);
      }
    ]

module _ {env : Env} where
  -- The facts under which a status for task `id`, try `k`, reaches the task `t` at place `i`.
  pub record Known (s : TaskSet env) (id : TaskId) (k i : ℕ) (t : Task) (h : Host) : Type 0 where
    pub indexed : lookup id s.tid_to_index ≡ some i
    pub task : get_elem? s.tasks i ≡ some t
    pub host : host_of env s t k ≡ ok h

  -- The step from `s` to `s'` is the end of try `k` of the task `id` at place `i`, which was
  -- started `tries` times.
  pub record Finishes (s s' : TaskSet env) (i k : ℕ) (id : TaskId) (tries : ℕ)
      (payload : env.Payload) : Type 0 where
    pub flag : get_elem? s'.finished i ≡ some true
    pub counted : count_true s'.finished ≡ count_true s.finished + 1
    pub kills : List ℕ
    pub rising : IsRising 0 kills
    pub killed : (j : ℕ) → contains kills j ≡ (ltb 0 j && leb j tries && not (j == k))
    pub told :
        s'.calls
        ≡ s.calls
          ++ (task_ended id TaskEndReason.success payload ∷ map (λ j. kill_task id j) kills)
          ++ (if count_true s'.finished == s.counter.n then taskset_finished ∷ [] else [])

  notify-calls :
      (s : TaskSet env) (m : ℕ)
      → s.counter.finished ≡ pos m
      → (notify_finished env s).calls
        ≡ s.calls ++ (if m == s.counter.n then taskset_finished ∷ [] else [])
  notify-calls s m e = ground (arith, append-nil s.calls)

  notify-finished : (s : TaskSet env) → (notify_finished env s).finished ≡ s.finished
  notify-finished s = ground arith

  task_finished-Finishes :
      (now : ℕ) (s s' : TaskSet env) (i k : ℕ) (t : Task) (payload : env.Payload)
      → s.counter.finished ≡ pos (count_true s.finished)
      → get_elem? s.finished i ≡ some false
      → task_finished env now s i t k payload ≡ ok s'
      → Finishes s s' i k t.id t.num_try payload
  unfolding task_finished
  task_finished-Finishes now s s' i k t payload c f e =
      let (host, he, h₀) = >>=-eq-ok (host_of env s t k) _ e in
      let (manager, me, h₁) = >>=-eq-ok (env.task_succeed s.manager t.id host) _ h₀ in
      let kills = kill_others-Kills env.Payload t.id t.num_try 0 k in
      let used = t.time_used + (now - t.start_time) in
      let s₁ : TaskSet env = record s {
        finished = set s.finished i true;
        counter = record s.counter { finished = inc s.counter.finished };
        tasks = set s.tasks i (record t { time_used = used });
        total_time_used = s.total_time_used + used;
        max_task_time = max s.max_task_time used;
        running_hosts = set s.running_hosts i [];
        manager = manager;
        calls =
            s.calls
            ++ (task_ended t.id TaskEndReason.success payload ∷ kill_others t.id t.num_try 0 k);
      } in
      let p : s' ≡ notify_finished env s₁ = sym (ok-injective h₁) in
      let q : s'.finished ≡ set s.finished i true = ap (λ x. x.finished) p ∙ notify-finished s₁ in
      let n : count_true s'.finished ≡ count_true s.finished + 1 =
        ap count_true q ∙ count_true-set-true s.finished i f in
      record {
        flag =
            ap (λ x. get_elem? x i) q
            ∙ get_elem?-set_self s.finished i true (get_elem?-lt s.finished i f);
        counted = n;
        kills = kills.kills;
        rising = kills.rising;
        killed = λ j. ground (arith, kills.killed j);
        told =
            rw (← kills.calls) (
              ap (λ x. x.calls) p
              ∙ notify-calls s₁ (count_true s'.finished) (ground (arith, c, n)));
      }

  Finishes-cong :
      {s s₁ s' : TaskSet env} {i k : ℕ} {id : TaskId} {n : ℕ} {payload : env.Payload}
      → s₁.finished ≡ s.finished
      → s₁.calls ≡ s.calls
      → s₁.counter.n ≡ s.counter.n
      → Finishes s₁ s' i k id n payload
      → Finishes s s' i k id n payload
  Finishes-cong ef ec en r = record {
    flag = r.flag;
    counted = r.counted ∙ ap (λ l. count_true l + 1) ef;
    kills = r.kills;
    rising = r.rising;
    killed = r.killed;
    told = rw (← ec, ← en) r.told;
  }

  finish_counted :
      (now : ℕ) (s s₁ s' : TaskSet env) (i k : ℕ) (t : Task) (payload : env.Payload)
      (launched : Bool) (digest : env.Digest)
      → s₁.finished ≡ s.finished
      → s₁.calls ≡ s.calls
      → s₁.counter ≡ s.counter
      → s.counter.finished ≡ pos (count_true s.finished)
      → get_elem? s.finished i ≡ some false
      → task_finished env now
          (record (count_launched env s₁ i launched) { mem_digest = digest })
          i
          t
          k
          payload
        ≡ ok s'
      → Finishes s s' i k t.id t.num_try payload
  finish_counted now s s₁ s' i k t payload true digest ef ec en c f h =
      Finishes-cong ef ec (ap (λ x. x.n) en) (
        task_finished-Finishes now (record s₁ { mem_digest = digest }) s' i k t payload
          (ap (λ x. x.finished) en ∙ c ∙ ap (λ l. pos (count_true l)) (sym ef))
          (ap (λ l. get_elem? l i) ef ∙ f) h)
  finish_counted now s s₁ s' i k t payload false digest ef ec en c f h =
      Finishes-cong ef ec (ap (λ x. x.n) en) (
        task_finished-Finishes now (record (count_launched env s₁ i false) { mem_digest = digest })
          s' i k t payload (ap (λ x. x.finished) en ∙ c ∙ ap (λ l. pos (count_true l)) (sym ef))
          (ap (λ l. get_elem? l i) ef ∙ f) h)

  update_task-unfinished :
      (now : ℕ) (s : TaskSet env) (i k : ℕ) (t : Task) (st : TaskState) (r : Option TaskEndReason)
      (payload : env.Payload) (rss : Option ℕ) (launched : Bool)
      → get_elem? s.tasks i ≡ some t
      → get_elem? s.finished i ≡ some false
      → get_elem? s.launched i ≡ some launched
      → update_task env now s i k st r payload rss ≡ (
          append_try k (st, now) t.tries >>= λ tries.
          let t' = record t { status = some st; tries = tries } in
          react env now
            (count_launched env (record s { tasks = set s.tasks i t' }) i launched)
            i
            t'
            k
            st
            r
            payload
            rss)
  unfolding update_task
  update_task-unfinished now s i k t st r payload rss launched te f l = simp (te, f, l)

  module _ (now : ℕ) (s : TaskSet env) (id : TaskId) (k i : ℕ) (t : Task) (h : Host)
      (r : Option TaskEndReason) (payload : env.Payload) (rss : Option ℕ)
      (known : Known s id k i t h) where
    -- If `statusUpdate` returns on a status of a task that is finished, it changes the status of
    -- that task, and adds it with the time to the states of the try: nothing else of the set, no
    -- other task, and no call of the scheduler.
    pub finished_ignored :
        (st : TaskState) (s' : TaskSet env)
        → get_elem? s.finished i ≡ some true
        → status_update env now s id k st r payload rss ≡ ok s'
        → (tries : List (ℕ × TaskTry)) × (append_try k (st, now) t.tries ≡ ok tries)
          × (s' ≡ record s { tasks = set s.tasks i (record t { status = some st; tries = tries }) })
    unfolding status_update update_task
    finished_ignored st s' f e =
        let e₁ : update_task env now s i k st r payload rss ≡ ok s' =
          ground (arith, known.indexed) in
        let h₁ : (append_try k (st, now) t.tries >>= λ tries.
        or_raise (get_elem? s.launched i) index_error >>= λ launched.
        ok (record s { tasks = set s.tasks i (record t { status = some st; tries = tries }) }))
            ≡ ok s' =
          rw (known.task, f) at e₁ in
        let (tries, tr, h₂) = >>=-eq-ok (append_try k (st, now) t.tries) _ h₁ in
        let (launched, le, h₃) = >>=-eq-ok (or_raise (get_elem? s.launched i) index_error) _ h₂ in
        (tries, tr, sym (ok-injective h₃))

    finish_step :
        (s' : TaskSet env) (launched : Bool)
        → IsConsistent s
        → get_elem? s.finished i ≡ some false
        → get_elem? s.launched i ≡ some launched
        → update_task env now s i k TaskState.finished r payload rss ≡ ok s'
        → Finishes s s' i k t.id t.num_try payload
    unfolding react
    finish_step s' launched c f l e =
        let (tries, tr, h₂) = >>=-eq-ok (append_try k (TaskState.finished, now) t.tries) _ (
          sym (
            update_task-unfinished now s i k t TaskState.finished r payload rss launched known.task
              f l)
          ∙ e) in
        let t' : Task = record t { status = some TaskState.finished; tries = tries } in
        let s₁ : TaskSet env = record s { tasks = set s.tasks i t' } in
        finish_counted now s s₁ s' i k t' payload launched _ refl refl refl c.finished_count f h₂

    -- The first status `finished` of a task that a consistent set knows, if `statusUpdate` returns:
    -- the task is counted, and the scheduler is told its success, then to kill each other try that
    -- was started, once each, and then the end of the set if no task is left.
    pub finish_lem :
        (s' : TaskSet env)
        → IsConsistent s
        → get_elem? s.finished i ≡ some false
        → status_update env now s id k TaskState.finished r payload rss ≡ ok s'
        → Finishes s s' i k t.id t.num_try payload
    unfolding status_update
    finish_lem s' c f e =
        let (launched, l) =
          get_elem?-some s.launched i
            (omega (arith, get_elem?-lt s.finished i f, c.launched, c.finished)) in
        finish_step s' launched c f l (ground (arith, known.indexed))
