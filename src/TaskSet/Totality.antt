-- ===== src/TaskSet/Totality.antt =====
-- `statusUpdate` does not raise for a try that was started of a task that the set knows.
use dpark.Common.{
  ℕ, ◌<◌, ◌≡◌, refl, ap, ◌∙◌, Bool, true, false, Option, none, some, List, [], ◌∷◌, length,
  length-set, get_elem?, get_elem?-lt, get_elem?-some, set, arith, Result, ok, raise, or_raise,
  index_error, Bool-cases, inl, inr, if◌then◌else◌, ◌==◌, ◌&&◌, leb, inc, if_either, ◌++◌,
  ok-injective, ◌>>=◌,
}
use dpark.Task.{Task, TaskTry, TaskId, Host, TaskState, TaskEndReason, append_try, maybe_oom}
use dpark.TaskSet.{Env, TaskSet, TaskCounter}
use dpark.TaskSet.Invariant.{IsConsistent, SameBooks, SameBooks-IsConsistent}
use dpark.TaskSet.Accounting.{count_launched-IsConsistent, enlarge-SameBooks, note_reason-SameBooks}
use dpark.TaskSet.Behaviour.{Known}
use dpark.TaskSet.Status.{
  host_of, task_finished, cancel_unlaunched, cancel_after_fetch, enlarge_memory, note_reason,
  release_task, task_failed_once, task_lost, count_launched, react, update_task, status_update,
  is_fetch_failed,
}

-- The call returns.
abbrev pub Returns {ℓ} : {A : Type ℓ} → Result A → Type ℓ
Returns {A} m = (a : A) × (m ≡ ok a)

-- try `k` was started
abbrev pub is_started : ℕ → List (ℕ × TaskTry) → Bool
is_started k [] = false
is_started k ((j, _) ∷ r) = if j == k then true else is_started k r

if_Returns {ℓ} :
    {A : Type ℓ} (b : Bool) {x y : Result A} → Returns x → Returns y → Returns (if b then x else y)
if_Returns true p q = p
if_Returns false p q = q

if_eq_Returns {ℓ} :
    {A : Type ℓ} (b : Bool) {x y : Result A}
    → (b ≡ true → Returns x)
    → Returns y
    → Returns (if b then x else y)
if_eq_Returns true p q = p refl
if_eq_Returns false p q = q

raising_Returns {ℓ} :
    {A : Type ℓ} {b : Bool} {x : Result A} (y : Result A)
    → b ≡ true
    → Returns x
    → Returns (if b then x else y)
raising_Returns y e (a, q) = (a, rw e q)

bind_Returns {ℓ κ} :
    {A : Type ℓ} {B : Type κ} {m : Result A} (f : A → Result B)
    → Returns m
    → ((a : A) → Returns (f a))
    → Returns (m >>= f)
bind_Returns f (a, e) g = let (b, q) = g a in (b, rw e q)

bind_eq_Returns {ℓ κ} :
    {A : Type ℓ} {B : Type κ} (m : Result A) (f : A → Result B) {a : A}
    → m ≡ ok a
    → Returns (f a)
    → Returns (m >>= f)
bind_eq_Returns (ok b) f e (c, q) = (c, ap f (ok-injective e) ∙ q)
bind_eq_Returns (raise x) f e r = cc

append_try_total :
    (k : ℕ) (st : TaskState × ℕ) (l : List (ℕ × TaskTry))
    → is_started k l ≡ true
    → Returns (append_try k st l)
unfolding append_try
append_try_total k st [] h = cc
append_try_total k st ((j, y) ∷ r) h = elim (Bool-cases (j == k)) [
  | inl p ↦ ((j, record y { status = y.status ++ st ∷ [] }) ∷ r, rw p)
  | inr p ↦ let (r', e) = append_try_total k st r (ground arith) in ((j, y) ∷ r', rw (p, e))
]

cancel_total :
    (ls fs : List Bool) (c : TaskCounter)
    → length ls ≡ length fs
    → Returns (cancel_unlaunched ls fs c)
unfolding cancel_unlaunched
cancel_total ls [] c n = (_, refl)
cancel_total [] (f ∷ fs) c n = absurd (omega arith)
cancel_total (l ∷ ls) (f ∷ fs) c n =
    bind_Returns _
      (cancel_total ls fs
        (if l then c else record c { launched = inc c.launched; finished = inc c.finished })
        (omega arith))
      (λ x. (_, refl))

some-or_raise {ℓ} : {A : Type ℓ} {o : Option A} {a : A} → o ≡ some a → or_raise o index_error ≡ ok a
some-or_raise e = ap (λ x. or_raise x index_error) e

elim_some-Returns {ℓ κ} :
    {A : Type ℓ} {B : Type κ} {o : Option A} {a : A} (n : Result B) (f : A → Result B)
    → o ≡ some a
    → Returns (f a)
    → Returns (elim o [ none ↦ n | some x ↦ f x ])
elim_some-Returns n f e (b, q) = (b, rw e q)

get_Returns {ℓ} :
    {A : Type ℓ} (l : List A) (i : ℕ)
    → i < length l
    → Returns (or_raise (get_elem? l i) index_error)
get_Returns l i h = let (a, e) = get_elem?-some l i h in (a, rw e)

module _ {env : Env} where
  lost_total :
      (s : TaskSet env) (i k : ℕ) (t : Task) (st : TaskState) (r : Option TaskEndReason)
      (payload : env.Payload)
      → IsConsistent s
      → i < length s.tasks
      → Returns (host_of env s t k)
      → (is_fetch_failed env r ≡ true → env.has_server_uri payload ≡ true)
      → Returns (task_lost env s i t k st r payload)
  unfolding task_lost cancel_after_fetch task_failed_once release_task
  lost_total s i k t st r payload c lt host uri =
      let books : SameBooks s
          (if maybe_oom r then enlarge_memory env s i t else note_reason env s st r) =
        if_either (SameBooks s) (maybe_oom r) (enlarge-SameBooks s i t)
          (note_reason-SameBooks s st r) in
      bind_Returns _ (get_Returns s.num_failures i (omega (arith, c.tasks, c.failures)))
        (λ failures.
          if_eq_Returns (is_fetch_failed env r && leb 1 failures)
            (λ q. raising_Returns _ (uri (ground arith)) (
              bind_Returns _ (get_Returns s.finished i (omega (arith, c.tasks, c.finished)))
                (λ done.
                  bind_Returns _
                    (cancel_total s.launched (set s.finished i true) _
                      (omega (arith, c.launched, c.finished, length-set s.finished i true)))
                    (λ x. (_, refl)))))
            (bind_Returns _ host (λ h.
              bind_Returns _
                (get_Returns
                  (if maybe_oom r then enlarge_memory env s i t else note_reason env s st r).tasks i
                  (omega (arith, lt, books.tasks)))
                (λ t'. (_, refl)))))

  -- What does not come from the set: the host statistics return for a success, and an exception
  -- with a `serverUri` comes with the reason fetch_failed.
  pub record CanEnd (s : TaskSet env) (t : Task) (k : ℕ) (st : TaskState) (r : Option TaskEndReason)
      (payload : env.Payload) : Type 0 where
    pub succeeds :
        st ≡ TaskState.finished
        → (h : Host) → host_of env s t k ≡ ok h
        → Returns (env.task_succeed s.manager t.id h)
    pub uri : is_fetch_failed env r ≡ true → env.has_server_uri payload ≡ true

  react_total :
      (now : ℕ) (s : TaskSet env) (i k : ℕ) (t : Task) (st : TaskState) (r : Option TaskEndReason)
      (payload : env.Payload) (rss : Option ℕ)
      → IsConsistent s
      → i < length s.tasks
      → Returns (host_of env s t k)
      → CanEnd s t k st r payload
      → Returns (react env now s i t k st r payload rss)
  unfolding react task_finished
  react_total now s i k t TaskState.running r payload rss c lt host ends = (_, refl)
  react_total now s i k t TaskState.finished r payload rss c lt (h, e) ends =
      bind_eq_Returns _ _ e (bind_Returns _ (ends.succeeds refl h e) (λ manager. (_, refl)))
  react_total now s i k t st r payload rss c lt host ends =
      lost_total s i k t st r payload c lt host ends.uri

  react_counted :
      (now : ℕ) (s : TaskSet env) (i k : ℕ) (t : Task) (st : TaskState) (r : Option TaskEndReason)
      (payload : env.Payload) (rss : Option ℕ) (launched : Bool)
      → IsConsistent s
      → i < length s.tasks
      → Returns (host_of env s t k)
      → CanEnd s t k st r payload
      → get_elem? s.launched i ≡ some launched
      → Returns (react env now (count_launched env s i launched) i t k st r payload rss)
  react_counted now s i k t st r payload rss true c lt host ends l =
      react_total now s i k t st r payload rss c lt host ends
  react_counted now s i k t st r payload rss false c lt host ends l =
      react_total now (count_launched env s i false) i k t st r payload rss
        (count_launched-IsConsistent s i false c l).0 lt host
        (record { succeeds = ends.succeeds; uri = ends.uri })

  -- On a consistent set `statusUpdate` returns for every status of a started try of a task that the
  -- set knows, if `task_succeed` of the host statistics returns for that task and host where the
  -- status is `finished`, and an exception with a `serverUri` comes with the reason `fetch_failed`.
  pub status_update_total :
      (now : ℕ) (s : TaskSet env) (id : TaskId) (k i : ℕ) (t : Task) (h : Host) (st : TaskState)
      (r : Option TaskEndReason) (payload : env.Payload) (rss : Option ℕ)
      → IsConsistent s
      → Known s id k i t h
      → is_started k t.tries ≡ true
      → CanEnd s t k st r payload
      → Returns (status_update env now s id k st r payload rss)
  unfolding status_update update_task
  status_update_total now s id k i t h st r payload rss c known started ends =
      elim_some-Returns _ _ known.indexed (
        bind_eq_Returns _ _ (some-or_raise known.task) (
          bind_Returns _ (append_try_total k (st, now) t.tries started) (λ tries.
            let t' : Task = record t { status = some st; tries = tries } in
            let s₁ : TaskSet env = record s { tasks = set s.tasks i t' } in
            let lt = get_elem?-lt s.tasks i known.task in
            let (launched, l) =
              get_elem?-some s.launched i (omega (arith, lt, c.tasks, c.launched)) in
            bind_Returns _ (get_Returns s.finished i (omega (arith, lt, c.tasks, c.finished)))
              (λ finished. bind_eq_Returns _ _ (some-or_raise l) (
                if_Returns finished (_, refl)
                  (react_counted now s₁ i k t' st r payload rss launched
                    (SameBooks-IsConsistent
                      (record {
                        tasks = length-set _ _ _;
                        launched = refl;
                        finished = refl;
                        failures = refl;
                        hosts = refl;
                        n = refl;
                        launched_count = refl;
                        finished_count = refl;
                      })
                      c)
                    (omega (arith, lt, length-set s.tasks i t')) (h, known.host)
                    (record { succeeds = ends.succeeds; uri = ends.uri }) l))))))
