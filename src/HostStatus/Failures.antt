-- ===== src/HostStatus/Failures.antt =====
-- The failures that the host manager notes: what each operation of dpark/hostatus.py changes of
-- them, and that a success erases them all.
use dpark.Common.{
  ℕ, ◌≡◌, refl, sym, ◌∙◌, Bool, true, false, not, ◌&&◌, ◌||◌, none, some, List, [], ◌∷◌, ◌++◌,
  contains, lookup, ◌==◌, if◌then◌else◌, ok, key_error, or_raise, >>=-eq-ok, or_raise-eq-ok, arith,
  Bool-cases, inl, inr, Option-cases,
}
use mathlib.Core.Path.{subst}
use dpark.Common.Dicts.{
  put, delete, has_key, lookup-put_same, lookup-put_other, lookup-delete_same, lookup-delete_other,
}
use dpark.Task.{TaskId, Host}
use dpark.HostStatus.{
  HostStatus, HostManager, status_succeed, status_failed, erase_failed_task, failed_on, new_status,
  register_host, task_failed_on_host, erase_on_hosts, succeed_on_host, forget_failures,
  task_succeed, task_failed, add_host,
}

-- the dictionary of hosts has a failure of the task on the host
abbrev pub fails_in : List (Host × HostStatus) → TaskId → Host → Bool
fails_in d id host = elim (lookup host d) [ none ↦ false | some h ↦ failed_on id h ]

-- the host is noted among those on which the task failed
abbrev pub is_noted : List (TaskId × List Host) → TaskId → Host → Bool
is_noted f id host = elim (lookup id f) [ none ↦ false | some hosts ↦ contains hosts host ]

module _ {ℓ} {V : Type ℓ} where
  pub has_key-put :
      (k i : ℕ) (v : V) (m : List (ℕ × V)) → has_key i (put k v m) ≡ ((k == i) || has_key i m)
  has_key-put k i v m = elim (Bool-cases (k == i)) [
    | inl p ↦ ground (arith, lookup-put_same k v m)
    | inr p ↦ ground (arith, lookup-put_other k i v m p)
  ]

  pub has_key-delete :
      (k i : ℕ) (m : List (ℕ × V)) → has_key i (delete k m) ≡ (not (k == i) && has_key i m)
  has_key-delete k i m = elim (Bool-cases (k == i)) [
    | inl p ↦ ground (arith, lookup-delete_same k m)
    | inr p ↦ ground (arith, lookup-delete_other k i m p)
  ]

failed_on-succeed :
    (now : ℕ) (id i : TaskId) (h : HostStatus)
    → failed_on i (status_succeed now id h) ≡ (not (id == i) && failed_on i h)
unfolding status_succeed
failed_on-succeed now id i h = ground (arith, has_key-delete id i h.failed_tasks)

failed_on-failed :
    (now : ℕ) (id i : TaskId) (h : HostStatus)
    → failed_on i (status_failed now id h) ≡ ((id == i) || failed_on i h)
unfolding status_failed
failed_on-failed now id i h = elim (Option-cases (lookup id h.failed_tasks)) [
  | inl p ↦ ground (arith, has_key-put id i (now ∷ []) h.failed_tasks)
  | inr (l, p) ↦ ground (arith, has_key-put id i (l ++ now ∷ []) h.failed_tasks)
]

failed_on-erase :
    (id i : TaskId) (h : HostStatus)
    → failed_on i (erase_failed_task id h) ≡ (not (id == i) && failed_on i h)
unfolding erase_failed_task
failed_on-erase id i h = ground (arith, has_key-delete id i h.failed_tasks)

pub fails_in-put :
    (d : List (Host × HostStatus)) (host host' : Host) (h : HostStatus) (i : TaskId)
    → fails_in (put host h d) i host'
      ≡ (if host == host' then failed_on i h else fails_in d i host')
fails_in-put d host host' h i = elim (Bool-cases (host == host')) [
  | inl p ↦ ground (arith, lookup-put_same host h d)
  | inr p ↦ ground (arith, lookup-put_other host host' h d p)
]

pub erase_on_hosts-fails :
    (id : TaskId) (hosts : List Host) (d d' : List (Host × HostStatus))
    → erase_on_hosts id hosts d ≡ ok d'
    → (i : TaskId) (host : Host)
    → fails_in d' i host ≡ (not ((id == i) && contains hosts host) && fails_in d i host)
unfolding erase_on_hosts
erase_on_hosts-fails id [] d d' e i host = ground arith
erase_on_hosts-fails id (x ∷ xs) d d' e i host =
    let (h, l, e') = >>=-eq-ok (or_raise (lookup x d) key_error) _ e in
    let r = erase_on_hosts-fails id xs (put x (erase_failed_task id h) d) d' e' i host in
    let p = fails_in-put d x host (erase_failed_task id h) i in
    let q = failed_on-erase id i h in
    let l' = or_raise-eq-ok (lookup x d) key_error l in ground arith

pub erase_on_hosts-has_key :
    (id : TaskId) (hosts : List Host) (d d' : List (Host × HostStatus))
    → erase_on_hosts id hosts d ≡ ok d'
    → (host : Host) → has_key host d' ≡ has_key host d
unfolding erase_on_hosts
erase_on_hosts-has_key id [] d d' e host = ground arith
erase_on_hosts-has_key id (x ∷ xs) d d' e host =
    let (h, l, e') = >>=-eq-ok (or_raise (lookup x d) key_error) _ e in
    let r = erase_on_hosts-has_key id xs (put x (erase_failed_task id h) d) d' e' host in
    let p = has_key-put x host (erase_failed_task id h) d in
    let l' = or_raise-eq-ok (lookup x d) key_error l in ground arith

pub erase_on_hosts-total :
    (id : TaskId) (hosts : List Host) (d : List (Host × HostStatus))
    → ((host : Host) → contains hosts host ≡ true → has_key host d ≡ true)
    → (d' : List (Host × HostStatus)) × (erase_on_hosts id hosts d ≡ ok d')
unfolding erase_on_hosts
erase_on_hosts-total id [] d r = (d, refl)
erase_on_hosts-total id (x ∷ xs) d r = elim (Option-cases (lookup x d)) [
  | inl p ↦ ground (arith, r x)
  | inr (h, p) ↦
      let (d', e) =
        erase_on_hosts-total id xs (put x (erase_failed_task id h) d)
          (λ host c. ground (arith, has_key-put x host (erase_failed_task id h) d, r host)) in
      (d', ground arith)
]

is_noted-put :
    (f : List (TaskId × List Host)) (id i : TaskId) (hosts : List Host) (host : Host)
    → is_noted (put id hosts f) i host
      ≡ (if id == i then contains hosts host else is_noted f i host)
is_noted-put f id i hosts host = elim (Bool-cases (id == i)) [
  | inl p ↦ ground (arith, lookup-put_same id hosts f)
  | inr p ↦ ground (arith, lookup-put_other id i hosts f p)
]

is_noted-delete :
    (f : List (TaskId × List Host)) (id i : TaskId) (host : Host)
    → is_noted (delete id f) i host ≡ (not (id == i) && is_noted f i host)
is_noted-delete f id i host = elim (Bool-cases (id == i)) [
  | inl p ↦ ground (arith, lookup-delete_same id f)
  | inr p ↦ ground (arith, lookup-delete_other id i f p)
]

contains-add_host :
    (host : Host) (hosts : List Host) (x : Host)
    → contains (add_host host hosts) x ≡ ((x == host) || contains hosts x)
contains-add_host host hosts x = ground arith

-- Every failure that a host status has is noted with the task, on a host that is registered.
pub record IsTracked (m : HostManager) : Type 0 where
  pub noted :
      (id : TaskId) (host : Host)
      → fails_in m.host_dict id host ≡ true
      → is_noted m.failed_dict id host ≡ true
  pub registered :
      (id : TaskId) (host : Host)
      → is_noted m.failed_dict id host ≡ true
      → has_key host m.host_dict ≡ true

pub register_host-IsTracked :
    (host : Host) (elapsed : ℕ) (m : HostManager)
    → IsTracked m
    → IsTracked (register_host host elapsed m)
unfolding register_host
register_host-IsTracked host elapsed m t = record {
  noted = λ id h e.
      ground (arith, fails_in-put m.host_dict host h (new_status elapsed) id, t.noted id h);
  registered = λ id h e.
      ground (arith, has_key-put host h (new_status elapsed) m.host_dict, t.registered id h);
}

abbrev noted_failure : ℕ → TaskId → Host → HostManager → HostStatus → List Host → HostManager
noted_failure now id host m h hosts = record {
  host_dict = put host (status_failed now id h) m.host_dict;
  failed_dict = put id (add_host host hosts) m.failed_dict;
}

-- After a failure of task `id` on `host`: on a host that is registered it is noted, all else that is
-- noted and the registered hosts are the same, and the invariant stays.
pub record Notes (id : TaskId) (host : Host) (m m' : HostManager) : Type 0 where
  pub tracked : IsTracked m'
  pub noted :
      (i : TaskId) (x : Host)
      → task_failed_on_host i x m'
        ≡ ((id == i && host == x && has_key host m.host_dict) || task_failed_on_host i x m)
  pub hosts : (x : Host) → has_key x m'.host_dict ≡ has_key x m.host_dict

pub task_failed-IsTracked :
    (now : ℕ) (id : TaskId) (host : Host) (m : HostManager)
    → IsTracked m
    → Notes id host m (task_failed now id host m)
unfolding task_failed task_failed_on_host
task_failed-IsTracked now id host m t = elim (Option-cases (lookup host m.host_dict)) [
  | inl p ↦
      let q : m ≡ task_failed now id host m = ground arith in
      subst (Notes id host m) q
        (record { tracked = t; noted = λ i x. ground arith; hosts = λ x. refl })
  | inr (h, p) ↦
      let hosts : List Host = elim (lookup id m.failed_dict) [ none ↦ [] | some hs ↦ hs ] in
      let q : task_failed now id host m ≡ noted_failure now id host m h hosts = ground arith in
      subst (Notes id host m) (sym q) record {
        tracked = record {
          noted = λ i x e. ground (
            arith,
            fails_in-put m.host_dict host x (status_failed now id h) i,
            failed_on-failed now id i h,
            is_noted-put m.failed_dict id i (add_host host hosts) x,
            contains-add_host host hosts x,
            t.noted i x,
          );
          registered = λ i x e. ground (
            arith,
            has_key-put host x (status_failed now id h) m.host_dict,
            is_noted-put m.failed_dict id i (add_host host hosts) x,
            contains-add_host host hosts x,
            t.registered i x,
          );
        };
        noted = λ i x. ground (
          arith,
          fails_in-put m.host_dict host x (status_failed now id h) i,
          failed_on-failed now id i h,
        );
        hosts = λ x. ground (arith, has_key-put host x (status_failed now id h) m.host_dict);
      }
]

succeed_on_host-fails :
    (now : ℕ) (id : TaskId) (host : Host) (m : HostManager) (i : TaskId) (x : Host)
    → fails_in (succeed_on_host now id host m).host_dict i x
      ≡ (not ((id == i) && (host == x)) && fails_in m.host_dict i x)
unfolding succeed_on_host
succeed_on_host-fails now id host m i x = elim (Option-cases (lookup host m.host_dict)) [
  | inl p ↦ ground arith
  | inr (h, p) ↦ ground (
    arith,
    fails_in-put m.host_dict host x (status_succeed now id h) i,
    failed_on-succeed now id i h,
  )
]

succeed_on_host-has_key :
    (now : ℕ) (id : TaskId) (host : Host) (m : HostManager) (x : Host)
    → has_key x (succeed_on_host now id host m).host_dict ≡ has_key x m.host_dict
unfolding succeed_on_host
succeed_on_host-has_key now id host m x = elim (Option-cases (lookup host m.host_dict)) [
  | inl p ↦ ground arith
  | inr (h, p) ↦ ground (arith, has_key-put host x (status_succeed now id h) m.host_dict)
]

succeed_on_host-failed_dict :
    (now : ℕ) (id : TaskId) (host : Host) (m : HostManager)
    → (succeed_on_host now id host m).failed_dict ≡ m.failed_dict
unfolding succeed_on_host
succeed_on_host-failed_dict now id host m = ground arith

-- what is left after `task_succeed`: the hosts and the failures of other tasks
pub record Forgets (id : TaskId) (m m' : HostManager) : Type 0 where
  pub tracked : IsTracked m'
  pub erased : (host : Host) → task_failed_on_host id host m' ≡ false
  pub others :
      (i : TaskId) (host : Host)
      → (id == i) ≡ false
      → task_failed_on_host i host m' ≡ task_failed_on_host i host m
  pub hosts : (host : Host) → has_key host m'.host_dict ≡ has_key host m.host_dict

forget_failures-Forgets :
    (id : TaskId) (m : HostManager)
    → IsTracked m
    → (m' : HostManager) × (forget_failures id m ≡ ok m') × Forgets id m m'
unfolding forget_failures task_failed_on_host
forget_failures-Forgets id m t = elim (Option-cases (lookup id m.failed_dict)) [
  | inl p ↦ (
    m,
    ground arith,
    record {
      tracked = t;
      erased = λ host. ground (arith, t.noted id host);
      others = λ i host n. refl;
      hosts = λ host. refl;
    },
  )
  | inr (hosts, p) ↦
      let (d, e) =
        erase_on_hosts-total id hosts m.host_dict (λ x c. ground (arith, t.registered id x)) in
      let fails = erase_on_hosts-fails id hosts m.host_dict d e in
      let keys = erase_on_hosts-has_key id hosts m.host_dict d e in
      (
        record { host_dict = d; failed_dict = delete id m.failed_dict },
        ground arith,
        record {
          tracked = record {
            noted = λ i x h.
                ground (arith, fails i x, is_noted-delete m.failed_dict id i x, t.noted i x);
            registered = λ i x h.
                ground (arith, keys x, is_noted-delete m.failed_dict id i x, t.registered i x);
          };
          erased = λ x. ground (arith, fails id x, t.noted id x);
          others = λ i x n. ground (arith, fails i x);
          hosts = keys;
        },
      )
]

-- `task_succeed` returns. Afterwards no host has a failure of the task, the failures of other
-- tasks and the registered hosts are the same, and the invariant stays.
pub task_succeed-Forgets :
    (now : ℕ) (id : TaskId) (host : Host) (m : HostManager)
    → IsTracked m
    → (m' : HostManager) × (task_succeed now id host m ≡ ok m') × Forgets id m m'
unfolding task_succeed task_failed_on_host
task_succeed-Forgets now id host m t =
    let m₁ = succeed_on_host now id host m in
    let fe = succeed_on_host-failed_dict now id host m in
    let fails = succeed_on_host-fails now id host m in
    let keys = succeed_on_host-has_key now id host m in
    let t₁ : IsTracked m₁ = record {
      noted = λ i x h. ground (arith, fe, fails i x, t.noted i x);
      registered = λ i x h. ground (arith, fe, keys x, t.registered i x);
    } in
    let (m', e, f) = forget_failures-Forgets id m₁ t₁ in
    (
      m',
      e,
      record {
        tracked = f.tracked;
        erased = f.erased;
        others = λ i x n. f.others i x n ∙ ground (arith, fails i x);
        hosts = λ x. f.hosts x ∙ keys x;
      },
    )
