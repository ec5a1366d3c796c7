-- ===== src/HostStatus/Tests.antt =====
-- Runs of the host manager of dpark/hostatus.py, and the theorems at them.
use dpark.Common.{
  ℕ, ◌≡◌, refl, true, Option, some, none, List, [], ◌∷◌, Result, ok, raise, contains, arith,
}
use dpark.Common.Dicts.{has_key}
use dpark.HostStatus.{
  HostManager, register_host, task_failed, task_succeed, task_failed_on_host, new_status,
  should_forbit,
}
use dpark.HostStatus.Choice.{Fraction, at_most, offer_choice}
use dpark.HostStatus.Failures.{
  IsTracked, Forgets, register_host-IsTracked, task_failed-IsTracked, task_succeed-Forgets,
}
use dpark.HostStatus.Choosing.{names, IsAnswer, offer_choice_lem}

abbrev no_hosts : HostManager
no_hosts = record { host_dict = []; failed_dict = [] }

abbrev two_hosts : HostManager
unfolding register_host
two_hosts = register_host 2 300 (register_host 1 300 no_hosts)

abbrev failed_once : HostManager
unfolding task_failed
failed_once = task_failed 10 7 1 two_hosts

no_hosts-IsTracked : IsTracked no_hosts
no_hosts-IsTracked = record { noted = λ id h e. cc; registered = λ id h e. cc }

two_hosts-IsTracked : IsTracked two_hosts
unfolding two_hosts register_host
two_hosts-IsTracked =
    register_host-IsTracked 2 300 (register_host 1 300 no_hosts)
      (register_host-IsTracked 1 300 no_hosts no_hosts-IsTracked)

failed_on_host : task_failed_on_host 7 1 failed_once ≡ true
unfolding task_failed_on_host failed_once two_hosts
failed_on_host = refl

-- Two failures keep a task off a host for 1200 units.
masked_after :
    (should_forbit 1000 7 (record (new_status 300) { failed_tasks = (7, 5 ∷ 10 ∷ []) ∷ [] })).1
    ≡ true
unfolding should_forbit
masked_after = refl

task_succeed-Forgets_example :
    (m' : HostManager) × (task_succeed 20 7 1 failed_once ≡ ok m') × Forgets 7 failed_once m'
unfolding failed_once task_failed
task_succeed-Forgets_example =
    task_succeed-Forgets 20 7 1 failed_once
      (task_failed-IsTracked 10 7 1 two_hosts two_hosts-IsTracked).tracked

abbrev draw_all : Fraction → Fraction
draw_all t = t

draw_all-at_most : (t : Fraction) → at_most (draw_all t) t ≡ true
draw_all-at_most t = ground arith

abbrev two_offers : List (ℕ × (ℕ × ℕ))
two_offers = (1, (0, 70)) ∷ (2, (1, 71)) ∷ []

offered-registered :
    (x : ℕ) → contains (names two_offers) x ≡ true → has_key x failed_once.host_dict ≡ true
unfolding failed_once two_hosts
offered-registered x h = ground arith

abbrev answer_of : {A B : Type 0} → Result (A × Option B) → Option B
answer_of (ok (a, o)) = o
answer_of (raise e) = none

-- the other host is taken while the failure is recent
chosen : answer_of (offer_choice 20 draw_all 7 two_offers [] failed_once) ≡ some (1, 71)
unfolding offer_choice failed_once two_hosts
chosen = refl

offer_choice_lem_example :
    (r : HostManager × Option (ℕ × ℕ)) × (offer_choice 20 draw_all 7 two_offers [] failed_once
      ≡ ok r)
    × IsAnswer 20 draw_all 7 two_offers [] failed_once r.1
offer_choice_lem_example =
    offer_choice_lem 20 draw_all 7 two_offers [] failed_once draw_all-at_most offered-registered
