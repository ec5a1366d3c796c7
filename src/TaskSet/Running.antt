-- ===== src/TaskSet/Running.antt =====
-- The list of the second loop of `check_task_timeout`: it names each task once, and only tasks
-- that are launched and not finished.
use dpark.Common.{
  ℕ, suc, ◌+◌, ◌-◌, ◌≤◌, ◌≡◌, ◌≢◌, sym, ◌∙◌, ap, Bool, true, false, some, List, [], ◌∷◌, get_elem?,
  get_elem?-set_ne, set, arith, Bool-cases, inl, inr, not, ◌&&◌, ◌||◌, ltb, ◌==◌, if_either,
}
use dpark.Task.{Task}
use dpark.TaskSet.Timeout.{running_tasks, insert_pair, is_running}

abbrev pub Fresh : ℕ → List (ℕ × ℕ) → Type 0
Fresh j [] = Unit
Fresh j ((_, k) ∷ r) = (k ≢ j) × Fresh j r

-- Every place of the list, counted from `i`, is launched and not finished, and none stands twice.
abbrev pub RunsFrom : ℕ → List Bool → List Bool → List (ℕ × ℕ) → Type 0
RunsFrom i ls fs [] = Unit
RunsFrom i ls fs ((_, j) ∷ r) =
    (i ≤ j)
    × (get_elem? ls (j - i) ≡ some true)
    × (get_elem? fs (j - i) ≡ some false)
    × Fresh j r
    × RunsFrom i ls fs r

Fresh-insert :
    (j : ℕ) (p : ℕ × ℕ) (r : List (ℕ × ℕ)) → p.1 ≢ j → Fresh j r → Fresh j (insert_pair p r)
unfolding insert_pair
Fresh-insert j p [] n f = (n, tt)
Fresh-insert j p (q ∷ r) n f =
    if_either (Fresh j) (ltb q.0 p.0 || (q.0 == p.0 && ltb q.1 p.1)) (f.0, Fresh-insert j p r n f.1)
      (n, (f.0, f.1))

module _ (i : ℕ) (ls fs : List Bool) where
  RunsFrom-insert :
      (p : ℕ × ℕ) (r : List (ℕ × ℕ))
      → i ≤ p.1
      → get_elem? ls (p.1 - i) ≡ some true
      → get_elem? fs (p.1 - i) ≡ some false
      → Fresh p.1 r
      → RunsFrom i ls fs r
      → RunsFrom i ls fs (insert_pair p r)
  unfolding insert_pair
  RunsFrom-insert p [] le l f n r = (le, l, f, n, r)
  RunsFrom-insert p (q ∷ qs) le l f n r =
      if_either (RunsFrom i ls fs) (ltb q.0 p.0 || (q.0 == p.0 && ltb q.1 p.1))
        (
          r.0,
          r.1,
          r.2,
          Fresh-insert q.1 p qs (λ e. n.0 (sym e)) r.3,
          RunsFrom-insert p qs le l f n.1 r.4,
        )
        (le, l, f, n, r)

RunsFrom-cons :
    (i : ℕ) (ls fs : List Bool) (l f : Bool) (r : List (ℕ × ℕ))
    → RunsFrom (i + 1) ls fs r
    → RunsFrom i (l ∷ ls) (f ∷ fs) r × Fresh i r
RunsFrom-cons i ls fs l f [] h = (tt, tt)
RunsFrom-cons i ls fs l f ((st, j) ∷ r) h =
    let e : j - i ≡ suc (j - (i + 1)) = omega arith in
    let (rest, fresh) = RunsFrom-cons i ls fs l f r h.4 in
    (
      (omega arith, ap (get_elem? (l ∷ ls)) e ∙ h.1, ap (get_elem? (f ∷ fs)) e ∙ h.2, h.3, rest),
      ((λ p. omega arith), fresh),
    )

pub running_tasks-RunsFrom :
    (i : ℕ) (ls fs : List Bool) (ts : List Task) → RunsFrom i ls fs (running_tasks i ls fs ts)
unfolding running_tasks
running_tasks-RunsFrom i (l ∷ ls) (f ∷ fs) (t ∷ ts) =
    let (rest, fresh) =
      RunsFrom-cons i ls fs l f (running_tasks (i + 1) ls fs ts)
        (running_tasks-RunsFrom (i + 1) ls fs ts) in
    elim (Bool-cases (l && not f && is_running t.status)) [
      | inl p ↦
          let e : i - i ≡ 0 = omega arith in
          rw p (
            RunsFrom-insert i (l ∷ ls) (f ∷ fs) (t.start_time, i) _ (omega arith)
              (ap (get_elem? (l ∷ ls)) e ∙ ground arith) (ap (get_elem? (f ∷ fs)) e ∙ ground arith)
              fresh rest)
      | inr p ↦ rw p rest
    ]
running_tasks-RunsFrom i _ _ _ = tt

-- Clearing the flag of a place that the list does not name
pub RunsFrom-clear :
    (ls fs : List Bool) (j : ℕ) (r : List (ℕ × ℕ))
    → Fresh j r
    → RunsFrom 0 ls fs r
    → RunsFrom 0 (set ls j false) fs r
RunsFrom-clear ls fs j [] n h = tt
RunsFrom-clear ls fs j ((st, k) ∷ r) n h =
    let e : k - 0 ≡ k = omega arith in
    (
      h.0,
      get_elem?-set_ne ls false (λ p. n.0 (sym (p ∙ e))) ∙ h.1,
      h.2,
      h.3,
      RunsFrom-clear ls fs j r n.1 h.4,
    )
