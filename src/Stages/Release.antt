-- ===== src/Stages/Release.antt =====
-- The stages that `runJob` of dpark/schedule.py takes out of `waiting` when a map stage has ended.
use dpark.Common.{
  ℕ, suc, ◌≡◌, refl, sym, ap, ◌∙◌, true, ◌||◌, List, [], ◌∷◌, contains, ◌==◌, arith, Bool-cases,
  inl, inr,
}
use dpark.Stages.{Program, get_missing, Sched, submit_each, submit_missing_tasks}
use dpark.Stages.Events.{runnable, blocked, insert_all, release_waiting}
use dpark.Stages.Live.{is_active, IsLive, IsBlocked}
use dpark.Stages.Submit.{List-cases}
use dpark.Stages.Sets.{contains-insert_all, runnable-blocked}

module _ (p : Program) where
  -- the submission of tasks changes no set of stages
  pub record SameStages (s s' : Sched) : Type 0 where
    pub outputs : s'.outputs ≡ s.outputs
    pub waiting : s'.waiting ≡ s.waiting
    pub running : s'.running ≡ s.running
    pub failed : s'.failed ≡ s.failed
    pub cached : s'.cached ≡ s.cached

  pub tasks-SameStages :
      (xs : List ℕ) (s : Sched) → SameStages s (submit_each (submit_missing_tasks p) s xs)
  tasks-SameStages [] s = record {
    outputs = refl;
    waiting = refl;
    running = refl;
    failed = refl;
    cached = refl;
  }
  tasks-SameStages (x ∷ xs) s =
      let i = tasks-SameStages xs (submit_missing_tasks p s x) in
      record {
        outputs = i.outputs;
        waiting = i.waiting;
        running = i.running;
        failed = i.failed;
        cached = i.cached;
      }

  pub same-IsLive : (s s' : Sched) → SameStages s s' → IsLive p s → IsLive p s'
  same-IsLive s s' i l x d a c =
      let a' : is_active s x ≡ true =
        ap (λ z. contains z x || contains s.running x) (sym i.waiting)
        ∙ ap (λ z. contains s'.waiting x || contains z x) (sym i.running)
        ∙ a in
      let c' : contains (get_missing p s.outputs s.cached x) d ≡ true =
        ap (λ z. contains (get_missing p z s.cached x) d) (sym i.outputs)
        ∙ ap (λ z. contains (get_missing p s'.outputs z x) d) (sym i.cached)
        ∙ c in
      ap (λ z. contains z (suc d) || contains s'.running (suc d) || contains s'.failed (suc d))
        i.waiting
      ∙ ap (λ z. contains s.waiting (suc d) || contains z (suc d) || contains s'.failed (suc d))
          i.running
      ∙ ap (λ z. contains s.waiting (suc d) || contains s.running (suc d) || contains z (suc d))
          i.failed
      ∙ l x d a' c'

  -- the stages that are released, before their tasks are submitted
  abbrev pub released : Sched → Sched
  released s =
      let missing = get_missing p s.outputs s.cached in
      record s {
        waiting = blocked missing s.waiting;
        running = insert_all (runnable missing s.waiting) s.running;
      }

  pub released-active : (s : Sched) (y : ℕ) → is_active (released s) y ≡ is_active s y
  released-active s y =
      let f = get_missing p s.outputs s.cached in
      ground (
        arith,
        runnable-blocked f s.waiting y,
        contains-insert_all (runnable f s.waiting) s.running y,
      )

  pub release-IsLive : (s : Sched) → IsLive p s → IsLive p (release_waiting p s)
  release-IsLive s l =
      same-IsLive (released s) (release_waiting p s)
        (tasks-SameStages (runnable (get_missing p s.outputs s.cached) s.waiting) (released s))
        (λ x d a c.
          ap (λ z. z || contains s.failed (suc d)) (released-active s (suc d))
          ∙ l x d (sym (released-active s x) ∙ a) c)

  pub blocked-missing :
      (f : ℕ → List ℕ) (l : List ℕ) (x : ℕ)
      → contains (blocked f l) x ≡ true
      → (d : ℕ) × (contains (f x) d ≡ true)
  blocked-missing f [] x h = cc h
  blocked-missing f (y ∷ l) x h = elim (List-cases (f y)) [
    | inl e ↦
        blocked-missing f l x
          (ap (λ z. contains (elim z [ [] ↦ blocked f l | _ ∷ _ ↦ y ∷ blocked f l ]) x) (sym e) ∙ h)
    | inr (d, ds, e) ↦
        let h' : contains (y ∷ blocked f l) x ≡ true =
          ap (λ z. contains (elim z [ [] ↦ blocked f l | _ ∷ _ ↦ y ∷ blocked f l ]) x) (sym e)
          ∙ h in
        elim (Bool-cases (x == y)) [
          | inl q ↦ (d, ap (λ z. contains z d) (ap f (ground arith) ∙ e) ∙ ground arith)
          | inr q ↦ blocked-missing f l x (ground arith)
        ]
  ]

  pub release-IsBlocked : (s : Sched) → IsBlocked p (release_waiting p s)
  release-IsBlocked s x h =
      let f = get_missing p s.outputs s.cached in
      let i = tasks-SameStages (runnable f s.waiting) (released s) in
      let s' = release_waiting p s in
      let (d, c) = blocked-missing f s.waiting x (ap (λ z. contains z x) (sym i.waiting) ∙ h) in
      (
        d,
        ap (λ z. contains (get_missing p z s'.cached x) d) i.outputs
            ∙ ap (λ z. contains (get_missing p s.outputs z x) d) i.cached
            ∙ c,
      )
