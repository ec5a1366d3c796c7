-- ===== src/Stages/Keeping.antt =====
-- The event loop of `runJob` in dpark/schedule.py: what a stage misses stays on its way.
use dpark.Common.{
  ℕ, suc, ◌≡◌, refl, sym, ap, ◌∙◌, Bool, true, false, ◌||◌, List, [], ◌∷◌, ◌++◌, contains, ◌==◌,
  if◌then◌else◌, ok, ok-injective, >>=-eq-ok, if_cases_eq, if_either, arith, Bool-cases, inl, inr,
}
use mathlib.Core.Path.{subst}
use dpark.Common.Dicts.{put}
use dpark.Stages.{
  Program, Outputs, all_located, add_output_loc, remove_host, without, get_outputs, is_available,
  stage_rdd, get_missing, Sched, submit_each, last_locs,
}
use dpark.Stages.Events.{
  Event, map_success, fetch_failed, resubmit, runnable, map_task_succeeded, fetch_has_failed,
  submit, resubmit_failed, step, steps,
}
use dpark.Stages.Events.{moved, marked, step, steps, idle, submit_final, resubmit}
use dpark.Stages.Missing.{IsProgram, contains-insert}
use dpark.Stages.Live.{missing-not, missing-other, is_active, is_live, IsLive}
use dpark.Stages.Submit.{submit_stage-Submits, submit_each-Submits}
use dpark.Stages.Sets.{contains-without, get_outputs-same, lost_only, none_lost}
use dpark.Stages.Release.{tasks-SameStages, released, release-IsLive}

-- what an event brings of the caches is what was known of them
abbrev pub Keeps : (ℕ → Bool) → Event → Type 0
Keeps cached (map_success d i h snapshot) = snapshot ≡ cached
Keeps cached (fetch_failed stage d host) = Unit
Keeps cached (resubmit snapshot) = snapshot ≡ cached

abbrev pub AllKeep : (ℕ → Bool) → List Event → Type 0
AllKeep cached [] = Unit
AllKeep cached (e ∷ es) = Keeps cached e × AllKeep cached es

module _ (p : Program) where
  -- the state once a stage has all its outputs
  abbrev pub completed : Sched → ℕ → ℕ → ℕ → Sched
  completed s d i h =
      let locs = add_output_loc (get_outputs p s.outputs d) i h in
      record s {
        outputs = put d locs s.outputs;
        running = without (suc d) s.running;
        map_locs = s.map_locs ++ (d, last_locs locs) ∷ [];
      }

module _ (p : Program) (good : IsProgram p) where
  completed-IsLive :
      (s : Sched) (d i h : ℕ)
      → all_located (add_output_loc (get_outputs p s.outputs d) i h) ≡ true
      → IsLive p s
      → IsLive p (completed p s d i h)
  completed-IsLive s d i h all l x e a c =
      let locs = add_output_loc (get_outputs p s.outputs d) i h in
      let outputs' = put d locs s.outputs in
      let n : is_available p outputs' e ≡ false = missing-not p good outputs' s.cached x e c in
      elim (Bool-cases (e == d)) [
        | inl q ↦
            let n' : all_located locs ≡ false =
              ap all_located (sym (get_outputs-same p s.outputs d locs))
              ∙ ap (is_available p outputs') (sym (ground arith))
              ∙ n in
            cc (sym all ∙ n')
        | inr q ↦
            let a' : is_active s x ≡ true = ground (arith, contains-without (suc d) s.running x) in
            let v =
              missing-other p good s.outputs outputs' s.cached (λ _. ⊥)
                (λ e' f. inl (none_lost p s.outputs d i h e' f)) x e c in
            let c' : contains (get_missing p s.outputs s.cached x) e ≡ true = elim v [
              | inl y ↦ y
              | inr y ↦ absurd y
            ] in
            ground (arith, contains-without (suc d) s.running (suc e), l x e a' c')
      ]

  one_more-IsLive :
      (s : Sched) (d i h : ℕ)
      → IsLive p s
      → IsLive p
          (record s { outputs = put d (add_output_loc (get_outputs p s.outputs d) i h) s.outputs })
  one_more-IsLive s d i h l x e a c =
      let outputs' = put d (add_output_loc (get_outputs p s.outputs d) i h) s.outputs in
      let v =
        missing-other p good s.outputs outputs' s.cached (λ _. ⊥)
          (λ e' f. inl (none_lost p s.outputs d i h e' f)) x e c in
      elim v [ inl y ↦ l x e a y | inr y ↦ absurd y ]

  pub moved-active :
      (s : Sched) (stage : ℕ)
      → contains s.running stage ≡ true
      → (y : ℕ) → is_active (moved s stage) y ≡ is_active s y
  moved-active s stage r y = elim (Bool-cases (y == stage)) [
    | inl q ↦
        let r' : contains s.running y ≡ true = ap (contains s.running) (ground arith) ∙ r in
        ground (arith, contains-insert stage s.waiting y, contains-without stage s.running y)
    | inr q ↦ ground (arith, contains-insert stage s.waiting y, contains-without stage s.running y)
  ]

  moved-IsLive :
      (s : Sched) (stage : ℕ)
      → contains s.running stage ≡ true
      → IsLive p s
      → IsLive p (moved s stage)
  moved-IsLive s stage r l x e a c =
      ap (λ z. z || contains s.failed (suc e)) (moved-active s stage r (suc e))
      ∙ l x e (sym (moved-active s stage r x) ∙ a) c

  marked-IsLive : (s : Sched) (d host : ℕ) → IsLive p s → IsLive p (marked p s d host)
  marked-IsLive s d host l x e a c =
      let locs = remove_host (get_outputs p s.outputs d) host in
      elim (missing-other p good s.outputs (put d locs s.outputs) s.cached (λ z. z ≡ d)
        (lost_only p s.outputs d locs) x e c) [
          | inl y ↦ ground (arith, contains-insert (suc d) s.failed (suc e), l x e a y)
          | inr y ↦ ground (arith, contains-insert (suc d) s.failed (suc e))
        ]

  pub fetch_has_failed-IsLive :
      (s : Sched) (stage d host : ℕ) → IsLive p s → IsLive p (fetch_has_failed p s stage d host)
  unfolding fetch_has_failed
  fetch_has_failed-IsLive s stage d host l = elim (Bool-cases (contains s.running stage)) [
    | inl r ↦
        subst (λ z. IsLive p (marked p (if z then moved s stage else s) d host)) (sym r)
          (marked-IsLive (moved s stage) d host (moved-IsLive s stage r l))
    | inr r ↦
        subst (λ z. IsLive p (marked p (if z then moved s stage else s) d host)) (sym r)
          (marked-IsLive s d host l)
  ]

  cached_kept :
      (s : Sched) (stage d host : ℕ) → (fetch_has_failed p s stage d host).cached ≡ s.cached
  unfolding fetch_has_failed
  cached_kept s stage d host =
      if_either (λ z. z.cached ≡ s.cached) (contains s.running stage) {x = moved s stage} {y = s}
        refl refl

  pub map_task_succeeded-IsLive :
      (s : Sched) (d i h : ℕ) (snapshot : ℕ → Bool) (s' : Sched)
      → snapshot ≡ s.cached
      → map_task_succeeded p s d i h snapshot ≡ ok s'
      → IsLive p s
      → IsLive p s' × (s'.cached ≡ s.cached)
  unfolding map_task_succeeded
  map_task_succeeded-IsLive s d i h snapshot s' k e l =
      let locs = add_output_loc (get_outputs p s.outputs d) i h in
      let done : Sched = record (completed p s d i h) { cached = snapshot } in
      if_cases_eq (all_located locs) e
        (λ all e'.
          if_cases_eq (contains s.running (suc d)) e'
            (λ r f.
              subst (λ z. IsLive p z × (z.cached ≡ s.cached)) (ok-injective f)
                (
                  release-IsLive p done (
                      subst (λ z. IsLive p (record (completed p s d i h) { cached = z })) (sym k)
                        (completed-IsLive s d i h all l)),
                  (tasks-SameStages p
                        (runnable (get_missing p done.outputs done.cached) done.waiting)
                        (released p done)).cached
                      ∙ k,
                ))
            (λ r f. cc f))
        (λ all f.
          subst (λ z. IsLive p z × (z.cached ≡ s.cached)) (ok-injective f)
            (one_more-IsLive s d i h l, refl))

  pub resubmit_failed-IsLive :
      (s : Sched) (snapshot : ℕ → Bool)
      → snapshot ≡ s.cached
      → IsLive p s
      → IsLive p (resubmit_failed p s snapshot) × ((resubmit_failed p s snapshot).cached ≡ s.cached)
  unfolding resubmit_failed
  resubmit_failed-IsLive s snapshot k l =
      let s₀ : Sched = record s { cached = snapshot } in
      let l₀ : IsLive p s₀ = subst (λ z. IsLive p (record s { cached = z })) (sym k) l in
      let (i, here) =
        submit_each-Submits p good (submit p) (λ _. Unit)
          (λ t x _. submit_stage-Submits p good (suc (stage_rdd p x)) t x (omega arith)) s.failed s₀
          (λ _ _. tt) in
      let s₁ = submit_each (submit p) s₀ s.failed in
      (
        λ x d a c.
            let v : is_live s₁ (suc d) ≡ true = i.live l₀ x d a c in
            elim (Bool-cases (is_active s₁ (suc d))) [
              | inl y ↦ ground arith
              | inr y ↦
                  let f : contains s.failed (suc d) ≡ true =
                    ap (λ z. contains z (suc d)) (sym i.failed) ∙ ground arith in
                  cc (sym (here (suc d) f) ∙ y)
            ],
        i.cached ∙ k,
      )

  -- One event of the loop keeps it that each map stage that a waiting or running stage misses is
  -- waiting, running or to be resubmitted, if the caches do not change.
  pub step-IsLive :
      (s : Sched) (event : Event) (s' : Sched)
      → Keeps s.cached event
      → step p s event ≡ ok s'
      → IsLive p s
      → IsLive p s' × (s'.cached ≡ s.cached)
  unfolding step
  step-IsLive s (map_success d i h snapshot) s' k e l =
      map_task_succeeded-IsLive s d i h snapshot s' k e l
  step-IsLive s (fetch_failed stage d host) s' k e l =
      subst (λ z. IsLive p z × (z.cached ≡ s.cached)) (ok-injective e)
        (fetch_has_failed-IsLive s stage d host l, cached_kept s stage d host)
  step-IsLive s (resubmit snapshot) s' k e l =
      subst (λ z. IsLive p z × (z.cached ≡ s.cached)) (ok-injective e)
        (resubmit_failed-IsLive s snapshot k l)

  steps_keep :
      (es : List Event) (s s' : Sched)
      → AllKeep s.cached es
      → steps p s es ≡ ok s'
      → IsLive p s
      → IsLive p s'
  unfolding steps
  steps_keep [] s s' k e l = subst (IsLive p) (ok-injective e) l
  steps_keep (event ∷ es) s s' k e l =
      let (s₁, e₁, e₂) = >>=-eq-ok (step p s event) _ e in
      let (l₁, c) = step-IsLive s event s₁ k.0 e₁ l in
      steps_keep es s₁ s' (subst (λ z. AllKeep z es) (sym c) k.1) e₂ l₁

  -- From the submission of the final stage on, over any list of events that the loop handles
  -- without an error, each map stage that a waiting or running stage misses is itself waiting,
  -- running or among the failed stages that are to be resubmitted, if the caches do not change and
  -- RDDs depend on older ones only.
  pub steps-IsLive :
      (es : List Event) (outputs : Outputs) (finished : List Bool) (cached : ℕ → Bool) (s' : Sched)
      → AllKeep cached es
      → steps p (submit_final p outputs finished cached) es ≡ ok s'
      → IsLive p s'
  unfolding submit_final
  steps-IsLive es outputs finished cached s' k e =
      let i =
        (submit_stage-Submits p good (suc p.final_rdd) (idle outputs finished cached) 0
          (omega arith)).0 in
      let c : (submit_final p outputs finished cached).cached ≡ cached = i.cached in
      steps_keep es (submit_final p outputs finished cached) s'
        (subst (λ z. AllKeep z es) (sym c) k) e (i.live (λ x d a b. cc a))
