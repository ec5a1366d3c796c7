-- ===== src/Stages/Blocking.antt =====
-- The event loop of `runJob` in dpark/schedule.py: a stage that waits misses something, and so
-- something is always under way.
use dpark.Common.{
  ℕ, suc, ◌≡◌, sym, ap, ◌∙◌, Bool, true, false, List, contains, ◌==◌, if◌then◌else◌, ok,
  ok-injective, if_cases_eq, arith, Bool-cases, inl, inr, ◌⊎◌,
}
use mathlib.Core.Path.{subst}
use dpark.Common.Dicts.{put}
use dpark.Stages.{
  Program, Outputs, all_located, add_output_loc, remove_host, get_outputs, is_available, stage_rdd,
  get_missing, Sched,
}
use dpark.Stages.Events.{
  Event, map_success, fetch_failed, resubmit, map_task_succeeded, fetch_has_failed, submit,
  resubmit_failed, step,
}
use dpark.Stages.Missing.{IsProgram, contains-insert}
use dpark.Stages.Live.{missing-other, IsBlocked}
use dpark.Stages.Submit.{submit_stage-Submits, submit_each-Submits}
use dpark.Stages.Sets.{located-remove, get_outputs-same, get_outputs-other}
use dpark.Stages.Release.{release-IsBlocked}
use dpark.Stages.Events.{moved, marked}
use dpark.Stages.Keeping.{Keeps, completed}

module _ (p : Program) (good : IsProgram p) where
  -- what is not available stays so when the outputs of `d` become `locs`
  still_lost :
      (outputs : Outputs) (d : ℕ) (locs : List (List ℕ))
      → (is_available p outputs d ≡ false → all_located locs ≡ false)
      → (e : ℕ) → is_available p outputs e ≡ false
      → (is_available p (put d locs outputs) e ≡ false) ⊎ ⊥
  still_lost outputs d locs f e a = elim (Bool-cases (d == e)) [
    | inl q ↦
        let r : d ≡ e = ground arith in
        inl (
          ap (is_available p (put d locs outputs)) (sym r)
          ∙ ap all_located (get_outputs-same p outputs d locs)
          ∙ f (ap (is_available p outputs) r ∙ a))
    | inr q ↦ inl (ap all_located (get_outputs-other p outputs d locs e q) ∙ a)
  ]

  still_missing :
      (outputs : Outputs) (cached : ℕ → Bool) (d : ℕ) (locs : List (List ℕ))
      → (is_available p outputs d ≡ false → all_located locs ≡ false)
      → (x e : ℕ) → contains (get_missing p outputs cached x) e ≡ true
      → contains (get_missing p (put d locs outputs) cached x) e ≡ true
  still_missing outputs cached d locs f x e c =
      elim (missing-other p good (put d locs outputs) outputs cached (λ _. ⊥)
        (still_lost outputs d locs f) x e c) [ inl y ↦ y | inr y ↦ absurd y ]

  -- A failed fetch takes something from the stage whose task failed, if the stage is running: it
  -- misses the map stage then.
  abbrev pub Loses : Sched → Event → Type 0
  Loses s (map_success d i h snapshot) = Unit
  Loses s (fetch_failed stage d host) =
      contains s.running stage ≡ true
      → contains (get_missing p (marked p s d host).outputs s.cached stage) d ≡ true
  Loses s (resubmit snapshot) = Unit

  map_task_succeeded-IsBlocked :
      (s : Sched) (d i h : ℕ) (snapshot : ℕ → Bool) (s' : Sched)
      → map_task_succeeded p s d i h snapshot ≡ ok s'
      → IsBlocked p s
      → IsBlocked p s'
  unfolding map_task_succeeded
  map_task_succeeded-IsBlocked s d i h snapshot s' e b =
      let locs = add_output_loc (get_outputs p s.outputs d) i h in
      if_cases_eq (all_located locs) e
        (λ all e'.
          if_cases_eq (contains s.running (suc d)) e'
            (λ r f.
              subst (IsBlocked p) (ok-injective f)
                (release-IsBlocked p (record (completed p s d i h) { cached = snapshot })))
            (λ r f. cc f))
        (λ all f. subst (IsBlocked p) (ok-injective f) (λ x w.
          let (e, c) = b x w in (e, still_missing s.outputs s.cached d locs (λ _. all) x e c)))

  marked-IsBlocked : (s : Sched) (d host : ℕ) → IsBlocked p s → IsBlocked p (marked p s d host)
  marked-IsBlocked s d host b x w =
      let locs = get_outputs p s.outputs d in
      let (e, c) = b x w in
      (
        e,
        still_missing s.outputs s.cached d (remove_host locs host)
            (λ a. elim (Bool-cases (all_located (remove_host locs host))) [
              | inl y ↦ cc (sym (located-remove locs host y) ∙ a)
              | inr y ↦ y
            ])
            x e c,
      )

  fetch_has_failed-IsBlocked :
      (s : Sched) (stage d host : ℕ)
      → Loses s (fetch_failed stage d host)
      → IsBlocked p s
      → IsBlocked p (fetch_has_failed p s stage d host)
  unfolding fetch_has_failed
  fetch_has_failed-IsBlocked s stage d host lost b = elim (Bool-cases (contains s.running stage)) [
    | inl r ↦
        subst (λ z. IsBlocked p (marked p (if z then moved s stage else s) d host)) (sym r)
          (λ x w. elim (Bool-cases (x == stage)) [
            | inl q ↦
                let c : contains (get_missing p (marked p s d host).outputs s.cached x) d ≡ true =
                  ap (λ z. contains (get_missing p (marked p s d host).outputs s.cached z) d)
                    (ground arith)
                  ∙ lost r in
                (d, c)
            | inr q ↦
                marked-IsBlocked s d host b x (ground (arith, contains-insert stage s.waiting x))
          ])
    | inr r ↦
        subst (λ z. IsBlocked p (marked p (if z then moved s stage else s) d host)) (sym r)
          (marked-IsBlocked s d host b)
  ]

  resubmit_failed-IsBlocked :
      (s : Sched) (snapshot : ℕ → Bool)
      → snapshot ≡ s.cached
      → IsBlocked p s
      → IsBlocked p (resubmit_failed p s snapshot)
  unfolding resubmit_failed
  resubmit_failed-IsBlocked s snapshot k b =
      let s₀ : Sched = record s { cached = snapshot } in
      let b₀ : IsBlocked p s₀ = subst (λ z. IsBlocked p (record s { cached = z })) (sym k) b in
      let i =
        submit_each-Submits p good (submit p) (λ _. Unit)
          (λ t x _. submit_stage-Submits p good (suc (stage_rdd p x)) t x (omega arith)) s.failed s₀
          (λ _ _. tt) in
      λ x w. (i.0).blocked b₀ x w

  -- One event keeps it that each waiting stage misses a map stage, if the caches do not change and
  -- a failed fetch makes the stage whose task failed miss the map stage.
  pub step-IsBlocked :
      (s : Sched) (event : Event) (s' : Sched)
      → Keeps s.cached event
      → Loses s event
      → step p s event ≡ ok s'
      → IsBlocked p s
      → IsBlocked p s'
  unfolding step
  step-IsBlocked s (map_success d i h snapshot) s' k lost e b =
      map_task_succeeded-IsBlocked s d i h snapshot s' e b
  step-IsBlocked s (fetch_failed stage d host) s' k lost e b =
      subst (IsBlocked p) (ok-injective e) (fetch_has_failed-IsBlocked s stage d host lost b)
  step-IsBlocked s (resubmit snapshot) s' k lost e b =
      subst (IsBlocked p) (ok-injective e) (resubmit_failed-IsBlocked s snapshot k b)
