-- ===== src/Stages/Progress.antt =====
-- The event loop of `runJob` in dpark/schedule.py: the sets of its stages while a stage waits.
use dpark.Common.{
  ℕ, zero, suc, ◌<◌, ◌≡◌, sym, Bool, true, ◌||◌, List, [], ◌∷◌, contains, ok, ok-injective,
  >>=-eq-ok, arith, Bool-cases, inl, inr,
}
use mathlib.Core.Path.{subst}
use dpark.Stages.{Program, Outputs, Sched, stage_rdd}
use dpark.Stages.Events.{Event, idle, submit_final, step, steps}
use dpark.Stages.Missing.{IsProgram}
use dpark.Stages.Live.{missing-lt, IsLive, IsBlocked}
use dpark.Stages.Submit.{submit_stage-Submits}
use dpark.Stages.Keeping.{AllKeep, step-IsLive}
use dpark.Stages.Blocking.{Loses, step-IsBlocked}

-- a stage is running, or failed and to be resubmitted
abbrev pub IsUnderWay : Sched → Type 0
IsUnderWay s = (x : ℕ) × ((contains s.running x || contains s.failed x) ≡ true)

module _ (p : Program) (good : IsProgram p) where
  -- parents are older, so the waiting stages have one that does not wait
  descend :
      (n : ℕ) (s : Sched) (x : ℕ)
      → stage_rdd p x < n
      → IsLive p s
      → IsBlocked p s
      → contains s.waiting x ≡ true
      → IsUnderWay s
  descend zero s x h l b w = absurd (omega (arith, h))
  descend (suc n) s x h l b w =
      let (d, c) = b x w in
      let a = l x d (ground arith) c in
      elim (Bool-cases (contains s.waiting (suc d))) [
        | inl w' ↦
            descend n s (suc d) (omega (arith, h, missing-lt p good s.outputs s.cached x d c)) l b
              w'
        | inr w' ↦ (suc d, ground arith)
      ]

  -- every failed fetch takes something from the stage whose task failed
  abbrev pub AllLose : Sched → List Event → Type 0
  AllLose s [] = Unit
  AllLose s (event ∷ es) =
      Loses p good s event × ((s' : Sched) → step p s event ≡ ok s' → AllLose s' es)

  steps_progress :
      (es : List Event) (s s' : Sched)
      → AllKeep s.cached es
      → AllLose s es
      → steps p s es ≡ ok s'
      → IsLive p s
      → IsBlocked p s
      → IsLive p s' × IsBlocked p s'
  unfolding steps
  steps_progress [] s s' k lost e l b =
      subst (λ z. IsLive p z × IsBlocked p z) (ok-injective e) (l, b)
  steps_progress (event ∷ es) s s' k lost e l b =
      let (s₁, e₁, e₂) = >>=-eq-ok (step p s event) _ e in
      let (l₁, c) = step-IsLive p good s event s₁ k.0 e₁ l in
      steps_progress es s₁ s' (subst (λ z. AllKeep z es) (sym c) k.1) (lost.1 s₁ e₁) e₂ l₁
        (step-IsBlocked p good s event s₁ k.0 lost.0 e₁ b)

  -- From the submission of the final stage on, over any list of events that the loop handles
  -- without an error: as long as a stage waits, there is a stage in `running` or in `failed`. That a
  -- running stage has tasks that are still to end is not said. The caches are not to change, and each
  -- failed fetch is to make the stage whose task failed miss the map stage; RDDs are to depend on
  -- older ones only.
  pub steps-IsUnderWay :
      (es : List Event) (outputs : Outputs) (finished : List Bool) (cached : ℕ → Bool) (s' : Sched)
      (x : ℕ)
      → AllKeep cached es
      → AllLose (submit_final p outputs finished cached) es
      → steps p (submit_final p outputs finished cached) es ≡ ok s'
      → contains s'.waiting x ≡ true
      → IsUnderWay s'
  unfolding submit_final
  steps-IsUnderWay es outputs finished cached s' x k lost e w =
      let s = submit_final p outputs finished cached in
      let i =
        (submit_stage-Submits p good (suc p.final_rdd) (idle outputs finished cached) 0
          (omega arith)).0 in
      let (l, b) =
        steps_progress es s s' (subst (λ z. AllKeep z es) (sym i.cached) k) lost e
          (i.live (λ x d a b. cc a)) (i.blocked (λ x w. cc w)) in
      descend (suc (stage_rdd p x)) s' x (omega arith) l b w
