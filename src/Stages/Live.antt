-- ===== src/Stages/Live.antt =====
-- dpark/schedule.py: the parents that the stages of a job miss are being computed, or are to be.
--
use dpark.Common.{
  ℕ, suc, ◌<◌, ◌≡◌, refl, ◌∙◌, Bool, true, false, ◌||◌, contains, arith, inl, inr, ◌⊎◌,
}
use dpark.Stages.{Program, Outputs, is_available, missing_edge, stage_rdd, get_missing, Sched}
use dpark.Stages.Walk.{Reached, start, follow, Reached-le}
use dpark.Stages.Missing.{
  IsProgram, unavailable-shuffles, unavailable-not, shuffles-unavailable, targets, needed,
  missing-IsEdge, get_missing_lem,
}

abbrev pub is_active : Sched → ℕ → Bool
is_active s x = contains s.waiting x || contains s.running x

abbrev pub is_live : Sched → ℕ → Bool
is_live s x = is_active s x || contains s.failed x

module _ (p : Program) where
  -- Each map stage that a waiting or running stage misses is waiting, running or to be resubmitted.
  abbrev pub IsLive : Sched → Type 0
  IsLive s =
      (x d : ℕ)
      → is_active s x ≡ true
      → contains (get_missing p s.outputs s.cached x) d ≡ true
      → is_live s (suc d) ≡ true

  -- Each waiting stage misses a map stage.
  abbrev pub IsBlocked : Sched → Type 0
  IsBlocked s =
      (x : ℕ)
      → contains s.waiting x ≡ true
      → (d : ℕ) × (contains (get_missing p s.outputs s.cached x) d ≡ true)

  -- What the submission of stages leaves and keeps.
  pub record Submits (s s' : Sched) : Type 0 where
    pub live : IsLive s → IsLive s'
    pub blocked : IsBlocked s → IsBlocked s'
    pub grows : (y : ℕ) → is_active s y ≡ true → is_active s' y ≡ true
    pub outputs : s'.outputs ≡ s.outputs
    pub cached : s'.cached ≡ s.cached
    pub failed : s'.failed ≡ s.failed

  pub Submits-refl : (s : Sched) → Submits s s
  Submits-refl s = record {
    live = λ l. l;
    blocked = λ b. b;
    grows = λ y h. h;
    outputs = refl;
    cached = refl;
    failed = refl;
  }

  pub Submits-trans : (s s' s'' : Sched) → Submits s s' → Submits s' s'' → Submits s s''
  Submits-trans s s' s'' a b = record {
    live = λ l. b.live (a.live l);
    blocked = λ l. b.blocked (a.blocked l);
    grows = λ y h. b.grows y (a.grows y h);
    outputs = b.outputs ∙ a.outputs;
    cached = b.cached ∙ a.cached;
    failed = b.failed ∙ a.failed;
  }

module _ (p : Program) (good : IsProgram p) where
  module _ (outputs : Outputs) (cached : ℕ → Bool) where
    -- only what is not available is missing
    pub missing-not :
        (x d : ℕ)
        → contains (get_missing p outputs cached x) d ≡ true
        → is_available p outputs d ≡ false
    missing-not x d h =
        let (r, _, c) = (get_missing_lem p outputs cached good x d).0 h in
        unavailable-not p outputs (p.dependencies r) d (ground arith)

    -- a parent's RDD is older
    pub missing-lt :
        (x d : ℕ)
        → contains (get_missing p outputs cached x) d ≡ true
        → stage_rdd p (suc d) < stage_rdd p x
    missing-lt x d h =
        let (r, a, c) = (get_missing_lem p outputs cached good x d).0 h in
        let l =
          Reached-le p (missing_edge p outputs cached) (targets p outputs cached)
            (needed p outputs cached) (missing-IsEdge p outputs cached good) (stage_rdd p x) r a in
        let u = unavailable-shuffles p outputs (p.dependencies r) d (ground arith) in
        omega (arith, l, good.shuffle_lower r d u)

  Reached-other :
      (outputs outputs' : Outputs) (cached : ℕ → Bool) (root r : ℕ)
      → Reached p
          (missing_edge p outputs' cached)
          (targets p outputs' cached)
          (needed p outputs' cached)
          root
          r
      → Reached p
          (missing_edge p outputs cached)
          (targets p outputs cached)
          (needed p outputs cached)
          root
          r
  Reached-other outputs outputs' cached root _ start = start
  Reached-other outputs outputs' cached root _ (follow r t h c) =
      follow r t (Reached-other outputs outputs' cached root r h) c

  -- What is missing with other outputs was missing, or its outputs are newly lost.
  pub missing-other :
      (outputs outputs' : Outputs) (cached : ℕ → Bool) (P : ℕ → Type 0)
      → ((d : ℕ) → is_available p outputs' d ≡ false → (is_available p outputs d ≡ false) ⊎ P d)
      → (x d : ℕ) → contains (get_missing p outputs' cached x) d ≡ true
      → (contains (get_missing p outputs cached x) d ≡ true) ⊎ P d
  missing-other outputs outputs' cached P f x d h =
      let (r, a, c) = (get_missing_lem p outputs' cached good x d).0 h in
      elim (f d (missing-not outputs' cached x d h)) [
        | inr q ↦ inr q
        | inl u ↦
            let s = unavailable-shuffles p outputs' (p.dependencies r) d (ground arith) in
            let v = shuffles-unavailable p outputs (p.dependencies r) d s u in
            inl (
              (get_missing_lem p outputs cached good x d).1
                (r, Reached-other outputs outputs' cached (stage_rdd p x) r a, ground arith))
      ]
