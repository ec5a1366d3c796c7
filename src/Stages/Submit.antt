-- ===== src/Stages/Submit.antt =====
-- `submitStage` of dpark/schedule.py: it takes in a stage with all the parents that it misses.
use dpark.Common.{
  ℕ, zero, suc, ◌<◌, ◌≡◌, refl, sym, ap, ◌∙◌, Bool, true, false, List, [], ◌∷◌, contains, ◌==◌,
  if◌then◌else◌, arith, Bool-cases, inl, inr, ◌⊎◌,
}
use mathlib.Core.Path.{subst}
use dpark.Stages.{
  Program, insert, stage_rdd, get_missing, Sched, submit_each, map_stages, submit_missing_tasks,
  submit_stage,
}
use dpark.Stages.Missing.{IsProgram, contains-insert}
use dpark.Stages.Live.{missing-lt, is_active, Submits, Submits-refl, Submits-trans}

pub List-cases : (l : List ℕ) → (l ≡ []) ⊎ ((x : ℕ) × (xs : List ℕ) × (l ≡ x ∷ xs))
List-cases [] = inl refl
List-cases (x ∷ xs) = inr (x, xs, refl)

last_branch :
    (b : Bool) (l : List ℕ) (d : ℕ) (ds : List ℕ) (u v w : Sched)
    → b ≡ false
    → l ≡ d ∷ ds
    → (if b then u else elim l [ [] ↦ v | _ ∷ _ ↦ w ]) ≡ w
last_branch b l d ds u v w h e = rw (h, e) refl

module _ (p : Program) (good : IsProgram p) where
  -- the two ways in which `submitStage` takes a stage in
  abbrev started : Sched → ℕ → Sched
  started s x = let s' = submit_missing_tasks p s x in record s' { running = insert x s'.running }

  abbrev held_back : Sched → ℕ → Sched
  held_back s x = record s { waiting = insert x s.waiting }

  submit_skip : (n : ℕ) (s : Sched) (x : ℕ) → is_active s x ≡ true → submit_stage p (suc n) s x ≡ s
  unfolding submit_stage
  submit_skip n s x h = rw (submit_stage, h) refl

  submit_now :
      (n : ℕ) (s : Sched) (x : ℕ)
      → is_active s x ≡ false
      → get_missing p s.outputs s.cached x ≡ []
      → submit_stage p (suc n) s x ≡ started s x
  unfolding submit_stage
  submit_now n s x h e = rw (submit_stage, h, e) refl

  submit_later :
      (n : ℕ) (s : Sched) (x d : ℕ) (ds : List ℕ)
      → is_active s x ≡ false
      → get_missing p s.outputs s.cached x ≡ d ∷ ds
      → submit_stage p (suc n) s x
        ≡ held_back
            (submit_each (submit_stage p n) s (map_stages (get_missing p s.outputs s.cached x)))
            x
  unfolding submit_stage
  submit_later n s x d ds h e =
      last_branch (is_active s x) (get_missing p s.outputs s.cached x) d ds s _ _ h e

  started-Submits :
      (s : Sched) (x : ℕ) → get_missing p s.outputs s.cached x ≡ [] → Submits p s (started s x)
  started-Submits s x e = record {
    live = λ l y d a c. elim (Bool-cases (y == x)) [
      | inl q ↦
          let c' : contains (get_missing p s.outputs s.cached x) d ≡ true =
            ap (λ z. contains (get_missing p s.outputs s.cached z) d) (sym (ground arith)) ∙ c in
          cc (sym (ap (λ z. contains z d) e) ∙ c')
      | inr q ↦ ground (
        arith,
        contains-insert x s.running (suc d),
        contains-insert x s.running y,
        l y d (ground (arith, contains-insert x s.running y)) c,
      )
    ];
    blocked = λ b. b;
    grows = λ y h. ground (arith, contains-insert x s.running y);
    outputs = refl;
    cached = refl;
    failed = refl;
  }

  held_back-Submits :
      (s : Sched) (x : ℕ)
      → ((d : ℕ)
          → contains (get_missing p s.outputs s.cached x) d ≡ true
          → is_active s (suc d) ≡ true)
      → (d : ℕ) → contains (get_missing p s.outputs s.cached x) d ≡ true
      → Submits p s (held_back s x)
  held_back-Submits s x f d₀ c₀ = record {
    live = λ l y d a c. elim (Bool-cases (y == x)) [
      | inl q ↦
          let c' : contains (get_missing p s.outputs s.cached x) d ≡ true =
            ap (λ z. contains (get_missing p s.outputs s.cached z) d) (sym (ground arith)) ∙ c in
          ground (arith, contains-insert x s.waiting (suc d), f d c')
      | inr q ↦ ground (
        arith,
        contains-insert x s.waiting (suc d),
        contains-insert x s.waiting y,
        l y d (ground (arith, contains-insert x s.waiting y)) c,
      )
    ];
    blocked = λ b y h. elim (Bool-cases (y == x)) [
      | inl q ↦
          subst (λ z. (d : ℕ) × (contains (get_missing p s.outputs s.cached z) d ≡ true)) {x = x}
            {y = y} (ground arith) (d₀, c₀)
      | inr q ↦ b y (ground (arith, contains-insert x s.waiting y))
    ];
    grows = λ y h. ground (arith, contains-insert x s.waiting y);
    outputs = refl;
    cached = refl;
    failed = refl;
  }

  pub submit_each-Submits :
      (submit : Sched → ℕ → Sched) (P : ℕ → Type 0)
      → ((s : Sched) (x : ℕ) → P x → Submits p s (submit s x) × (is_active (submit s x) x ≡ true))
      → (xs : List ℕ) (s : Sched) → ((x : ℕ) → contains xs x ≡ true → P x)
      → Submits p s (submit_each submit s xs)
        × ((x : ℕ) → contains xs x ≡ true → is_active (submit_each submit s xs) x ≡ true)
  submit_each-Submits submit P f [] s all = (Submits-refl p s, λ x h. cc h)
  submit_each-Submits submit P f (x ∷ xs) s all =
      let (a, here) = f s x (all x (ground arith)) in
      let (b, rest) =
        submit_each-Submits submit P f xs (submit s x) (λ y h. all y (ground arith)) in
      (
        Submits-trans p s (submit s x) _ a b,
        λ y h. elim (Bool-cases (y == x)) [
          | inl q ↦ b.grows y (ap (is_active (submit s x)) (ground arith) ∙ here)
          | inr q ↦ rest y (ground arith)
        ],
      )

  in_map_stages : (ds : List ℕ) (d : ℕ) → contains (map_stages ds) (suc d) ≡ contains ds d
  in_map_stages [] d = refl
  in_map_stages (e ∷ ds) d = ground (arith, in_map_stages ds d)

  of_map_stages :
      (ds : List ℕ) (x : ℕ)
      → contains (map_stages ds) x ≡ true
      → (d : ℕ) × (x ≡ suc d) × (contains ds d ≡ true)
  of_map_stages ds zero h = absurd (zero_not ds h)
    where
      zero_not : (ds : List ℕ) → contains (map_stages ds) 0 ≡ true → ⊥
      zero_not [] h = cc h
      zero_not (e ∷ ds) h = zero_not ds (ground arith)
  of_map_stages ds (suc d) h = (d, refl, sym (in_map_stages ds d) ∙ h)

  -- `submitStage` with enough fuel takes in the stage, and keeps what holds of the others.
  pub submit_stage-Submits :
      (n : ℕ) (s : Sched) (x : ℕ)
      → stage_rdd p x < n
      → Submits p s (submit_stage p n s x) × (is_active (submit_stage p n s x) x ≡ true)
  submit_stage-Submits zero s x h = absurd (omega (arith, h))
  submit_stage-Submits (suc n) s x h = elim (Bool-cases (is_active s x)) [
    | inl a ↦
        subst (λ z. Submits p s z × (is_active z x ≡ true)) (sym (submit_skip n s x a))
          (Submits-refl p s, a)
    | inr a ↦ elim (List-cases (get_missing p s.outputs s.cached x)) [
      | inl e ↦
          subst (λ z. Submits p s z × (is_active z x ≡ true)) (sym (submit_now n s x a e))
            (started-Submits s x e, ground (arith, contains-insert x s.running x))
      | inr (d, ds, e) ↦
          let missing = get_missing p s.outputs s.cached x in
          let all =
            submit_each-Submits (submit_stage p n) (λ y. stage_rdd p y < n)
              (λ s' y. submit_stage-Submits n s' y) (map_stages missing) s
              (λ y i.
                let (d', q, c) = of_map_stages missing y i in
                omega
                  (arith, h, missing-lt p good s.outputs s.cached x d' c, ap (stage_rdd p) q)) in
          let s' = submit_each (submit_stage p n) s (map_stages missing) in
          let same : get_missing p s'.outputs s'.cached x ≡ missing =
            ap (λ z. get_missing p z s'.cached x) (all.0).outputs
            ∙ ap (λ z. get_missing p s.outputs z x) (all.0).cached in
          let held =
            held_back-Submits s' x
              (λ d' c.
                all.1 (suc d') (in_map_stages missing d' ∙ ap (λ z. contains z d') (sym same) ∙ c))
              d (ap (λ z. contains z d) (same ∙ e) ∙ ground arith) in
          subst (λ z. Submits p s z × (is_active z x ≡ true)) (sym (submit_later n s x d ds a e))
            (
              Submits-trans p s s' (held_back s' x) all.0 held,
              ground (arith, contains-insert x s'.waiting x),
            )
    ]
  ]
