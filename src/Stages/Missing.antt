-- ===== src/Stages/Missing.antt =====
-- `getMissingParentStages` of dpark/schedule.py: which stages it finds.
use dpark.Common.{
  ℕ, ◌≤◌, ◌<◌, ◌≡◌, refl, sym, ap, ◌∙◌, Bool, true, false, ◌&&◌, ◌||◌, List, [], ◌∷◌, length,
  contains, ◌==◌, if◌then◌else◌, arith, Bool-cases, inl, inr, ◌↔◌,
}
use dpark.Stages.{
  Program, Dep, narrow, shuffled, visit_edges, Outputs, insert, is_available, missing_edge,
  stage_rdd, get_missing,
}
use dpark.Stages.Walk.{IsEdge, Collects, walk-Collects, Collects-walk}

abbrev pub narrow_targets : List Dep → List ℕ
narrow_targets [] = []
narrow_targets (narrow r ∷ ds) = r ∷ narrow_targets ds
narrow_targets (shuffled d ∷ ds) = narrow_targets ds

abbrev pub shuffles : List Dep → List ℕ
shuffles [] = []
shuffles (narrow r ∷ ds) = shuffles ds
shuffles (shuffled d ∷ ds) = d ∷ shuffles ds

-- An RDD is made after those that it depends on.
pub record IsProgram (p : Program) : Type 0 where
  pub narrow_lower : (r t : ℕ) → contains (narrow_targets (p.dependencies r)) t ≡ true → t < r
  pub shuffle_lower :
      (r d : ℕ) → contains (shuffles (p.dependencies r)) d ≡ true → p.shuffle_rdd d < r

pub contains-insert :
    (x : ℕ) (l : List ℕ) (y : ℕ) → contains (insert x l) y ≡ ((y == x) || contains l y)
contains-insert x l y = elim (Bool-cases (contains l x)) [
  | inl c ↦ elim (Bool-cases (y == x)) [
    | inl e ↦
        let c' : contains l y ≡ true = ap (contains l) (ground arith) ∙ c in rw (c, e, c') refl
    | inr e ↦ rw (c, e) refl
  ]
  | inr c ↦ rw c refl
]

few_narrow : (ds : List Dep) → length (narrow_targets ds) ≤ length ds
few_narrow [] = omega arith
few_narrow (narrow r ∷ ds) = omega (arith, few_narrow ds)
few_narrow (shuffled d ∷ ds) = omega (arith, few_narrow ds)

module _ (p : Program) (outputs : Outputs) where
  -- the shuffles whose outputs are not available
  abbrev pub unavailable : List Dep → List ℕ
  unavailable [] = []
  unavailable (narrow r ∷ ds) = unavailable ds
  unavailable (shuffled d ∷ ds) =
      if is_available p outputs d then unavailable ds else d ∷ unavailable ds

  pub unavailable-shuffles :
      (ds : List Dep) (d : ℕ) → contains (unavailable ds) d ≡ true → contains (shuffles ds) d ≡ true
  unavailable-shuffles [] d h = h
  unavailable-shuffles (narrow r ∷ ds) d h = unavailable-shuffles ds d h
  unavailable-shuffles (shuffled e ∷ ds) d h = ground (arith, unavailable-shuffles ds d)

  pub unavailable-not :
      (ds : List Dep) (d : ℕ)
      → contains (unavailable ds) d ≡ true
      → is_available p outputs d ≡ false
  unavailable-not [] d h = cc h
  unavailable-not (narrow r ∷ ds) d h = unavailable-not ds d h
  unavailable-not (shuffled e ∷ ds) d h = elim (Bool-cases (is_available p outputs e)) [
    | inl a ↦ unavailable-not ds d (ground arith)
    | inr a ↦ elim (Bool-cases (d == e)) [
      | inl q ↦ ap (is_available p outputs) (ground arith) ∙ a
      | inr q ↦ unavailable-not ds d (ground arith)
    ]
  ]

  pub shuffles-unavailable :
      (ds : List Dep) (d : ℕ)
      → contains (shuffles ds) d ≡ true
      → is_available p outputs d ≡ false
      → contains (unavailable ds) d ≡ true
  shuffles-unavailable [] d h a = h
  shuffles-unavailable (narrow r ∷ ds) d h a = shuffles-unavailable ds d h a
  shuffles-unavailable (shuffled e ∷ ds) d h a = elim (Bool-cases (d == e)) [
    | inl q ↦
        let a' : is_available p outputs e ≡ false =
          ap (is_available p outputs) (sym (ground arith)) ∙ a in
        rw a' (ground arith)
    | inr q ↦ ground (arith, shuffles-unavailable ds d)
  ]

  module _ (cached : ℕ → Bool) where
    abbrev pub is_cut : ℕ → Bool
    is_cut r = p.should_cache r && cached r

    -- where the search goes on from an RDD: nowhere from one that is cached
    abbrev pub targets : ℕ → List ℕ
    targets r = if is_cut r then [] else narrow_targets (p.dependencies r)

    abbrev pub needed : ℕ → List ℕ
    needed r = if is_cut r then [] else unavailable (p.dependencies r)

    visit_next :
        (r : ℕ) (ds : List Dep) (m : List ℕ)
        → (visit_edges p (missing_edge p outputs cached) (λ _. true) r ds m).1
          ≡ (if is_cut r then [] else narrow_targets ds)
    visit_next r [] m = ground arith
    visit_next r (narrow t ∷ ds) m = elim (Bool-cases (is_cut r)) [
      | inl c ↦ rw c (visit_next r ds m ∙ rw c refl)
      | inr c ↦ rw c (ap (λ z. t ∷ z) (visit_next r ds m ∙ rw c refl))
    ]
    visit_next r (shuffled d ∷ ds) m = elim (Bool-cases (is_cut r)) [
      | inl c ↦ rw c (visit_next r ds m ∙ rw c refl)
      | inr c ↦
          rw c (visit_next r ds (if is_available p outputs d then m else insert d m) ∙ rw c refl)
    ]

    visit_found :
        (r : ℕ) (ds : List Dep) (m : List ℕ) (d : ℕ)
        → contains (visit_edges p (missing_edge p outputs cached) (λ _. true) r ds m).0 d
          ≡ (contains m d || contains (if is_cut r then [] else unavailable ds) d)
    visit_found r [] m d = ground arith
    visit_found r (narrow t ∷ ds) m d = elim (Bool-cases (is_cut r)) [
      | inl c ↦ rw c (visit_found r ds m d ∙ rw c refl)
      | inr c ↦ rw c (visit_found r ds m d ∙ rw c refl)
    ]
    visit_found r (shuffled e ∷ ds) m d = elim (Bool-cases (is_cut r)) [
      | inl c ↦ rw c (visit_found r ds m d ∙ rw c refl)
      | inr c ↦ elim (Bool-cases (is_available p outputs e)) [
        | inl a ↦ rw (c, a) (visit_found r ds m d ∙ rw c refl)
        | inr a ↦
            rw (c, a)
              (visit_found r ds (insert e m) d ∙ rw c (ground (arith, contains-insert e m d)))
      ]
    ]

    module _ (good : IsProgram p) where
      pub missing-IsEdge : IsEdge p (missing_edge p outputs cached) targets needed
      missing-IsEdge = record {
        next = λ r m. visit_next r (p.dependencies r) m;
        found = λ r m d. visit_found r (p.dependencies r) m d;
        few = λ r. ground (arith, few_narrow (p.dependencies r));
        lower = λ r t h. ground (arith, good.narrow_lower r t);
      }

      -- what a stage needs: the outputs of a shuffle that are not available, of an RDD that it
      -- comes to without going on at cached RDDs
      abbrev pub Needs : ℕ → ℕ → Type 0
      Needs stage d =
          Collects p (missing_edge p outputs cached) targets needed (stage_rdd p stage) d

      -- `getMissingParentStages` finds the map stages of just those shuffles whose outputs are not
      -- available and which an RDD of the stage depends on, where the RDDs of the stage are
      -- those that it comes to by narrow dependencies, not going on at RDDs with all splits cached.
      -- RDDs are to depend on older ones only.
      pub get_missing_lem :
          (stage d : ℕ) → (contains (get_missing p outputs cached stage) d ≡ true) ↔ Needs stage d
      unfolding get_missing
      get_missing_lem stage d = (
        walk-Collects p (missing_edge p outputs cached) targets needed missing-IsEdge
            (stage_rdd p stage) d,
        Collects-walk p (missing_edge p outputs cached) targets needed missing-IsEdge
            (stage_rdd p stage) d,
      )
