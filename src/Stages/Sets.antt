-- ===== src/Stages/Sets.antt =====
-- Sets of stages, the outputs of a map stage and the tables of outputs of dpark/schedule.py.
use dpark.Common.{
  ℕ, zero, suc, ◌≡◌, refl, sym, ap, ◌∙◌, true, false, not, ◌&&◌, ◌||◌, List, [], ◌∷◌, ◌++◌, get_or,
  set, contains, ◌==◌, if◌then◌else◌, arith, Bool-cases, inl, inr, ◌⊎◌,
}
use dpark.Common.Dicts.{put, lookup-put_same, lookup-put_other}
use dpark.Stages.{
  Program, Outputs, all_located, add_output_loc, remove_first, remove_host, without, get_outputs,
  is_available,
}
use dpark.Stages.Events.{runnable, blocked, insert_all}
use dpark.Stages.Missing.{contains-insert}

pub contains-without :
    (x : ℕ) (l : List ℕ) (y : ℕ) → contains (without x l) y ≡ (not (y == x) && contains l y)
contains-without x [] y = ground arith
contains-without x (z ∷ l) y = ground (arith, contains-without x l y)

pub contains-insert_all :
    (xs l : List ℕ) (y : ℕ) → contains (insert_all xs l) y ≡ (contains xs y || contains l y)
contains-insert_all [] l y = refl
contains-insert_all (x ∷ xs) l y =
    contains-insert x (insert_all xs l) y ∙ ground (arith, contains-insert_all xs l y)

pub runnable-blocked :
    (f : ℕ → List ℕ) (l : List ℕ) (y : ℕ)
    → contains l y ≡ (contains (runnable f l) y || contains (blocked f l) y)
runnable-blocked f [] y = refl
runnable-blocked f (x ∷ l) y =
    let i = runnable-blocked f l y in
    elim (f x)
      as (λ z. contains (x ∷ l) y ≡ (
        contains (elim z [ [] ↦ x ∷ runnable f l | _ ∷ _ ↦ runnable f l ]) y
        || contains (elim z [ [] ↦ blocked f l | _ ∷ _ ↦ x ∷ blocked f l ]) y)) [
          | [] ↦ ground (arith, i)
          | _ ∷ _ ↦ ground (arith, i)
        ]

pub located-set :
    (locs : List (List ℕ)) (i h : ℕ)
    → all_located locs ≡ true
    → all_located (set locs i (get_or locs i [] ++ h ∷ [])) ≡ true
located-set [] i h a = a
located-set ([] ∷ locs) i h a = cc a
located-set ((x ∷ l) ∷ locs) zero h a = a
located-set ((x ∷ l) ∷ locs) (suc i) h a = located-set locs i h a

pub later_located :
    (ls : List ℕ) (locs : List (List ℕ)) → all_located (ls ∷ locs) ≡ true → all_located locs ≡ true
later_located [] locs a = cc a
later_located (x ∷ ls) locs a = a

pub located-remove :
    (locs : List (List ℕ)) (h : ℕ)
    → all_located (remove_host locs h) ≡ true
    → all_located locs ≡ true
located-remove [] h a = a
located-remove ([] ∷ locs) h a = cc a
located-remove ((x ∷ l) ∷ locs) h a = located-remove locs h (
    later_located (if contains (x ∷ l) h then remove_first h (x ∷ l) else x ∷ l)
      (remove_host locs h) a)

module _ (p : Program) where
  pub get_outputs-same :
      (outputs : Outputs) (d : ℕ) (locs : List (List ℕ))
      → get_outputs p (put d locs outputs) d ≡ locs
  get_outputs-same outputs d locs = rw (get_outputs, lookup-put_same d locs outputs) refl

  pub get_outputs-other :
      (outputs : Outputs) (d : ℕ) (locs : List (List ℕ)) (e : ℕ)
      → (d == e) ≡ false
      → get_outputs p (put d locs outputs) e ≡ get_outputs p outputs e
  get_outputs-other outputs d locs e h = rw (get_outputs, lookup-put_other d e locs outputs h) refl

  -- what is lost when the outputs of `d` become `locs`
  pub lost_only :
      (outputs : Outputs) (d : ℕ) (locs : List (List ℕ)) (e : ℕ)
      → is_available p (put d locs outputs) e ≡ false
      → (is_available p outputs e ≡ false) ⊎ (e ≡ d)
  lost_only outputs d locs e a = elim (Bool-cases (d == e)) [
    | inl q ↦ inr (ground arith)
    | inr q ↦ inl (ap all_located (sym (get_outputs-other outputs d locs e q)) ∙ a)
  ]

  -- with one more output nothing is lost
  pub none_lost :
      (outputs : Outputs) (d i h e : ℕ)
      → is_available p (put d (add_output_loc (get_outputs p outputs d) i h) outputs) e ≡ false
      → is_available p outputs e ≡ false
  none_lost outputs d i h e a = elim (Bool-cases (is_available p outputs e)) [
    | inr n ↦ n
    | inl y ↦ elim (lost_only outputs d _ e a) [
      | inl n ↦ n
      | inr q ↦
          let y' : all_located (get_outputs p outputs d) ≡ true =
            ap (is_available p outputs) (sym q) ∙ y in
          let a' : all_located (add_output_loc (get_outputs p outputs d) i h) ≡ false =
            ap all_located (sym (get_outputs-same outputs d _))
            ∙ ap (is_available p (put d (add_output_loc (get_outputs p outputs d) i h) outputs))
                (sym q)
            ∙ a in
          cc (sym (located-set (get_outputs p outputs d) i h y') ∙ a')
    ]
  ]
