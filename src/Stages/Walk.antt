-- ===== src/Stages/Walk.antt =====
-- `walk_dependencies` of dpark/schedule.py, with a function that collects numbers: it visits what
-- can be reached, and its fuel is enough.
use dpark.Common.{
  ℕ, zero, suc, ◌+◌, ◌≤◌, ◌<◌, ◌≡◌, refl, sym, ap, ◌∙◌, Bool, true, false, ◌||◌, List, [], ◌∷◌,
  ◌++◌, length, length-append, contains, ◌==◌, if◌then◌else◌, arith, Bool-cases, inl, inr, ◌⊎◌,
}
use mathlib.Core.Path.{subst}
use dpark.Stages.{Program, Dep, visit_edges, walk_from, edges_below, walk_dependencies}

pub contains-append : (l m : List ℕ) (x : ℕ) → contains (l ++ m) x ≡ (contains l x || contains m x)
contains-append [] m x = refl
contains-append (y ∷ l) m x = ground (arith, contains-append l m x)

-- the dependencies of the RDDs below `n` that are not visited yet
abbrev left : Program → List ℕ → ℕ → ℕ
left p v zero = 0
left p v (suc n) = (if contains v n then 0 else length (p.dependencies n)) + left p v n

left-nil : (p : Program) (n : ℕ) → left p [] n ≡ edges_below p n
left-nil p zero = refl
left-nil p (suc n) = ap (λ z. length (p.dependencies n) + z) (left-nil p n)

left_above : (p : Program) (v : List ℕ) (r n : ℕ) → n ≤ r → left p (r ∷ v) n ≡ left p v n
left_above p v r zero h = refl
left_above p v r (suc n) h =
    let e : (n == r) ≡ false = ground (arith, h) in
    rw e (
      ap (λ z. (if contains v n then 0 else length (p.dependencies n)) + z)
        (left_above p v r n (omega (arith, h))))

left_visited :
    (p : Program) (v : List ℕ) (r n : ℕ)
    → r < n
    → contains v r ≡ false
    → left p (r ∷ v) n + length (p.dependencies r) ≡ left p v n
left_visited p v r zero h c = absurd (omega (arith, h))
left_visited p v r (suc n) h c = elim (Bool-cases (n == r)) [
  | inl e ↦
      let e' : n ≡ r = ground arith in
      let c' : contains v n ≡ false = ap (contains v) e' ∙ c in
      let f : length (p.dependencies r) ≡ length (p.dependencies n) =
        ap (λ z. length (p.dependencies z)) (sym e') in
      rw (e, c') omega (arith, left_above p v r n (omega (arith, e')), f)
  | inr e ↦ let i = left_visited p v r n (ground (arith, h)) c in rw e omega (arith, i)
]

module _ (p : Program) (edge : List ℕ → ℕ → Dep → List ℕ × Bool) (targets needed : ℕ → List ℕ) where
  -- What the walk looks at next after an RDD, and what it collects there.
  pub record IsEdge : Type 0 where
    pub next :
        (r : ℕ) (m : List ℕ) → (visit_edges p edge (λ _. true) r (p.dependencies r) m).1 ≡ targets r
    pub found :
        (r : ℕ) (m : List ℕ) (d : ℕ)
        → contains (visit_edges p edge (λ _. true) r (p.dependencies r) m).0 d
          ≡ (contains m d || contains (needed r) d)
    pub few : (r : ℕ) → length (targets r) ≤ length (p.dependencies r)
    pub lower : (r t : ℕ) → contains (targets r) t ≡ true → t < r

  -- what the walk comes to from `root`
  pub data Reached (root : ℕ) : ℕ → Type 0 where
    start : Reached root root
    follow : (r t : ℕ) → Reached root r → contains (targets r) t ≡ true → Reached root t

  -- what is collected on the way
  abbrev pub Collects : ℕ → ℕ → Type 0
  Collects root d = (r : ℕ) × Reached root r × (contains (needed r) d ≡ true)

  module _ (good : IsEdge) (root : ℕ) where
    pub Reached-le : (r : ℕ) → Reached root r → r ≤ root
    Reached-le _ start = omega arith
    Reached-le _ (follow r t h c) = omega (arith, Reached-le r h, good.lower r t c)

    record Walked (q v m : List ℕ) : Type 0 where
      queued : (r : ℕ) → contains q r ≡ true → Reached root r
      visited : (r : ℕ) → contains v r ≡ true → Reached root r
      collected : (d : ℕ) → contains m d ≡ true → Collects root d
      closed :
          (r t : ℕ)
          → contains v r ≡ true
          → contains (targets r) t ≡ true
          → (contains v t ≡ true) ⊎ (contains q t ≡ true)
      complete :
          (r d : ℕ) → contains v r ≡ true → contains (needed r) d ≡ true → contains m d ≡ true
      rooted : (contains v root ≡ true) ⊎ (contains q root ≡ true)

    step_skip :
        (n r : ℕ) (q v m : List ℕ)
        → contains v r ≡ true
        → walk_from p edge (λ _. true) (suc n) (r ∷ q) v m ≡ walk_from p edge (λ _. true) n q v m
    unfolding walk_from
    step_skip n r q v m c = rw (walk_from, c) refl

    step_next :
        (n r : ℕ) (q v m : List ℕ)
        → contains v r ≡ false
        → walk_from p edge (λ _. true) (suc n) (r ∷ q) v m
          ≡ walk_from p edge
              (λ _. true)
              n
              (q ++ (visit_edges p edge (λ _. true) r (p.dependencies r) m).1)
              (r ∷ v)
              (visit_edges p edge (λ _. true) r (p.dependencies r) m).0
    unfolding walk_from
    step_next n r q v m c = rw (walk_from, c) refl

    skipped : (r : ℕ) (q v m : List ℕ) → contains v r ≡ true → Walked (r ∷ q) v m → Walked q v m
    skipped r q v m c w = record {
      queued = λ x h. w.queued x (ground (arith, h));
      visited = w.visited;
      collected = w.collected;
      closed = λ x t a b. elim (w.closed x t a b) [
        | inl i ↦ inl i
        | inr i ↦ elim (Bool-cases (t == r)) [
          | inl e ↦ inl (ap (contains v) (ground arith) ∙ c)
          | inr e ↦ inr (ground arith)
        ]
      ];
      complete = w.complete;
      rooted = elim w.rooted [
        | inl i ↦ inl i
        | inr i ↦ elim (Bool-cases (root == r)) [
          | inl e ↦ inl (ap (contains v) (ground arith) ∙ c)
          | inr e ↦ inr (ground arith)
        ]
      ];
    }

    -- a member of the queue after an RDD was visited
    in_queue :
        (r : ℕ) (q v : List ℕ) (x : ℕ)
        → (contains v x ≡ true) ⊎ (contains (r ∷ q) x ≡ true)
        → (contains (r ∷ v) x ≡ true) ⊎ (contains (q ++ targets r) x ≡ true)
    in_queue r q v x (inl i) = inl (ground arith)
    in_queue r q v x (inr i) = elim (Bool-cases (x == r)) [
      | inl e ↦ inl (ground arith)
      | inr e ↦ inr (ground (arith, contains-append q (targets r) x))
    ]

    visited_next :
        (r : ℕ) (q v m m' : List ℕ)
        → ((d : ℕ) → contains m' d ≡ (contains m d || contains (needed r) d))
        → Walked (r ∷ q) v m
        → Walked (q ++ targets r) (r ∷ v) m'
    visited_next r q v m m' f w =
        let here : Reached root r = w.queued r (ground arith) in
        record {
          queued = λ x h. elim (Bool-cases (contains (targets r) x)) [
            | inl i ↦ follow r x here i
            | inr i ↦ w.queued x (ground (arith, contains-append q (targets r) x))
          ];
          visited = λ x h. elim (Bool-cases (x == r)) [
            | inl e ↦ subst (Reached root) (ground arith) here
            | inr e ↦ w.visited x (ground arith)
          ];
          collected = λ d h. elim (Bool-cases (contains m d)) [
            | inl i ↦ w.collected d i
            | inr i ↦ (r, here, ground (arith, f d))
          ];
          closed = λ x t a b. elim (Bool-cases (x == r)) [
            | inl e ↦
                let b' : contains (targets r) t ≡ true =
                  ap (λ z. contains (targets z) t) (sym (ground arith)) ∙ b in
                inr (ground (arith, contains-append q (targets r) t))
            | inr e ↦ in_queue r q v t (w.closed x t (ground arith) b)
          ];
          complete = λ x d a b. elim (Bool-cases (x == r)) [
            | inl e ↦
                let b' : contains (needed r) d ≡ true =
                  ap (λ z. contains (needed z) d) (sym (ground arith)) ∙ b in
                ground (arith, f d)
            | inr e ↦ ground (arith, f d, w.complete x d (ground arith) b)
          ];
          rooted = in_queue r q v root w.rooted;
        }

    walk_from-Walked :
        (n : ℕ) (q v m : List ℕ)
        → length q + left p v (suc root) < n
        → Walked q v m
        → (v' : List ℕ) × Walked [] v' (walk_from p edge (λ _. true) n q v m)
    unfolding walk_from
    walk_from-Walked zero q v m h w = absurd (omega (arith, h))
    walk_from-Walked (suc n) [] v m h w = (v, w)
    walk_from-Walked (suc n) (r ∷ q) v m h w = elim (Bool-cases (contains v r)) [
      | inl c ↦
          let i = walk_from-Walked n q v m (omega (arith, h)) (skipped r q v m c w) in
          (i.0, subst (Walked [] i.0) (sym (step_skip n r q v m c)) i.1)
      | inr c ↦
          let e = visit_edges p edge (λ _. true) r (p.dependencies r) m in
          let t : q ++ targets r ≡ q ++ e.1 = ap (λ z. q ++ z) (sym (good.next r m)) in
          let w' : Walked (q ++ e.1) (r ∷ v) e.0 =
            subst (λ z. Walked z (r ∷ v) e.0) t (visited_next r q v m e.0 (good.found r m) w) in
          let b : r < suc root = omega (arith, Reached-le r (w.queued r (ground arith))) in
          let l : length (q ++ e.1) ≡ length q + length (targets r) =
            ap length (sym t) ∙ length-append q (targets r) in
          let i =
            walk_from-Walked n (q ++ e.1) (r ∷ v) e.0
              (omega (arith, h, l, good.few r, left_visited p v r (suc root) b c)) w' in
          (i.0, subst (Walked [] i.0) (sym (step_next n r q v m c)) i.1)
    ]

    start-Walked : Walked (root ∷ []) [] []
    start-Walked = record {
      queued = λ r h. subst (Reached root) {x = root} {y = r} (ground arith) start;
      visited = λ r h. cc h;
      collected = λ d h. cc h;
      closed = λ r t a b. cc a;
      complete = λ r d a b. cc a;
      rooted = inr (ground arith);
    }

    walk-Walked : (v : List ℕ) × Walked [] v (walk_dependencies p edge (λ _. true) root [])
    unfolding walk_dependencies
    walk-Walked =
        walk_from-Walked (edges_below p (suc root) + 2) (root ∷ []) [] []
          (omega (arith, left-nil p (suc root))) start-Walked

    pub walk-Collects :
        (d : ℕ) → contains (walk_dependencies p edge (λ _. true) root []) d ≡ true → Collects root d
    walk-Collects = (walk-Walked.1).collected

    all_visited : (v m : List ℕ) → Walked [] v m → (r : ℕ) → Reached root r → contains v r ≡ true
    all_visited v m w _ start = elim w.rooted [ inl i ↦ i | inr i ↦ cc i ]
    all_visited v m w _ (follow r t h c) = elim (w.closed r t (all_visited v m w r h) c) [
      | inl i ↦ i
      | inr i ↦ cc i
    ]

    pub Collects-walk :
        (d : ℕ) → Collects root d → contains (walk_dependencies p edge (λ _. true) root []) d ≡ true
    Collects-walk d (r, h, c) = let (v, w) = walk-Walked in w.complete r d (all_visited v _ w r h) c
