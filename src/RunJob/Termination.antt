-- ===== src/RunJob/Termination.antt =====
-- The loop of dpark/schedule.py's `runJob` over the events of its result tasks does not raise.
use dpark.Common.{
  ℕ, ◌-◌, ◌<◌, ◌≡◌, refl, true, false, Option, some, List, [], ◌∷◌, ◌++◌, map, length, get_elem?,
  get_elem?-some, set, contains, ◌==◌, ok, arith, Bool-cases, inl, inr, if_either, if◌then◌else◌,
  zero, suc,
}
use dpark.RunJob.{Job, remove, add_all, start_job, deliver, delivered, complete, complete_all}
use dpark.RunJob.Pending.{NoTwice}
use dpark.RunJob.Delivery.{IsPrefix, due_values}
use dpark.RunJob.Yielding.{complete_all-values}

-- no two outputs are of the same partition
abbrev pub AreDistinct : List ℕ → Type 0
AreDistinct parts = (i j p : ℕ) → get_elem? parts i ≡ some p → get_elem? parts j ≡ some p → i ≡ j

remove-total :
    (x : ℕ) (l : List ℕ)
    → contains l x ≡ true
    → (l' : List ℕ) × (remove x l ≡ ok l')
      × ((z : ℕ) → (z == x) ≡ false → contains l z ≡ true → contains l' z ≡ true)
unfolding remove
remove-total x [] h = cc
remove-total x (y ∷ ys) h = elim (Bool-cases (y == x)) [
  | inl p ↦ (ys, rw p, λ z n c. ground arith)
  | inr p ↦
      let (l, e, k) = remove-total x ys (ground arith) in
      (y ∷ l, rw (p, e), λ z n c. ground (arith, k z))
]

add_all-contains : (s xs : List ℕ) (z : ℕ) → contains s z ≡ true → contains (add_all s xs) z ≡ true
add_all-contains s [] z h = h
add_all-contains s (x ∷ xs) z h =
    add_all-contains (if contains s x then s else x ∷ s) xs z
      (if_either (λ l. contains l z ≡ true) (contains s x) h (ground arith))

first_added :
    (s : List ℕ) (x p : ℕ) → some x ≡ some p → contains (if contains s x then s else x ∷ s) p ≡ true
first_added s x p h = elim (Bool-cases (contains s x)) [
  | inl q ↦ rw q (ground arith)
  | inr q ↦ rw q (ground arith)
]

add_all-get_elem? :
    (s xs : List ℕ) (i p : ℕ) → get_elem? xs i ≡ some p → contains (add_all s xs) p ≡ true
add_all-get_elem? s [] i p h = cc
add_all-get_elem? s (x ∷ xs) zero p h =
    add_all-contains (if contains s x then s else x ∷ s) xs p (first_added s x p h)
add_all-get_elem? s (x ∷ xs) (suc i) p h =
    add_all-get_elem? (if contains s x then s else x ∷ s) xs i p h

in_rest : (o j : ℕ) (os : List ℕ) → contains os j ≡ true → contains (o ∷ os) j ≡ true
in_rest o j os h = ground arith

-- the other outputs' tasks stay pending
still_pending :
    (parts pending pending' os : List ℕ) (o p : ℕ)
    → AreDistinct parts
    → contains os o ≡ false
    → get_elem? parts o ≡ some p
    → ((z : ℕ) → (z == p) ≡ false → contains pending z ≡ true → contains pending' z ≡ true)
    → (j : ℕ) → contains os j ≡ true
    → (q : ℕ) × (get_elem? parts j ≡ some q) × (contains pending q ≡ true)
    → (q : ℕ) × (get_elem? parts j ≡ some q) × (contains pending' q ≡ true)
still_pending parts pending pending' os o p d n g k j h (q, g', c) = elim (Bool-cases (q == p)) [
  | inr r ↦ (q, g', k q r c)
  | inl r ↦ ground (arith, d o j p g)
]

module _ {R : Type 0} (v : ℕ → R) where
  -- the outputs' tasks are pending
  AllPending : List ℕ → Job R → Type 0
  AllPending os job =
      (o : ℕ)
      → contains os o ≡ true
      → (p : ℕ) × (get_elem? job.output_parts o ≡ some p) × (contains job.pending_tasks p ≡ true)

  complete_all-total :
      (os : List ℕ) (job : Job R)
      → AreDistinct job.output_parts
      → NoTwice os
      → AllPending os job
      → (r : Job R × List (Option R)) × (complete_all job (map (λ o. (o, v o)) os) ≡ ok r)
  unfolding complete_all complete AllPending
  complete_all-total [] job d s a = ((job, []), refl)
  complete_all-total (o ∷ os) job d s a =
      let (p, g, c) = a o (ground arith) in
      let (pending, e, k) = remove-total p job.pending_tasks c in
      let finished = set job.finished o true in
      let results = set job.results o (some (v o)) in
      let due =
        deliver (length job.output_parts - job.last_finished) job.last_finished finished results in
      let ((job', out), e') =
        complete_all-total os (delivered job finished due pending) d s.1 (λ j h.
          still_pending job.output_parts job.pending_tasks pending os o p d s.0 g k j h
            (a j (in_rest o j os h))) in
      ((job', due.2 ++ out), rw (g, e, e'))

  -- what the loop does with the events of the outputs `os`
  pub record IsServed (parts os : List ℕ) (job : Job R) (out : List (Option R)) : Type 0 where
    pub handled : complete_all (start_job parts) (map (λ o. (o, v o)) os) ≡ ok (job, out)
    pub prefix : IsPrefix v job.last_finished job.finished
    pub yielded : out ≡ due_values v 0 job.last_finished
    pub all : job.num_finished ≡ length parts → out ≡ due_values v 0 (length parts)

  -- Different tasks `os` of a job over different partitions end one after the other in any order, each
  -- task `o` with the result `v o`. The loop handles all these events. It has then yielded, in the
  -- order of the outputs, the results of the outputs before `last_finished`; these are finished,
  -- and the output at `last_finished` is not. Once as many ends are counted as there are outputs,
  -- it has yielded the results of all outputs.
  pub complete_all-IsServed :
      (parts os : List ℕ)
      → AreDistinct parts
      → NoTwice os
      → ((o : ℕ) → contains os o ≡ true → o < length parts)
      → (job : Job R) × (out : List (Option R)) × IsServed parts os job out
  unfolding start_job AllPending
  complete_all-IsServed parts os d s l =
      let ((job, out), e) = complete_all-total os (start_job parts) d s (λ o h.
        let (p, g) = get_elem?-some parts o (l o h) in (p, g, add_all-get_elem? [] parts o p g)) in
      let (prefix, yielded, all) = complete_all-values v parts os job out e in
      (job, out, record { handled = e; prefix = prefix; yielded = yielded; all = all })
