-- ===== src/RunJob/Yielding.antt =====
-- The results that dpark/schedule.py's `runJob` yields over all the ends of its result tasks.
use dpark.Common.{
  ℕ, zero, suc, ◌+◌, ◌-◌, ◌≤◌, ◌<◌, ◌≡◌, refl, sym, ap, ◌∙◌, Bool, true, false, Option, none, some,
  List, [], ◌∷◌, ◌++◌, map, length, get_elem?, get_elem?-lt, length-replicate, replicate,
  count_true, contains, if◌then◌else◌, ok, arith, >>=-eq-ok, or_raise, ltb, or_raise-eq-ok,
  ok-injective, index_error, Bool-cases, inl, inr,
}
use mathlib.Core.Path.{subst}
use dpark.Common.Flags.{count_true-replicate-false}
use dpark.RunJob.{Job, remove, start_job, complete, complete_all, add_all}
use dpark.RunJob.Pending.{NoTwice}
use dpark.RunJob.Delivery.{due_values, IsPrefix, IsDelivered, due_values-cong, complete-step}

module _ {R : Type 0} (v : ℕ → R) where
  -- what a number of events does to a job
  record Yields (job job' : Job R) (out : List (Option R)) : Type 0 where
    parts : job'.output_parts ≡ job.output_parts
    delivered : IsDelivered v job'
    grows : job.last_finished ≤ job'.last_finished
    yielded : out ≡ due_values v job.last_finished (job'.last_finished - job.last_finished)

  complete-Yields :
      (job : Job R) (o : ℕ) (job' : Job R) (out : List (Option R))
      → IsDelivered v job
      → complete job o (v o) ≡ ok (job', out)
      → Yields job job' out
  unfolding complete
  complete-Yields job o job' out c h =
      let (part, g, h₁) = >>=-eq-ok (or_raise (get_elem? job.output_parts o) index_error) _ h in
      let (pending, e, h₂) = >>=-eq-ok (remove part job.pending_tasks) _ h₁ in
      let (d, i) = complete-step v job o part pending c (or_raise-eq-ok _ index_error g) e in
      subst (λ z. Yields job z.0 z.1) (ok-injective h₂)
        (record { parts = refl; delivered = i; grows = d.grows; yielded = d.out })

  due_values-append :
      (a m n : ℕ) → due_values v a m ++ due_values v (a + m) n ≡ due_values v a (m + n)
  due_values-append a zero n =
      due_values-cong v {a = a + 0} {b = a} {m = n} {n = 0 + n} (omega arith) (omega arith)
  due_values-append a (suc m) n =
      ap (λ z. some (v a) ∷ z)
        (ap (λ z. due_values v (a + 1) m ++ z)
            (due_values-cong v {a = a + suc m} {b = a + 1 + m} {m = n} (omega arith) refl)
          ∙ due_values-append (a + 1) m n)
      ∙ due_values-cong v {a = a} {b = a} {m = suc (m + n)} {n = suc m + n} refl (omega arith)

  append_cong : {a b c d : List (Option R)} → a ≡ b → c ≡ d → a ++ c ≡ b ++ d
  append_cong e f = rw (e, f)

  Yields-after :
      (job job₁ job₂ : Job R) (out₁ out₂ : List (Option R))
      → Yields job job₁ out₁
      → Yields job₁ job₂ out₂
      → Yields job job₂ (out₁ ++ out₂)
  Yields-after job job₁ job₂ out₁ out₂ y z = record {
    parts = z.parts ∙ y.parts;
    delivered = z.delivered;
    grows = omega (arith, y.grows, z.grows);
    yielded =
        append_cong y.yielded (
          z.yielded
          ∙ due_values-cong v {a = job₁.last_finished}
              {b = job.last_finished + (job₁.last_finished - job.last_finished)}
              {m = job₂.last_finished - job₁.last_finished} (omega (arith, y.grows)) refl)
        ∙ due_values-append job.last_finished (job₁.last_finished - job.last_finished)
            (job₂.last_finished - job₁.last_finished)
        ∙ due_values-cong v {a = job.last_finished} {b = job.last_finished}
            {m = job₁.last_finished - job.last_finished + (job₂.last_finished - job₁.last_finished)}
            {n = job₂.last_finished - job.last_finished} refl (omega (arith, y.grows, z.grows));
  }

  complete_all-Yields :
      (os : List ℕ) (job job' : Job R) (out : List (Option R))
      → IsDelivered v job
      → complete_all job (map (λ o. (o, v o)) os) ≡ ok (job', out)
      → Yields job job' out
  unfolding complete_all
  complete_all-Yields [] job job' out c h =
      subst (λ z. Yields job z.0 z.1) (ok-injective h)
        (record {
          parts = refl;
          delivered = c;
          grows = omega arith;
          yielded =
              due_values-cong v {a = job.last_finished} {b = job.last_finished} {m = 0}
                {n = job.last_finished - job.last_finished} refl (omega arith);
        })
  complete_all-Yields (o ∷ os) job job' out c h =
      let ((job₁, out₁), e₁, h₁) = >>=-eq-ok (complete job o (v o)) _ h in
      let ((job₂, out₂), e₂, h₂) = >>=-eq-ok (complete_all job₁ (map (λ o. (o, v o)) os)) _ h₁ in
      let y₁ = complete-Yields job o job₁ out₁ c e₁ in
      let y₂ = complete_all-Yields os job₁ job₂ out₂ y₁.delivered e₂ in
      subst (λ z. Yields job z.0 z.1) (ok-injective h₂) (Yields-after job job₁ job₂ out₁ out₂ y₁ y₂)

get_elem?-replicate : (n i : ℕ) (b : Bool) → i < n → get_elem? (replicate n b) i ≡ some b
get_elem?-replicate zero i b h = absurd (omega (arith, h))
get_elem?-replicate (suc n) zero b h = refl
get_elem?-replicate (suc n) (suc i) b h = get_elem?-replicate n i b (omega (arith, h))

not_at_start : {B : Type 0} (n i : ℕ) → get_elem? (replicate n false) i ≡ some true → B
not_at_start zero i h = cc
not_at_start (suc n) zero h = cc
not_at_start (suc n) (suc i) h = not_at_start n i h

count_true-le : (fs : List Bool) → count_true fs ≤ length fs
count_true-le [] = omega arith
count_true-le (true ∷ fs) = omega (arith, count_true-le fs)
count_true-le (false ∷ fs) = omega (arith, count_true-le fs)

all_finished :
    (fs : List Bool) (i : ℕ)
    → count_true fs ≡ length fs
    → i < length fs
    → get_elem? fs i ≡ some true
all_finished [] i h l = absurd (omega (arith, l))
all_finished (true ∷ fs) zero h l = refl
all_finished (true ∷ fs) (suc i) h l = all_finished fs i (omega (arith, h)) (omega (arith, l))
all_finished (false ∷ fs) i h l = absurd (omega (arith, h, count_true-le fs))

add_all-NoTwice : (s xs : List ℕ) → NoTwice s → NoTwice (add_all s xs)
add_all-NoTwice s [] h = h
add_all-NoTwice s (x ∷ xs) h =
    add_all-NoTwice (if contains s x then s else x ∷ s) xs
      (elim (Bool-cases (contains s x)) [ inl p ↦ rw p h | inr p ↦ rw p (p, h) ])

not_both : {B : Type 0} {o : Option Bool} → o ≡ some false → o ≡ some true → B
not_both h g = cc

module _ {R : Type 0} (v : ℕ → R) where
  start_job-IsDelivered : (parts : List ℕ) → IsDelivered v (start_job parts)
  unfolding start_job
  start_job-IsDelivered parts = record {
    finished = length-replicate (length parts) false;
    results = length-replicate (length parts) none;
    counted = sym (count_true-replicate-false (length parts));
    prefix = record {
      inside = omega arith;
      before = λ i h. absurd (omega (arith, h));
      stop = λ h.
          get_elem?-replicate (length parts) 0 false
            (omega (arith, length-replicate (length parts) false, h));
    };
    ready = λ i h g. not_at_start (length parts) i g;
    unique = add_all-NoTwice [] parts tt;
    waiting = λ i p g h. get_elem?-replicate (length parts) i false (get_elem?-lt parts i g);
  }

  -- The tasks of a job end in the order `os`, each task `o` with the result `v o`. If the loop
  -- handles all these events, it has yielded the results of the outputs before `last_finished` in
  -- the order of the outputs, where these are finished and the next one is not. Once as many
  -- tasks are counted as there are outputs, it has yielded the results of all outputs.
  pub complete_all-values :
      (parts os : List ℕ) (job : Job R) (out : List (Option R))
      → complete_all (start_job parts) (map (λ o. (o, v o)) os) ≡ ok (job, out)
      → IsPrefix v job.last_finished job.finished
        × (out ≡ due_values v 0 job.last_finished)
        × (job.num_finished ≡ length parts → out ≡ due_values v 0 (length parts))
  unfolding start_job
  complete_all-values parts os job out h =
      let y = complete_all-Yields v os (start_job parts) job out (start_job-IsDelivered parts) h in
      let c = y.delivered in
      let q : out ≡ due_values v 0 job.last_finished =
        y.yielded
        ∙ due_values-cong v {a = 0} {b = 0} {m = job.last_finished - 0} {n = job.last_finished} refl
            (omega arith) in
      let n : length job.finished ≡ length parts = c.finished ∙ ap length y.parts in
      (
        c.prefix,
        q,
        λ e.
            let all : job.last_finished ≡ length parts =
              elim (Bool-cases (ltb job.last_finished (length job.finished))) [
                | inl p ↦
                    let l : job.last_finished < length job.finished = ground arith in
                    not_both (c.prefix.stop l) (
                      all_finished job.finished job.last_finished (omega (arith, c.counted, e, n))
                        l)
                | inr p ↦ ground (arith, c.prefix.inside, n)
              ] in
            q
            ∙ due_values-cong v {a = 0} {b = 0} {m = job.last_finished} {n = length parts} refl all,
      )
