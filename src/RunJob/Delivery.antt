-- ===== src/RunJob/Delivery.antt =====
-- What one successful end of a result task does in dpark/schedule.py's `runJob`: the results that
-- are due are yielded in the order of the outputs.
use dpark.Common.{
  ℕ, zero, suc, ◌+◌, ◌-◌, ◌≤◌, ◌<◌, ◌≡◌, refl, sym, ap, ◌∙◌, Bool, true, false, Option, none, some,
  List, [], ◌∷◌, map, length, get_elem?, get_elem?-lt, get_elem?-some, get_elem?-set_self,
  get_elem?-set_ne, length-set, get_or, set, count_true, contains, ◌==◌, ok, arith, Bool-cases, inl,
  inr, if_either,
}
use dpark.Common.Flags.{count_true-set-true}
use dpark.Dependency.{count_from}
use dpark.RunJob.{Job, remove, deliver, delivered}
use dpark.RunJob.Pending.{NoTwice, remove-contains, remove-subset, remove-gone, remove-NoTwice}

module _ {R : Type 0} (v : ℕ → R) where
  -- the results of `n` outputs from `a`
  abbrev pub due_values : ℕ → ℕ → List (Option R)
  due_values a n = map (λ i. some (v i)) (count_from a n)

  -- every output from `last` on that is finished has its result
  abbrev pub Ready : ℕ → List Bool → List (Option R) → Type 0
  Ready last finished results =
      (i : ℕ)
      → last ≤ i
      → get_elem? finished i ≡ some true
      → get_elem? results i ≡ some (some (v i))

  -- the outputs before `last` are finished, and that at `last` is not
  pub record IsPrefix (last : ℕ) (finished : List Bool) : Type 0 where
    pub inside : last ≤ length finished
    pub before : (i : ℕ) → i < last → get_elem? finished i ≡ some true
    pub stop : last < length finished → get_elem? finished last ≡ some false

  -- what the delivery from `last` does
  pub record Delivers (last : ℕ) (finished : List Bool) (d : List (Option R) × ℕ × List (Option R))
      : Type 0 where
    pub grows : last ≤ d.1
    pub prefix : IsPrefix d.1 finished
    pub ready : Ready d.1 finished d.0
    pub out : d.2 ≡ due_values last (d.1 - last)

  get_or-some :
      {A : Type 0} (l : List A) (i : ℕ) (d : A) {a : A} → get_elem? l i ≡ some a → get_or l i d ≡ a
  get_or-some [] i d h = cc
  get_or-some (x ∷ l) zero d h = cc
  get_or-some (x ∷ l) (suc i) d h = get_or-some l i d h

  pub due_values-cong : {a b m n : ℕ} → a ≡ b → m ≡ n → due_values a m ≡ due_values b n
  due_values-cong e f = rw (e, f)

  stays-Delivers :
      (last : ℕ) (finished : List Bool) (results : List (Option R))
      → last ≤ length finished
      → (last < length finished → get_elem? finished last ≡ some false)
      → ((i : ℕ) → i < last → get_elem? finished i ≡ some true)
      → Ready last finished results
      → Delivers last finished (results, last, [])
  stays-Delivers last finished results l s b r = record {
    grows = omega arith;
    prefix = record { inside = l; before = b; stop = s };
    ready = r;
    out = due_values-cong {a = last} {b = last} {m = 0} {n = last - last} refl (omega arith);
  }

  before-suc :
      (last : ℕ) (finished : List Bool)
      → ((i : ℕ) → i < last → get_elem? finished i ≡ some true)
      → get_elem? finished last ≡ some true
      → (i : ℕ) → i < last + 1
      → get_elem? finished i ≡ some true
  before-suc last finished b g i h = elim (Bool-cases (i == last)) [
    | inl p ↦ ground arith
    | inr p ↦ b i (ground arith)
  ]

  Ready-suc :
      (last : ℕ) (finished : List Bool) (results : List (Option R))
      → Ready last finished results
      → Ready (last + 1) finished (set results last none)
  Ready-suc last finished results r i h g =
      get_elem?-set_ne results {i = last} {j = i} none (omega (arith, h)) ∙ r i (omega (arith, h)) g

  deliver-Delivers :
      (k last : ℕ) (finished : List Bool) (results : List (Option R))
      → last + k ≡ length finished
      → ((i : ℕ) → i < last → get_elem? finished i ≡ some true)
      → Ready last finished results
      → Delivers last finished (deliver k last finished results)
  unfolding deliver
  deliver-Delivers zero last finished results e b r =
      stays-Delivers last finished results (omega (arith, e)) (λ h. absurd (omega (arith, e, h))) b
        r
  deliver-Delivers (suc k) last finished results e b r =
      let (x, g) = get_elem?-some finished last (omega (arith, e)) in
      elim (Bool-cases x) [
        | inr p ↦
            let q : get_or finished last false ≡ false = get_or-some finished last false g ∙ p in
            rw q (stays-Delivers last finished results (omega (arith, e)) (λ h. g ∙ ap some p) b r)
        | inl p ↦
            let t : get_elem? finished last ≡ some true = g ∙ ap some p in
            let q : get_or finished last false ≡ true = get_or-some finished last false t in
            let w = get_or-some results last none (r last (omega arith) t) in
            let rest = deliver k (last + 1) finished (set results last none) in
            let d =
              deliver-Delivers k (last + 1) finished (set results last none) (omega (arith, e))
                (before-suc last finished b t) (Ready-suc last finished results r) in
            rw (q, w)
              (record {
                grows = omega (arith, d.grows);
                prefix = d.prefix;
                ready = d.ready;
                out =
                    ap (λ z. some (v last) ∷ z) d.out
                    ∙ sym (
                        due_values-cong {a = last} {b = last} {m = rest.1 - last}
                          {n = suc (rest.1 - (last + 1))} refl (omega (arith, d.grows)));
              })
      ]

  -- The state between two events: a task that is pending is not finished.
  pub record IsDelivered (job : Job R) : Type 0 where
    pub finished : length job.finished ≡ length job.output_parts
    pub results : length job.results ≡ length job.output_parts
    pub counted : job.num_finished ≡ count_true job.finished
    pub prefix : IsPrefix job.last_finished job.finished
    pub ready : Ready job.last_finished job.finished job.results
    pub unique : NoTwice job.pending_tasks
    pub waiting :
        (i p : ℕ)
        → get_elem? job.output_parts i ≡ some p
        → contains job.pending_tasks p ≡ true
        → get_elem? job.finished i ≡ some false

  not_open :
      (job : Job R) (o : ℕ) (part : ℕ) (pending : List ℕ)
      → IsDelivered job
      → get_elem? job.output_parts o ≡ some part
      → remove part job.pending_tasks ≡ ok pending
      → (i p : ℕ) → get_elem? job.output_parts i ≡ some p
      → contains pending p ≡ true
      → get_elem? (set job.finished o true) i ≡ some false
  not_open job o part pending c g e i p h k = elim (Bool-cases (o == i)) [
    | inl q ↦ ground (arith, remove-gone part job.pending_tasks pending c.unique e)
    | inr q ↦
        get_elem?-set_ne job.finished true (ground arith)
        ∙ c.waiting i p h (remove-subset part job.pending_tasks pending e p k)
  ]

  still_true :
      (fs : List Bool) (o i : ℕ)
      → get_elem? fs i ≡ some true
      → get_elem? (set fs o true) i ≡ some true
  still_true fs o i h = elim (Bool-cases (o == i)) [
    | inl q ↦ ground (arith, get_elem?-set_self fs o true (ground (arith, get_elem?-lt fs i h)))
    | inr q ↦ get_elem?-set_ne fs true (ground arith) ∙ h
  ]

  set-Ready :
      (fs : List Bool) (rs : List (Option R)) (o : ℕ)
      → o < length rs
      → (i : ℕ) → get_elem? (set fs o true) i ≡ some true
      → (get_elem? fs i ≡ some true → get_elem? rs i ≡ some (some (v i)))
      → get_elem? (set rs o (some (v o))) i ≡ some (some (v i))
  set-Ready fs rs o l i f h = elim (Bool-cases (o == i)) [
    | inl q ↦ ground (arith, get_elem?-set_self rs o (some (v o)) l)
    | inr q ↦
        get_elem?-set_ne rs {i = o} {j = i} (some (v o)) (ground arith)
        ∙ h (sym (get_elem?-set_ne fs {i = o} {j = i} true (ground arith)) ∙ f)
  ]

  length-deliver :
      (k last : ℕ) (fs : List Bool) (rs : List (Option R))
      → length (deliver k last fs rs).0 ≡ length rs
  unfolding deliver
  length-deliver zero last fs rs = refl
  length-deliver (suc k) last fs rs =
      if_either (λ (d : List (Option R) × ℕ × List (Option R)). length d.0 ≡ length rs)
        (get_or fs last false)
        (length-deliver k (last + 1) fs (set rs last none) ∙ length-set rs last none) refl

  pub complete-step :
      (job : Job R) (o part : ℕ) (pending : List ℕ)
      → IsDelivered job
      → get_elem? job.output_parts o ≡ some part
      → remove part job.pending_tasks ≡ ok pending
      → let finished = set job.finished o true in
        let results = set job.results o (some (v o)) in
        let d =
          deliver
            (length job.output_parts - job.last_finished)
            job.last_finished
            finished
            results in
        Delivers job.last_finished finished d × IsDelivered (delivered job finished d pending)
  complete-step job o part pending c g e =
      let o_lt = get_elem?-lt job.output_parts o g in
      let finished = set job.finished o true in
      let results = set job.results o (some (v o)) in
      let n = length job.output_parts in
      let lf : length finished ≡ n = length-set job.finished o true ∙ c.finished in
      let was_open = c.waiting o part g (remove-contains part job.pending_tasks pending e) in
      let d =
        deliver-Delivers (n - job.last_finished) job.last_finished finished results
          (omega (arith, lf, c.prefix.inside, c.finished))
          (λ i h. still_true job.finished o i (c.prefix.before i h))
          (λ i h f.
            set-Ready job.finished job.results o (omega (arith, o_lt, c.results)) i f
              (c.ready i h)) in
      (
        d,
        record {
          finished = lf;
          results =
              length-deliver (n - job.last_finished) job.last_finished finished results
              ∙ length-set job.results o (some (v o))
              ∙ c.results;
          counted = omega (arith, c.counted, count_true-set-true job.finished o was_open);
          prefix = d.prefix;
          ready = d.ready;
          unique = remove-NoTwice part job.pending_tasks pending c.unique e;
          waiting = not_open job o part pending c g e;
        },
      )
