-- ===== src/TaskSet/Launching.antt =====
-- What `taskOffer` does: it keeps the invariant, and every task that it starts was not launched
-- before and fits into the offer that it is started on.
use mathlib.Core.Path.{subst, subst₂}
use dpark.Common.{
  sym, map, set, Bool, ◌++◌, or_raise-eq-ok, ℕ, zero, suc, ◌+◌, ◌≡◌, refl, ap, ◌∙◌, true, false,
  Option, none, some, List, [], ◌∷◌, length, get_elem?, arith, ok, count_true, Bool-cases,
  Option-cases, ◌||◌, inl, inr, >>=-eq-ok, or_raise, index_error,
}
use dpark.Common.Flags.{count_true-set-true}
use dpark.TaskSet.{Env, TaskSet, Offer, Free}
use dpark.TaskSet.Invariant.{
  IsConsistent, SameBooks, SameBooks-IsConsistent, start_task-IsConsistent,
}
use dpark.Task.{Host, Task, TaskId, try_next}
use dpark.TaskSet.Offering.{
  Launch, Offers, fits, start_task, can_start, find_task_from_list, try_update_task_offer,
  get_pending_with_cache, offer_found_task, offer_to_host, offer_local, offer_chosen, offer_to_task,
  offer_any, offer_rest, prepend, task_offer,
}

-- The launch fits into the free resources of its slave.
abbrev pub IsFitting : List Free → Launch → Type 0
IsFitting free (i, o, t) = (f : Free) × (get_elem? free i ≡ some f) × (fits t f ≡ true)

abbrev pub AllFitting : List Free → List Launch → Type 0
AllFitting free [] = Unit
AllFitting free (l ∷ ls) = IsFitting free l × AllFitting free ls

abbrev pub to_list : Option Launch → List Launch
to_list none = []
to_list (some l) = l ∷ []

-- The launches are of tasks with these ids: each at its place, whose flag was not set before and is
-- set by it.
pub data Starts (ids : List TaskId) : List Bool → List ℕ → List Launch → List Bool → Type 0 where
  no_start : (flags : List Bool) → Starts ids flags [] [] flags
  start :
      (flags flags' : List Bool) (p i : ℕ) (o : Offer) (t : Task) (ps : List ℕ) (ls : List Launch)
      → get_elem? flags p ≡ some false
      → get_elem? ids p ≡ some t.id
      → Starts ids (set flags p true) ps ls flags'
      → Starts ids flags (p ∷ ps) ((i, o, t) ∷ ls) flags'

Starts-append :
    {ids : List TaskId} {f g h : List Bool} {ps qs : List ℕ} {ls ms : List Launch}
    → Starts ids f ps ls g
    → Starts ids g qs ms h
    → Starts ids f (ps ++ qs) (ls ++ ms) h
Starts-append (no_start flags) b = b
Starts-append (start f g p i o t ps ls u e a) b = start f _ p i o t _ _ u e (Starts-append a b)

abbrev pub task_id : Task → TaskId
task_id t = t.id

abbrev pub task_ids : {env : Env} → TaskSet env → List TaskId
task_ids s = map task_id s.tasks

get_elem?-map :
    (l : List Task) (i : ℕ) (t : Task)
    → get_elem? l i ≡ some t
    → get_elem? (map task_id l) i ≡ some t.id
get_elem?-map [] i t h = cc
get_elem?-map (x ∷ l) zero t h = let q : x ≡ t = cc h in ap (λ z. some z.id) q
get_elem?-map (x ∷ l) (suc i) t h = get_elem?-map l i t h

-- the ids stay when a task is written back
map-set :
    (l : List Task) (i : ℕ) (t t' : Task)
    → get_elem? l i ≡ some t
    → t'.id ≡ t.id
    → map task_id (set l i t') ≡ map task_id l
map-set [] i t t' h e = refl
map-set (x ∷ l) zero t t' h e =
    let q : x ≡ t = cc h in ap (λ z. z ∷ map task_id l) (e ∙ sym (ap task_id q))
map-set (x ∷ l) (suc i) t t' h e = rw (map-set l i t t' h e) refl

-- From `s` the set has come to `s'` by the launches `ls`: each has its own place, with a task of
-- the id that the set has there, which was not launched; no other flag changes.
pub record Launches {env : Env} (free : List Free) (s s' : TaskSet env) (ls : List Launch)
    : Type 0 where
  pub consistent : IsConsistent s'
  pub counted : count_true s'.launched ≡ count_true s.launched + length ls
  pub fitting : AllFitting free ls
  pub ids : task_ids s' ≡ task_ids s
  pub places : List ℕ
  pub starts : Starts (task_ids s) s.launched places ls s'.launched

module _ (env : Env) (free : List Free) where
  can_start-unlaunched :
      (s : TaskSet env) (i : ℕ) (host : Host) (f : Free)
      → can_start env s i host f ≡ ok true
      → get_elem? s.launched i ≡ some false
  unfolding can_start
  can_start-unlaunched s i host f h = ground arith

  find_task-unlaunched :
      (s : TaskSet env) (l : List ℕ) (host : Host) (f : Free) (i : ℕ)
      → find_task_from_list env s l host f ≡ ok (some i)
      → get_elem? s.launched i ≡ some false
  unfolding find_task_from_list
  find_task-unlaunched s [] host f i h = cc
  find_task-unlaunched s (j ∷ l) host f i h =
      let (b, e, e') = >>=-eq-ok (can_start env s j host f) _ h in
      ground (arith, can_start-unlaunched s i host f, find_task-unlaunched s l host f i)

  none-Launches : (s : TaskSet env) → IsConsistent s → Launches free s s []
  none-Launches s c = record {
    consistent = c;
    counted = omega arith;
    fitting = tt;
    ids = refl;
    places = [];
    starts = no_start s.launched;
  }

  get_pending-tasks :
      (s : TaskSet env) (host : Host) → (get_pending_with_cache env s host).0.tasks ≡ s.tasks
  unfolding get_pending_with_cache
  get_pending-tasks s host = ground arith

  get_pending-SameBooks :
      (s : TaskSet env) (host : Host) → SameBooks s (get_pending_with_cache env s host).0
  unfolding get_pending_with_cache
  get_pending-SameBooks s host = ground arith

  after_books :
      {s s₁ s' : TaskSet env} {ls : List Launch}
      → SameBooks s s₁
      → s₁.tasks ≡ s.tasks
      → Launches free s₁ s' ls
      → Launches free s s' ls
  after_books {s} {s₁} {s'} {ls} b q r = record {
    consistent = r.consistent;
    counted = omega (arith, ap count_true b.launched, r.counted);
    fitting = r.fitting;
    ids = r.ids ∙ ap (map task_id) q;
    places = r.places;
    starts =
        subst₂ (λ ids flags. Starts ids flags r.places ls s'.launched) (ap (map task_id) q)
          b.launched r.starts;
  }

  starts_from :
      {s s₁ s₂ : TaskSet env} {ls ls' : List Launch} (a : Launches free s s₁ ls)
      (b : Launches free s₁ s₂ ls')
      → Starts (task_ids s) s₁.launched b.places ls' s₂.launched
  starts_from {s} {s₁} {s₂} {ls} {ls'} a b =
      subst (λ ids. Starts ids s₁.launched b.places ls' s₂.launched) a.ids b.starts

  then_Launches :
      {s s₁ s₂ : TaskSet env} (s' : TaskSet env) (l : Option Launch) (ls : List Launch)
      {ls' : List Launch}
      → Launches free s s₁ (to_list l)
      → Launches free s₁ s₂ ls'
      → s' ≡ s₂
      → ls ≡ prepend l ls'
      → Launches free s s' ls
  then_Launches s' none ls a b e p =
      rw (e, p)
        (record {
          consistent = b.consistent;
          counted = omega (arith, a.counted, b.counted);
          fitting = b.fitting;
          ids = b.ids ∙ a.ids;
          places = a.places ++ b.places;
          starts = Starts-append a.starts (starts_from a b);
        })
  then_Launches s' (some l) ls a b e p =
      rw (e, p)
        (record {
          consistent = b.consistent;
          counted = omega (arith, a.counted, b.counted);
          fitting = (a.fitting.0, b.fitting);
          ids = b.ids ∙ a.ids;
          places = a.places ++ b.places;
          starts = Starts-append a.starts (starts_from a b);
        })

  start_task-ids :
      (now : ℕ) (s : TaskSet env) (idx : ℕ) (t : Task) (o : Offer)
      → get_elem? s.tasks idx ≡ some t
      → task_ids (start_task env now s idx t o).0 ≡ task_ids s
  unfolding start_task try_next
  start_task-ids now s idx t o e = map-set s.tasks idx t _ e refl

  start_task-Starts :
      (now : ℕ) (s : TaskSet env) (idx i : ℕ) (t : Task) (o : Offer)
      → get_elem? s.tasks idx ≡ some t
      → get_elem? s.launched idx ≡ some false
      → Starts
          (task_ids s)
          s.launched
          (idx ∷ [])
          ((i, o, (start_task env now s idx t o).1) ∷ [])
          (start_task env now s idx t o).0.launched
  unfolding start_task try_next
  start_task-Starts now s idx i t o e u =
      start s.launched _ idx i o _ [] [] u (get_elem?-map s.tasks idx t e) (no_start _)

  module _ (now : ℕ) where
    try_update-Launches :
        (s s' : TaskSet env) (idx i : ℕ) (o : Offer) (l : Option Launch)
        → IsConsistent s
        → get_elem? s.launched idx ≡ some false
        → try_update_task_offer env now s idx i o free ≡ ok (s', l)
        → Launches free s s' (to_list l)
    unfolding try_update_task_offer
    try_update-Launches s s' idx i o l c u h =
        let (t, te, h') = >>=-eq-ok (or_raise (get_elem? s.tasks idx) index_error) _ h in
        let (f, fe, e) = >>=-eq-ok (or_raise (get_elem? free i) index_error) _ h' in
        elim (Bool-cases (fits t f)) [
          | inl fit ↦
              let p : (s' ≡ (start_task env now s idx t o).0)
                  × (l ≡ some (i, o, (start_task env now s idx t o).1)) =
                ground arith in
              rw (p.0, p.1)
                (record {
                  consistent = start_task-IsConsistent now s idx t o c u;
                  counted =
                      unfold start_task in omega (arith, count_true-set-true s.launched idx u);
                  fitting = ((f, ground arith, unfold start_task try_next in fit), tt);
                  ids = start_task-ids now s idx t o (or_raise-eq-ok _ _ te);
                  places = idx ∷ [];
                  starts = start_task-Starts now s idx i t o (or_raise-eq-ok _ _ te) u;
                })
          | inr refused ↦
              let p : (s' ≡ s) × (l ≡ none) = ground arith in rw (p.0, p.1) (none-Launches s c)
        ]

    offer_found :
        (s s' : TaskSet env) (i : ℕ) (o : Offer) (l : Option Launch) (found : Option ℕ)
        → IsConsistent s
        → ((idx : ℕ) → found ≡ some idx → get_elem? s.launched idx ≡ some false)
        → offer_found_task env now s i o free found ≡ ok (s', l)
        → Launches free s s' (to_list l)
    unfolding offer_found_task
    offer_found s s' i o l none c u h =
        let p : (s' ≡ s) × (l ≡ none) = ground arith in rw (p.0, p.1) (none-Launches s c)
    offer_found s s' i o l (some idx) c u h = try_update-Launches s s' idx i o l c (u idx refl) h

    offer_to_host-Launches :
        (s s' : TaskSet env) (host : Host) (i : ℕ) (o : Offer) (l : Option Launch)
        → IsConsistent s
        → offer_to_host env now s host i o free ≡ ok (s', l)
        → Launches free s s' (to_list l)
    unfolding offer_to_host
    offer_to_host-Launches s s' host i o l c h =
        let (s₁, pending) = get_pending_with_cache env s host in
        let books : SameBooks s (get_pending_with_cache env s host).0 =
          get_pending-SameBooks s host in
        let c₁ = SameBooks-IsConsistent books c in
        let (f, fe, h') = >>=-eq-ok (or_raise (get_elem? free i) index_error) _ h in
        let (found, e, h'') = >>=-eq-ok (find_task_from_list env s₁ pending host f) _ h' in
        after_books books (get_pending-tasks s host) (
          offer_found s₁ s' i o l found c₁
            (λ idx p. find_task-unlaunched s₁ pending host f idx (e ∙ ap ok p)) h'')

    offer_local-Launches :
        (s s' : TaskSet env) (offers : Offers) (ls : List Launch)
        → IsConsistent s
        → offer_local env now s offers free ≡ ok (s', ls)
        → Launches free s s' ls
    unfolding offer_local
    offer_local-Launches s s' [] ls c h =
        let p : (s' ≡ s) × (ls ≡ []) = ground arith in rw (p.0, p.1) (none-Launches s c)
    offer_local-Launches s s' ((host, i, o) ∷ offers) ls c h =
        let ((s₁, l), e, h') = >>=-eq-ok (offer_to_host env now s host i o free) _ h in
        let ((s₂, ls'), e', h'') = >>=-eq-ok (offer_local env now s₁ offers free) _ h' in
        let first = offer_to_host-Launches s s₁ host i o l c e in
        let rest = offer_local-Launches s₁ s₂ offers ls' first.consistent e' in
        then_Launches s' l ls first rest (ground arith) (ground arith)

    offer_chosen-Launches :
        (s s' : TaskSet env) (idx : ℕ) (choice : Option (ℕ × Offer)) (l : Option Launch)
        → IsConsistent s
        → get_elem? s.launched idx ≡ some false
        → offer_chosen env now s idx free choice ≡ ok (s', l)
        → Launches free s s' (to_list l)
    unfolding offer_chosen
    offer_chosen-Launches s s' idx none l c u h =
        let p : (s' ≡ s) × (l ≡ none) = ground arith in rw (p.0, p.1) (none-Launches s c)
    offer_chosen-Launches s s' idx (some (i, o)) l c u h = try_update-Launches s s' idx i o l c u h

    offer_to_task-Launches :
        (s s' : TaskSet env) (idx : ℕ) (offers : Offers) (l : Option Launch)
        → IsConsistent s
        → offer_to_task env now s idx offers free ≡ ok (s', l)
        → Launches free s s' (to_list l)
    unfolding offer_to_task
    offer_to_task-Launches s s' idx offers l c h =
        let (launched, le, h₁) = >>=-eq-ok (or_raise (get_elem? s.launched idx) index_error) _ h in
        let (finished, fe, h₂) = >>=-eq-ok (or_raise (get_elem? s.finished idx) index_error) _ h₁ in
        let (t, te, h₃) = >>=-eq-ok (or_raise (get_elem? s.tasks idx) index_error) _ h₂ in
        let (hosts, he, h₄) =
          >>=-eq-ok (or_raise (get_elem? s.running_hosts idx) index_error) _ h₃ in
        elim (Bool-cases (launched || finished)) [
          | inl busy ↦
              let p : (s' ≡ s) × (l ≡ none) = ground arith in rw (p.0, p.1) (none-Launches s c)
          | inr idle ↦
              let (manager, choice) = env.offer_choice s.manager now t.id offers hosts in
              let books : SameBooks s (record s { manager = manager }) = record {
                tasks = refl;
                launched = refl;
                finished = refl;
                failures = refl;
                hosts = refl;
                n = refl;
                launched_count = refl;
                finished_count = refl;
              } in
              after_books books refl (
                offer_chosen-Launches (record s { manager = manager }) s' idx choice l
                  (SameBooks-IsConsistent books c) (ground arith) (ground arith))
        ]

    offer_any-Launches :
        (s s' : TaskSet env) (k idx : ℕ) (offers : Offers) (ls : List Launch)
        → IsConsistent s
        → offer_any env now s k idx offers free ≡ ok (s', ls)
        → Launches free s s' ls
    unfolding offer_any
    offer_any-Launches s s' zero idx offers ls c h =
        let p : (s' ≡ s) × (ls ≡ []) = ground arith in rw (p.0, p.1) (none-Launches s c)
    offer_any-Launches s s' (suc k) idx offers ls c h =
        let ((s₁, l), e, h') = >>=-eq-ok (offer_to_task env now s idx offers free) _ h in
        let first = offer_to_task-Launches s s₁ idx offers l c e in
        elim (Option-cases l) [
          | inl p ↦
              let rest =
                offer_any-Launches s₁ s' k (idx + 1) offers ls first.consistent (rw p at h') in
              then_Launches s' none ls (rw p at first) rest refl refl
          | inr (x, p) ↦
              let q : (s' ≡ s₁) × (ls ≡ x ∷ []) = ground arith in rw (q.0, q.1) (rw p at first)
        ]

    task_offer_rest :
        (s s₁ s' : TaskSet env) (offers : Offers) (ls₁ ls : List Launch)
        → Launches free s s₁ ls₁
        → offer_rest env now s₁ offers free ls₁ ≡ ok (s', ls)
        → Launches free s s' ls
    unfolding offer_rest
    task_offer_rest s s₁ s' offers (x ∷ xs) ls r h =
        let q : (s' ≡ s₁) × (ls ≡ x ∷ xs) = ground arith in rw (q.0, q.1) r
    task_offer_rest s s₁ s' offers [] ls r h =
        then_Launches s' none ls r
          (offer_any-Launches s₁ s' (length s₁.tasks) 0 offers ls r.consistent h) refl refl

    -- If `taskOffer` returns on a consistent set, the set stays consistent, and each task that it
    -- returns has a place of its own in the set: the task has the id that the set has there, the
    -- place was not launched before and is launched by it, so no task is handed out twice; no other
    -- place is launched, and the number of launches is counted. Each task fits into its slave's
    -- offer.
    pub task_offer-Launches :
        (s s' : TaskSet env) (offers : Offers) (ls : List Launch)
        → IsConsistent s
        → task_offer env now s offers free ≡ ok (s', ls)
        → Launches free s s' ls
    unfolding task_offer
    task_offer-Launches s s' offers ls c h =
        let ((s₁, ls₁), e, h') = >>=-eq-ok (offer_local env now s offers free) _ h in
        task_offer_rest s s₁ s' offers ls₁ ls (offer_local-Launches s s₁ offers ls₁ c e) h'
