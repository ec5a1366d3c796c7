-- ===== src/HostStatus/Choosing.antt =====
-- What `offer_choice` of dpark/hostatus.py chooses: the parts that the hosts fall in depend on the
-- failures alone, and a host is taken from the best part that is not empty.
use dpark.Common.{
  ℕ, ◌-◌, ◌*◌, ◌^◌, ◌≡◌, refl, sym, ap, ◌∙◌, Bool, true, false, ◌&&◌, ◌||◌, Option, none, some,
  List, [], ◌∷◌, length, contains, lookup, ltb, ◌==◌, if◌then◌else◌, ok, key_error, or_raise,
  >>=-eq-ok, or_raise-eq-ok, ok-injective, arith, Bool-cases, inl, inr, Option-cases, map, ◌⊎◌,
}
use dpark.Common.Dicts.{put, has_key, lookup-put_same, lookup-put_other}
use dpark.Task.{TaskId, Host}
use dpark.HostStatus.{
  HostStatus, HostManager, purge_old, should_forbit, recent_succeed_rate, failed_on, last_or,
}
use dpark.HostStatus.Failures.{has_key-put}
use dpark.HostStatus.Choice.{
  Fraction, plus, at_most, Weighted, sum_from, choose_from, random_weighted_choice, Part, classify,
  Sorted, add_to, sort_hosts, choose_offer, choose_part, offer_choice,
}

-- the failures of the task keep it off the host for a time
abbrev pub is_masked : ℕ → TaskId → HostStatus → Bool
is_masked now id h = elim (lookup id h.failed_tasks) [
  | none ↦ false
  | some times ↦ ltb (now - last_or now times) (h.purge_elapsed * 2 ^ length times)
]

abbrev pub part_of : ℕ → TaskId → List Host → Host → HostStatus → Part
part_of now id blacklist host h =
    if contains blacklist host || is_masked now id h
    then Part.forbidden
    else (if failed_on id h then Part.failed else Part.ordinary)

abbrev pub is_ordinary : Part → Bool
is_ordinary Part.ordinary = true
is_ordinary _ = false

abbrev pub is_failed : Part → Bool
is_failed Part.failed = true
is_failed _ = false

-- the host is registered, and falls in a part of the kind `q`
abbrev pub has_part :
    (Part → Bool) → ℕ → TaskId → List Host → List (Host × HostStatus) → Host → Bool
has_part q now id blacklist d host = elim (lookup host d) [
  | none ↦ false
  | some h ↦ q (part_of now id blacklist host h)
]

abbrev pub names {ℓ} : {V : Type ℓ} → List (Host × V) → List Host
names [] = []
names ((h, v) ∷ l) = h ∷ names l

module _ (now : ℕ) (id : TaskId) (blacklist : List Host) where
  classify-part :
      (host : Host) (h : HostStatus)
      → (classify now id blacklist host h).1 ≡ part_of now id blacklist host h
  unfolding classify should_forbit recent_succeed_rate purge_old
  classify-part host h = ground arith

  classify-failed_tasks :
      (host : Host) (h : HostStatus)
      → (classify now id blacklist host h).0.failed_tasks ≡ h.failed_tasks
  unfolding classify should_forbit recent_succeed_rate purge_old
  classify-failed_tasks host h = ground arith

  classify-purge_elapsed :
      (host : Host) (h : HostStatus)
      → (classify now id blacklist host h).0.purge_elapsed ≡ h.purge_elapsed
  unfolding classify should_forbit recent_succeed_rate purge_old
  classify-purge_elapsed host h = ground arith

  part_of-cong :
      (host : Host) (h h' : HostStatus)
      → h'.failed_tasks ≡ h.failed_tasks
      → h'.purge_elapsed ≡ h.purge_elapsed
      → part_of now id blacklist host h' ≡ part_of now id blacklist host h
  part_of-cong host h h' e e' = ground arith

module _ where
  pub choose_from-contains :
      (chosen cur : Fraction) (l : Weighted) (host : Host)
      → choose_from chosen cur l ≡ ok host
      → contains (names l) host ≡ true
  unfolding choose_from
  choose_from-contains chosen cur [] host e = ground arith
  choose_from-contains chosen cur ((h, w) ∷ l) host e =
      ground (arith, choose_from-contains chosen (plus cur w) l host)

  pub choose_from-total :
      (chosen cur : Fraction) (h : Host) (w : Fraction) (l : Weighted)
      → at_most chosen (sum_from cur ((h, w) ∷ l)) ≡ true
      → (host : Host) × (choose_from chosen cur ((h, w) ∷ l) ≡ ok host)
  unfolding choose_from
  choose_from-total chosen cur h w [] e = (h, ground arith)
  choose_from-total chosen cur h w ((h', w') ∷ l) e =
      elim (Bool-cases (at_most chosen (plus cur w))) [
        | inl p ↦ (h, ground arith)
        | inr p ↦ let (x, q) = choose_from-total chosen (plus cur w) h' w' l e in (x, ground arith)
      ]

module _ (now : ℕ) (id : TaskId) (blacklist : List Host) where
  -- a host that was looked at keeps its part
  has_part-put :
      (q : Part → Bool) (d : List (Host × HostStatus)) (host : Host) (h : HostStatus)
      → lookup host d ≡ some h
      → (x : Host)
      → has_part q now id blacklist (put host (classify now id blacklist host h).0 d) x
        ≡ has_part q now id blacklist d x
  has_part-put q d host h l x = elim (Bool-cases (host == x)) [
    | inl p ↦ ground (
      arith,
      lookup-put_same host (classify now id blacklist host h).0 d,
      part_of-cong now id blacklist host h (classify now id blacklist host h).0
          (classify-failed_tasks now id blacklist host h)
          (classify-purge_elapsed now id blacklist host h),
    )
    | inr p ↦ ground (arith, lookup-put_other host x (classify now id blacklist host h).0 d p)
  ]

  -- A list of `Sorted` that takes just the hosts of one kind of part.
  pub record Takes (q : Part → Bool) (sel : Sorted → Weighted) : Type 0 where
    pub start : sel (record { ordi_hosts = []; fail_hosts = [] }) ≡ []
    pub add :
        (part : Part) (host : Host) (w : Fraction) (p : Sorted) (x : Host)
        → contains (names (sel (add_to part host w p))) x
          ≡ ((q part && (x == host)) || contains (names (sel p)) x)

  sort_step :
      {q : Part → Bool} {sel : Sorted → Weighted} (host : Host) (hosts : List Host)
      (d d' : List (Host × HostStatus)) (h : HostStatus) (part : Part) (w : Fraction)
      (p p' : Sorted) (x : Host)
      → Takes q sel
      → p ≡ add_to part host w p'
      → lookup host d ≡ some h
      → part ≡ part_of now id blacklist host h
      → contains (names (sel p')) x ≡ (contains hosts x && has_part q now id blacklist d' x)
      → has_part q now id blacklist d' x ≡ has_part q now id blacklist d x
      → contains (names (sel p)) x ≡ (contains (host ∷ hosts) x && has_part q now id blacklist d x)
  sort_step {q} {sel} host hosts d d' h part w p p' x t e l c r k =
      ap (λ y. contains (names (sel y)) x) e ∙ t.add part host w p' x ∙ ground (arith, ap q c)

  pub sort_hosts-Takes :
      {q : Part → Bool} {sel : Sorted → Weighted} (hosts : List Host)
      (d d' : List (Host × HostStatus)) (p : Sorted)
      → Takes q sel
      → sort_hosts now id blacklist hosts d ≡ ok (d', p)
      → (x : Host)
      → contains (names (sel p)) x ≡ (contains hosts x && has_part q now id blacklist d x)
  unfolding sort_hosts
  sort_hosts-Takes {sel} [] d d' p t e x =
      ap (λ y. contains (names (sel y.1)) x) (sym (ok-injective e))
      ∙ ap (λ l. contains (names l) x) t.start
  sort_hosts-Takes {q} (host ∷ hosts) d d' p t e x =
      let (h, l, e₁) = >>=-eq-ok (or_raise (lookup host d) key_error) _ e in
      let l' = or_raise-eq-ok (lookup host d) key_error l in
      let ((d'', p'), e₂, e₃) =
        >>=-eq-ok
          (sort_hosts now id blacklist hosts (put host (classify now id blacklist host h).0 d)) _
          e₁ in
      sort_step host hosts d _ h _ _ p p' x t (ap (λ y. y.1) (sym (ok-injective e₃))) l'
        (classify-part now id blacklist host h) (sort_hosts-Takes hosts _ d'' p' t e₂ x)
        (has_part-put q d host h l' x)

  ordinary-Takes : Takes is_ordinary (λ p. p.ordi_hosts)
  ordinary-Takes = record { start = refl; add = λ part host w p x. ground arith }

  failed-Takes : Takes is_failed (λ p. p.fail_hosts)
  failed-Takes = record { start = refl; add = λ part host w p x. ground arith }

  sort_hosts-total :
      (hosts : List Host) (d : List (Host × HostStatus))
      → ((x : Host) → contains hosts x ≡ true → has_key x d ≡ true)
      → (r : List (Host × HostStatus) × Sorted) × (sort_hosts now id blacklist hosts d ≡ ok r)
  unfolding sort_hosts
  sort_hosts-total [] d reg = ((d, record { ordi_hosts = []; fail_hosts = [] }), refl)
  sort_hosts-total (host ∷ hosts) d reg = elim (Option-cases (lookup host d)) [
    | inl p ↦ ground (arith, reg host)
    | inr (h, p) ↦
        let c = classify now id blacklist host h in
        let ((d', s), e) =
          sort_hosts-total hosts (put host c.0 d)
            (λ x k. has_key-put host x c.0 d ∙ ground (arith, reg x)) in
        ((d', add_to c.1 host c.2 s), ground arith)
  ]

module _ {Offer : Type 0} (uniform : Fraction → Fraction) (offers : List (Host × (ℕ × Offer))) where
  -- The offer is that of a host of the list.
  pub IsFrom : Weighted → ℕ × Offer → Type 0
  IsFrom l o = (host : Host) × (contains (names l) host ≡ true) × (lookup host offers ≡ some o)

  choose_offer-IsFrom :
      (l : Weighted) (o : ℕ × Offer) → choose_offer uniform offers l ≡ ok o → IsFrom l o
  unfolding choose_offer random_weighted_choice IsFrom
  choose_offer-IsFrom l o e =
      let (host, e₁, e₂) = >>=-eq-ok (random_weighted_choice uniform l) _ e in
      (
        host,
        choose_from-contains (uniform (sum_from (0, 1) l)) (0, 1) l host e₁,
        or_raise-eq-ok (lookup host offers) key_error e₂,
      )

-- The host of the choice takes part in the offers, is not kept off by the blacklist or a recent
-- failure, and has a failure of the task only if each host that may be taken has one.
pub IsChoice :
    {Offer : Type 0}
    → ℕ
    → TaskId
    → List (Host × (ℕ × Offer))
    → List Host
    → HostManager
    → ℕ × Offer
    → Type 0
IsChoice now id offers blacklist m o =
    (host : Host) × (lookup host offers ≡ some o)
    × ((has_part is_ordinary now id blacklist m.host_dict host ≡ true)
        ⊎ ((has_part is_failed now id blacklist m.host_dict host ≡ true)
            × ((x : Host)
                → contains (names offers) x ≡ true
                → has_part is_ordinary now id blacklist m.host_dict x ≡ false)))

module _ {Offer : Type 0} (now : ℕ) (uniform : Fraction → Fraction) (id : TaskId)
    (offers : List (Host × (ℕ × Offer))) (blacklist : List Host) (m : HostManager) where
  HoldsPart : (Part → Bool) → Weighted → Type 0
  HoldsPart q l =
      (x : Host)
      → contains (names l) x
        ≡ (contains (names offers) x && has_part q now id blacklist m.host_dict x)

  choose_part-IsChoice :
      (os fs : Weighted) (o : ℕ × Offer)
      → HoldsPart is_ordinary os
      → HoldsPart is_failed fs
      → choose_part uniform offers (record { ordi_hosts = os; fail_hosts = fs }) ≡ ok (some o)
      → IsChoice now id offers blacklist m o
  unfolding choose_part IsChoice IsFrom HoldsPart
  choose_part-IsChoice (w ∷ ws) fs o ho hf e =
      let (o', e₁, e₂) = >>=-eq-ok (choose_offer uniform offers (w ∷ ws)) _ e in
      let (host, c, l) = choose_offer-IsFrom uniform offers (w ∷ ws) o' e₁ in
      (host, l ∙ ok-injective e₂, inl (ground (arith, ho host, c)))
  choose_part-IsChoice [] (w ∷ ws) o ho hf e =
      let (o', e₁, e₂) = >>=-eq-ok (choose_offer uniform offers (w ∷ ws)) _ e in
      let (host, c, l) = choose_offer-IsFrom uniform offers (w ∷ ws) o' e₁ in
      (host, l ∙ ok-injective e₂, inr (ground (arith, hf host, c), λ x k. ground (arith, ho x)))
  choose_part-IsChoice [] [] o ho hf e = cc

  choose_part-none :
      (os fs : Weighted)
      → HoldsPart is_ordinary os
      → HoldsPart is_failed fs
      → choose_part uniform offers (record { ordi_hosts = os; fail_hosts = fs }) ≡ ok none
      → (x : Host) → contains (names offers) x ≡ true
      → (has_part is_ordinary now id blacklist m.host_dict x ≡ false)
        × (has_part is_failed now id blacklist m.host_dict x ≡ false)
  unfolding choose_part HoldsPart
  choose_part-none (w ∷ ws) fs ho hf e x k =
      let (o', e₁, e₂) = >>=-eq-ok (choose_offer uniform offers (w ∷ ws)) _ e in cc
  choose_part-none [] (w ∷ ws) ho hf e x k =
      let (o', e₁, e₂) = >>=-eq-ok (choose_offer uniform offers (w ∷ ws)) _ e in cc
  choose_part-none [] [] ho hf e x k = (ground (arith, ho x), ground (arith, hf x))

  names-lookup :
      {V : Type 0} (l : List (Host × V)) (x : Host)
      → contains (names l) x ≡ true
      → (v : V) × (lookup x l ≡ some v)
  names-lookup [] x h = cc
  names-lookup ((j, v) ∷ l) x h = elim (Bool-cases (j == x)) [
    | inl p ↦ (v, ground arith)
    | inr p ↦ let (u, e) = names-lookup l x (ground arith) in (u, ground arith)
  ]

  choose_offer-total :
      (q : Part → Bool) (w : Host × Fraction) (ws : Weighted)
      → ((t : Fraction) → at_most (uniform t) t ≡ true)
      → HoldsPart q (w ∷ ws)
      → (o : ℕ × Offer) × (choose_offer uniform offers (w ∷ ws) ≡ ok o)
  unfolding choose_offer random_weighted_choice HoldsPart
  choose_offer-total q (h, w) ws u hl =
      let t = sum_from (0, 1) ((h, w) ∷ ws) in
      let (host, e) = choose_from-total (uniform t) (0, 1) h w ws (u t) in
      let c = choose_from-contains (uniform t) (0, 1) ((h, w) ∷ ws) host e in
      let (o, l) = names-lookup offers host (ground (arith, hl host)) in (o, rw (e, l))

  choose_part-total :
      (os fs : Weighted)
      → ((t : Fraction) → at_most (uniform t) t ≡ true)
      → HoldsPart is_ordinary os
      → HoldsPart is_failed fs
      → (r : Option (ℕ × Offer)) × (choose_part uniform offers
            (record { ordi_hosts = os; fail_hosts = fs })
          ≡ ok r)
  unfolding choose_part
  choose_part-total (w ∷ ws) fs u ho hf =
      let (o, e) = choose_offer-total is_ordinary w ws u ho in (some o, rw e)
  choose_part-total [] (w ∷ ws) u ho hf =
      let (o, e) = choose_offer-total is_failed w ws u hf in (some o, rw e)
  choose_part-total [] [] u ho hf = (none, refl)

  -- The answer names a choice, or no host of the offers may be taken.
  pub IsAnswer : Option (ℕ × Offer) → Type 0
  IsAnswer (some o) = IsChoice now id offers blacklist m o
  IsAnswer none =
      (x : Host)
      → contains (names offers) x ≡ true
      → (has_part is_ordinary now id blacklist m.host_dict x ≡ false)
        × (has_part is_failed now id blacklist m.host_dict x ≡ false)

  answer :
      (os fs : Weighted) (r : Option (ℕ × Offer))
      → HoldsPart is_ordinary os
      → HoldsPart is_failed fs
      → choose_part uniform offers (record { ordi_hosts = os; fail_hosts = fs }) ≡ ok r
      → IsAnswer r
  unfolding IsAnswer
  answer os fs (some o) ho hf e = choose_part-IsChoice os fs o ho hf e
  answer os fs none ho hf e = choose_part-none os fs ho hf e

  names_lem : {V : Type 0} (l : List (Host × V)) → map (λ e. e.0) l ≡ names l
  names_lem [] = refl
  names_lem ((h, v) ∷ l) = ap (λ k. h ∷ k) (names_lem l)

  -- `offer_choice` returns if each host of the offers is registered and the draw is at most the
  -- total. What it answers is the offer of a host that is not on the blacklist or kept off by a
  -- recent failure, one without a failure of the task if there is one; or, if no host may be
  -- taken, nothing.
  pub offer_choice_lem :
      ((t : Fraction) → at_most (uniform t) t ≡ true)
      → ((x : Host) → contains (names offers) x ≡ true → has_key x m.host_dict ≡ true)
      → (r : HostManager × Option (ℕ × Offer)) × (offer_choice now uniform id offers blacklist m
          ≡ ok r)
        × IsAnswer r.1
  unfolding offer_choice HoldsPart
  offer_choice_lem u reg =
      let ((d, s), e) = sort_hosts-total now id blacklist (names offers) m.host_dict reg in
      let ho =
        sort_hosts-Takes now id blacklist (names offers) m.host_dict d s
          (ordinary-Takes now id blacklist) e in
      let hf =
        sort_hosts-Takes now id blacklist (names offers) m.host_dict d s
          (failed-Takes now id blacklist) e in
      let (r, e') = choose_part-total s.ordi_hosts s.fail_hosts u ho hf in
      (
        (record m { host_dict = d }, r),
        rw (names_lem offers, e, e'),
        answer s.ordi_hosts s.fail_hosts r ho hf e',
      )
