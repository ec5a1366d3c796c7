-- ===== src/HostStatus/Choice.antt =====
-- dpark/hostatus.py: `offer_choice` and `_random_weighted_choice`. The draw `random.uniform(0,
-- total)` is the parameter `uniform`, a function of the total; fractions stand for the floats.
use dpark.Common.{
  ℕ, ◌+◌, ◌*◌, Bool, Option, none, some, List, [], ◌∷◌, contains, lookup, leb, if◌then◌else◌,
  Result, ok, raise, key_error, assertion_error, or_raise, ◌>>=◌, map,
}
use dpark.Common.Dicts.{put}
use dpark.Task.{TaskId, Host}
use dpark.HostStatus.{HostStatus, HostManager, should_forbit, recent_succeed_rate, failed_on}

abbrev pub Fraction : Type 0
Fraction = ℕ × ℕ

abbrev pub plus : Fraction → Fraction → Fraction
plus (a, b) (c, d) = (a * d + c * b, b * d)

abbrev pub at_most : Fraction → Fraction → Bool
at_most (a, b) (c, d) = leb (a * d) (c * b)

abbrev pub Weighted : Type 0
Weighted = List (Host × Fraction)

-- `sum(w for h, w in w_list)`, from `total`
abbrev pub sum_from : Fraction → Weighted → Fraction
sum_from total [] = total
sum_from total ((h, w) ∷ l) = sum_from (plus total w) l

-- the loop of `_random_weighted_choice`
unfoldable pub choose_from : Fraction → Fraction → Weighted → Result Host
choose_from chosen cur [] = raise assertion_error
choose_from chosen cur ((h, w) ∷ l) =
    let rest = choose_from chosen (plus cur w) l in
    if at_most chosen (plus cur w) then ok h else rest

unfoldable pub random_weighted_choice : (Fraction → Fraction) → Weighted → Result Host
unfolding choose_from
random_weighted_choice uniform l = choose_from (uniform (sum_from (0, 1) l)) (0, 1) l

-- the part of the offers that a host falls in
pub data Part : Type 0 where
  ordinary failed forbidden : Part

-- one host of the loop: its status afterwards, its part, and its success rate if it is asked for
unfoldable pub classify : ℕ → TaskId → List Host → Host → HostStatus → HostStatus × Part × Fraction
unfolding should_forbit recent_succeed_rate
classify now id blacklist host h =
    if contains blacklist host
    then (h, Part.forbidden, (0, 1))
    else (let (h₁, masked) = should_forbit now id h in
        let (h₂, rate) = recent_succeed_rate now h₁ in
        if masked
        then (h₁, Part.forbidden, (0, 1))
        else (h₂, (if failed_on id h₁ then Part.failed else Part.ordinary), rate))

-- `ordi_hosts` and `fail_hosts`
pub record Sorted : Type 0 where
  pub ordi_hosts : Weighted
  pub fail_hosts : Weighted

abbrev pub add_to : Part → Host → Fraction → Sorted → Sorted
add_to Part.ordinary host w p = record p { ordi_hosts = (host, w) ∷ p.ordi_hosts }
add_to Part.failed host w p = record p { fail_hosts = (host, w) ∷ p.fail_hosts }
add_to Part.forbidden host w p = p

-- the loop of `offer_choice` over the hosts of the offers, in their order
unfoldable pub sort_hosts :
    ℕ
    → TaskId
    → List Host
    → List Host
    → List (Host × HostStatus)
    → Result (List (Host × HostStatus) × Sorted)
unfolding classify
sort_hosts now id blacklist [] d = ok (d, record { ordi_hosts = []; fail_hosts = [] })
sort_hosts now id blacklist (host ∷ hosts) d = do
  h ← or_raise (lookup host d) key_error
  let (h', part, w) = classify now id blacklist host h
  (d', p) ← sort_hosts now id blacklist hosts (put host h' d)
  ok (d', add_to part host w p)

module _ {Offer : Type 0} where
  -- `host_offers[self._random_weighted_choice(l)]`
  unfoldable pub choose_offer :
      (Fraction → Fraction) → List (Host × (ℕ × Offer)) → Weighted → Result (ℕ × Offer)
  unfolding random_weighted_choice
  choose_offer uniform offers l = do
    host ← random_weighted_choice uniform l
    or_raise (lookup host offers) key_error

  unfoldable pub choose_part :
      (Fraction → Fraction) → List (Host × (ℕ × Offer)) → Sorted → Result (Option (ℕ × Offer))
  unfolding choose_offer
  choose_part uniform offers p = elim p.ordi_hosts [
    | w ∷ ws ↦ choose_offer uniform offers (w ∷ ws) >>= λ o. ok (some o)
    | [] ↦ elim p.fail_hosts [
      | w ∷ ws ↦ choose_offer uniform offers (w ∷ ws) >>= λ o. ok (some o)
      | [] ↦ ok none
    ]
  ]

  -- `offer_choice`
  unfoldable pub offer_choice :
      ℕ
      → (Fraction → Fraction)
      → TaskId
      → List (Host × (ℕ × Offer))
      → List Host
      → HostManager
      → Result (HostManager × Option (ℕ × Offer))
  unfolding sort_hosts choose_part
  offer_choice now uniform id offers blacklist m = do
    (d, p) ← sort_hosts now id blacklist (map (λ e. e.0) offers) m.host_dict
    o ← choose_part uniform offers p
    ok (record m { host_dict = d }, o)
