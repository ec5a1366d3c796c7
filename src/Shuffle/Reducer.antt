-- ===== src/Shuffle/Reducer.antt =====
-- `DiskHashMerger` of dpark/shuffle.py: whether and when it writes to disk does not matter.
use dpark.Common.{
  false, Result, ok, raise, ◌>>=◌, ok-injective, ℕ, ◌+◌, ◌≡◌, refl, sym, ap, ◌∙◌, Bool, ◌&&◌,
  Option, none, some, List, [], ◌∷◌, ◌++◌, lookup, if◌then◌else◌,
}
use mathlib.Core.List.{append_assoc}
use dpark.Common.Keyed.{select, Unique, at_most_one, combine_all, join, IsAssociative}
use dpark.Shuffle.{DiskHashMerger, dump_combined, merge_value_in}
use dpark.Shuffle.Heads.{select_all, AllSorted}

module _ {C : Type 0} where
  pub select_all-append :
      (k : ℕ) (ls ms : List (List (ℕ × C)))
      → select_all k (ls ++ ms) ≡ select_all k ls ++ select_all k ms
  select_all-append k [] ms = refl
  select_all-append k (l ∷ ls) ms =
      ap (λ z. select k l ++ z) (select_all-append k ls ms)
      ∙ sym (append_assoc (select k l) (select_all k ls) (select_all k ms))

  -- The archives are sorted, and `combined` has each key once.
  pub record IsMerging (m : DiskHashMerger C) : Type 0 where
    pub sorted : AllSorted m.archives
    pub unique : Unique m.combined

-- the items of batches, one after the other
abbrev pub all_of : {C : Type 0} → List (List (ℕ × C)) → List (ℕ × C)
all_of [] = []
all_of (b ∷ bs) = b ++ all_of bs

-- after how many of the items, counted from `seen`, the merger writes to disk
abbrev pub rotations : {C : Type 0} → Bool → (ℕ → Bool) → ℕ → List (ℕ × C) → ℕ
rotations use_disk over seen [] = 0
rotations use_disk over seen (x ∷ l) =
    (if use_disk && over seen then 1 else 0) + rotations use_disk over (seen + 1) l

pub bind_ok {ℓ κ} :
    {A : Type ℓ} {B : Type κ} (m : Result A) (f : A → Result B) {a : A} → m ≡ ok a → (m >>= f) ≡ f a
bind_ok (ok b) f e = ap f (ok-injective e)
bind_ok (raise x) f e = cc

module _ {C : Type 0} (op : C → C → C) where
  -- what the merger holds for a key: what is on disk, and then what is in memory
  abbrev pub held : ℕ → DiskHashMerger C → Option C
  held k m = join op (combine_all op (select_all k m.archives)) (lookup k m.combined)

  pub combine_all-at_most_one : (o : Option C) → combine_all op (at_most_one o) ≡ o
  combine_all-at_most_one none = refl
  combine_all-at_most_one (some c) = refl

module _ {C : Type 0} (op : C → C → C) (assoc : IsAssociative op) where
  module _ (is_none : C → Bool) (never : (c : C) → is_none c ≡ false) (use_disk : Bool)
      (over : ℕ → Bool) where
    -- the merger before it looks at the memory limit
    abbrev with_item : DiskHashMerger C → ℕ → C → DiskHashMerger C
    with_item m i c = record m {
      combined = merge_value_in is_none op m.combined i c;
      seen = m.seen + 1;
    }

    -- a merger without a limit on its rotations
    abbrev item_merged : DiskHashMerger C → ℕ → C → DiskHashMerger C
    item_merged m i c =
        if use_disk && over m.seen then dump_combined (with_item m i c) else with_item m i c

    items_merged : DiskHashMerger C → List (ℕ × C) → DiskHashMerger C
    items_merged m [] = m
    items_merged m ((i, c) ∷ items) = items_merged (item_merged m i c) items

    batches_merged : DiskHashMerger C → List (List (ℕ × C)) → DiskHashMerger C
    batches_merged m [] = m
    batches_merged m (b ∷ bs) = batches_merged (items_merged m b) bs

    -- what a list of items comes to for a key
    abbrev worth : ℕ → List (ℕ × C) → Option C
    worth k items = combine_all op (select k items)
