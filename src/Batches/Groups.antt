-- ===== src/Batches/Groups.antt =====
-- `GroupByAutoBatchedSerializer` of dpark/shuffle.py: the groups that it cuts are put together again
-- by `group_by_simple` of dpark/utils/nested_groupby.py.
use dpark.Common.{ℕ, ◌<◌, ◌≡◌, false, List, [], ◌∷◌, ◌++◌, ◌==◌}
use dpark.Batches.{Coding, Batching, emit}
use dpark.Batches.RoundTrip.{IsLossless, contents}
use dpark.Batches.Pieces.{IsSame, open_content}

module _ {V : Type 0} where
  -- no group has the key of the one before it
  abbrev pub KeysDiffer : ℕ → List (ℕ × List V) → Type 0
  KeysDiffer key [] = Unit
  KeysDiffer key ((k, vs) ∷ groups) = ((k == key) ≡ false) × KeysDiffer k groups

  abbrev pub AllDiffer : List (ℕ × List V) → Type 0
  AllDiffer [] = Unit
  AllDiffer ((k, vs) ∷ groups) = KeysDiffer k groups

module _ {V : Type 0} (coding : Coding (ℕ × List V)) (lossless : IsLossless coding) where
  abbrev yielded : Batching V → Batching V
  yielded b =
      let d = emit coding b.serializer b.batch b.batch_num in
      record { serializer = d.0; batch_num = d.1; batch = []; num = 0 }

  -- nothing is open after a flush, and the same is in it
  record IsFlushed (b b' : Batching V) : Type 0 where
    pos : 0 < b'.batch_num
    closed : b'.batch ≡ []
    same : contents coding b'.serializer.written ≡ open_content coding lossless b

  -- what a group adds
  record Takes (b b' : Batching V) (groups : List (ℕ × List V)) : Type 0 where
    pos : 0 < b'.batch_num
    same : IsSame (open_content coding lossless b') (open_content coding lossless b ++ groups)
