-- ===== src/Cogroup.antt =====
-- `cogroup_no_dup` of dpark/utils/nested_groupby.py: the groups of several iterators by their keys,
-- which rise in each of them. A cursor is the number of an iterator and what is left of it, its
-- current group first; a cursor without a group is deleted.
pub mod Cursor
pub mod Rows
mod Tests
use dpark.Common.{
  ℕ, zero, suc, ◌+◌, Option, none, some, List, [], ◌∷◌, length, set, replicate, ltb, ◌==◌,
  if◌then◌else◌,
}
use dpark.Shuffle.{total_length}

abbrev pub Cursors : Type 0 → Type 0
Cursors V = List (ℕ × List (ℕ × List V))

module _ {V : Type 0} where
  -- the first round: each iterator at its first group
  abbrev pub start : ℕ → List (List (ℕ × List V)) → Cursors V
  start i [] = []
  start i ([] ∷ iters) = start (i + 1) iters
  start i ((x ∷ it) ∷ iters) = (i, x ∷ it) ∷ start (i + 1) iters

  -- `min(curr, key=_key)[0][0]`
  abbrev pub least : Cursors V → Option ℕ
  least [] = none
  least ((i, []) ∷ curr) = least curr
  least ((i, (j, vs) ∷ it) ∷ curr) = elim (least curr) [
    | none ↦ some j
    | some m ↦ some (if ltb m j then m else j)
  ]

  -- the loop that fills `t`
  abbrev pub row : ℕ → Cursors V → List (List V) → List (List V)
  row m [] t = t
  row m ((i, []) ∷ curr) t = row m curr t
  row m ((i, (j, vs) ∷ it) ∷ curr) t = row m curr (if j == m then set t i vs else t)

  -- the loop that goes on with the iterators at the least key, and the deletions
  abbrev pub advance : ℕ → Cursors V → Cursors V
  advance m [] = []
  advance m ((i, []) ∷ curr) = advance m curr
  advance m ((i, (j, vs) ∷ it) ∷ curr) =
      let rest = advance m curr in
      if j == m
      then elim it [ [] ↦ rest | x ∷ it' ↦ (i, x ∷ it') ∷ rest ]
      else (i, (j, vs) ∷ it) ∷ rest

  -- the other rounds: each takes a group, so the number of the groups is enough fuel
  unfoldable pub cogroup_from : ℕ → ℕ → Cursors V → List (ℕ × List (List V))
  cogroup_from zero n curr = []
  cogroup_from (suc fuel) n curr = elim (least curr) [
    | none ↦ []
    | some m ↦ (m, row m curr (replicate n [])) ∷ cogroup_from fuel n (advance m curr)
  ]

  unfoldable pub cogroup_no_dup : List (List (ℕ × List V)) → List (ℕ × List (List V))
  unfolding cogroup_from
  cogroup_no_dup iters = cogroup_from (total_length iters) (length iters) (start 0 iters)
