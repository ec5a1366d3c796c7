-- ===== src/Accumulator.antt =====
-- dpark/accumulator.py: the accumulators of one process, for the sums of `numAcc`. An accumulator
-- is its id and its value. `originals` has those that the process made; `localAccums` has the id
-- of an original, or a copy that came with a task.
pub mod Merging
mod Tests
use dpark.Common.{
  ℕ, ◌+◌, Option, none, some, List, [], ◌∷◌, lookup, Result, ok, raise, key_error, or_raise, ◌>>=◌,
}
use dpark.Common.Dicts.{put}

pub data LocalAccum : Type 0 where
  original : LocalAccum
  copy : ℕ → LocalAccum

pub record Accums : Type 0 where
  pub originals : List (ℕ × ℕ)
  pub local_accums : List (ℕ × LocalAccum)

-- `__init__` of the accumulator `id`
unfoldable pub new_accum : ℕ → ℕ → Accums → Accums
new_accum id value s = record s { originals = put id value s.originals }

-- `__setstate__`: a copy with the zero value
unfoldable pub load_accum : ℕ → Accums → Accums
load_accum id s = record s { local_accums = put id (copy 0) s.local_accums }

-- `add` of an original, which is registered as local too
unfoldable pub add_original : ℕ → ℕ → Accums → Result Accums
add_original id v s = do
  value ← or_raise (lookup id s.originals) key_error
  ok (record {
    originals = put id (value + v) s.originals;
    local_accums = put id original s.local_accums;
  })

-- `add` of a copy with the value `value`
unfoldable pub add_copy : ℕ → ℕ → ℕ → Accums → Accums
add_copy id value v s = record s { local_accums = put id (copy (value + v)) s.local_accums }

-- `reset` of the originals among the local accumulators
unfoldable pub reset_originals : List (ℕ × LocalAccum) → List (ℕ × ℕ) → List (ℕ × ℕ)
reset_originals [] d = d
reset_originals ((id, original) ∷ ls) d = reset_originals ls (put id 0 d)
reset_originals ((id, copy v) ∷ ls) d = reset_originals ls d

-- `clear`
unfoldable pub clear : Accums → Accums
unfolding reset_originals
clear s = record { originals = reset_originals s.local_accums s.originals; local_accums = [] }

-- `values`
abbrev pub value_or : ℕ → Option ℕ → ℕ
value_or d none = d
value_or d (some v) = v

unfoldable pub local_values : List (ℕ × ℕ) → List (ℕ × LocalAccum) → List (ℕ × ℕ)
local_values d [] = []
local_values d ((id, original) ∷ ls) = (id, value_or 0 (lookup id d)) ∷ local_values d ls
local_values d ((id, copy v) ∷ ls) = (id, v) ∷ local_values d ls

unfoldable pub values : Accums → Accums × List (ℕ × ℕ)
unfolding clear local_values
values s = (clear s, local_values s.originals s.local_accums)

-- `merge`
unfoldable pub merge : List (ℕ × ℕ) → Accums → Result Accums
unfolding add_original
merge [] s = ok s
merge ((id, v) ∷ vs) s = do s' ← add_original id v s; merge vs s'
