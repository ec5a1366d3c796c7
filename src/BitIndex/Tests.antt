-- ===== src/BitIndex/Tests.antt =====
-- Runs of the bit sets, and their theorems at them.
use dpark.Common.{
  ℕ, zero, suc, ◌*◌, ◌%◌, ◌≡◌, refl, true, false, List, [], ◌∷◌, ◌++◌, if◌then◌else◌, ◌==◌,
}
use dpark.BitIndex.{has_bit, new_index, set_pos, append_all, get_pos, add_objs, matches}
use dpark.BitIndex.Bits.{IsClean, get_pos-set, add_objs-matches}

appended : append_all new_index (true ∷ false ∷ true ∷ []) ≡ record { array = 5 ∷ []; size = 3 }
unfolding append_all
appended = refl

far : set_pos new_index 17 true ≡ record { array = 0 ∷ 0 ∷ 2 ∷ []; size = 18 }
unfolding set_pos
far = refl

new-IsClean : IsClean new_index
new-IsClean pos h = no_bit (pos % 8)
  where
    no_bit : (o : ℕ) → has_bit 0 o ≡ false
    no_bit zero = refl
    no_bit (suc o) = no_bit o

get_pos-set_example :
    IsClean (set_pos new_index 17 true)
    × (get_pos (set_pos new_index 17 true) 17 ≡ (if 17 == 17 then true else get_pos new_index 17))
get_pos-set_example = get_pos-set new_index 17 true 17 new-IsClean

abbrev two_offsets : ℕ → List ℕ
two_offsets obj = obj % 16 ∷ (obj * 3) % 16 ∷ []

add_objs-matches_example :
    matches two_offsets (add_objs two_offsets new_index ((40 ∷ []) ++ 7 ∷ 23 ∷ [])) 7 ≡ true
add_objs-matches_example = add_objs-matches two_offsets (40 ∷ []) 7 (23 ∷ []) new_index new-IsClean
