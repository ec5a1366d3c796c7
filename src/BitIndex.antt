-- ===== src/BitIndex.antt =====
-- dpark/utils/bitindex.py: `BitIndex`, a growing set of bits in bytes, and `Bloomfilter` over it. The
-- offsets that a Bloom filter gets from its hash functions are an argument.
pub mod Bits
mod Tests
use dpark.Common.{
  ℕ, zero, suc, ◌+◌, ◌-◌, ◌*◌, ◌/◌, ◌%◌, ◌^◌, ◌<◌, ◌≤◌, ◌≡◌, refl, ap, sym, ◌∙◌, Bool, true, false,
  not, ◌&&◌, List, [], ◌∷◌, ◌++◌, length, get_or, set, replicate, leb, max, ◌==◌, if◌then◌else◌,
  arith, inl, inr, Bool-cases,
}

-- `byte & (1 << offset) != 0`
abbrev pub has_bit : ℕ → ℕ → Bool
has_bit byte zero = byte % 2 == 1
has_bit byte (suc offset) = has_bit (byte / 2) offset

-- `byte |= 1 << offset`, and `byte &= ~(1 << offset)`
abbrev pub put_bit : ℕ → ℕ → Bool → ℕ
put_bit byte zero value = byte / 2 * 2 + (if value then 1 else 0)
put_bit byte (suc offset) value = put_bit (byte / 2) offset value * 2 + byte % 2

-- `BitIndex`
pub record BitIndex : Type 0 where
  pub array : List ℕ
  pub size : ℕ

abbrev pub new_index : BitIndex
new_index = record { array = []; size = 0 }

-- `array.extend([0] * (index - length + 1))` where there is no such byte
abbrev pub extend : List ℕ → ℕ → List ℕ
extend array index =
    if leb (length array) index then array ++ replicate (index - length array + 1) 0 else array

-- `set`, for a position that is not negative
unfoldable pub set_pos : BitIndex → ℕ → Bool → BitIndex
set_pos b pos value =
    let array = extend b.array (pos / 8) in
    record {
      array = set array (pos / 8) (put_bit (get_or array (pos / 8) 0) (pos % 8) value);
      size = max b.size (pos + 1);
    }

-- `sets`, `append`, `appends`
unfoldable pub set_all : BitIndex → List ℕ → Bool → BitIndex
unfolding set_pos
set_all b [] value = b
set_all b (pos ∷ positions) value = set_all (set_pos b pos value) positions value

abbrev pub append : BitIndex → Bool → BitIndex
append b value = set_pos b b.size value

unfoldable pub append_all : BitIndex → List Bool → BitIndex
unfolding set_pos
append_all b [] = b
append_all b (value ∷ values) = append_all (append b value) values

-- `get` and `gets`
abbrev pub get_pos : BitIndex → ℕ → Bool
get_pos b pos = if leb b.size pos then false else has_bit (get_or b.array (pos / 8) 0) (pos % 8)

abbrev pub get_all : BitIndex → List ℕ → List Bool
get_all b [] = []
get_all b (pos ∷ positions) = get_pos b pos ∷ get_all b positions

abbrev pub all_true : List Bool → Bool
all_true [] = true
all_true (x ∷ xs) = x && all_true xs

-- `Bloomfilter.add` and `_match`: `offsets` is `_get_offsets`
module _ {A : Type 0} (offsets : A → List ℕ) where
  unfoldable pub add_objs : BitIndex → List A → BitIndex
  unfolding set_all
  add_objs b [] = b
  add_objs b (obj ∷ objs) = add_objs (set_all b (offsets obj) true) objs

  abbrev pub matches : BitIndex → A → Bool
  matches b obj = all_true (get_all b (offsets obj))
