-- ===== src/BitIndex/Bits.antt =====
-- `BitIndex` and `Bloomfilter` of dpark/utils/bitindex.py: what is found of what was set.
use dpark.Common.{
  ℕ, zero, suc, ◌+◌, ◌-◌, ◌*◌, ◌/◌, ◌%◌, ◌≤◌, ◌<◌, ◌≡◌, refl, sym, ap, ◌∙◌, Bool, true, false, List,
  [], ◌∷◌, ◌++◌, length, length-append, length-replicate, get_or, set, replicate, leb, max, ◌==◌,
  if◌then◌else◌, arith, Bool-cases, inl, inr,
}
use dpark.BitIndex.{
  has_bit, put_bit, BitIndex, extend, set_pos, set_all, get_pos, get_all, add_objs, all_true,
  matches,
}

has_bit-put_same : (o b : ℕ) (v : Bool) → has_bit (put_bit b o v) o ≡ v
has_bit-put_same zero b true = ground arith
has_bit-put_same zero b false = ground arith
has_bit-put_same (suc o) b v =
    let e : (put_bit (b / 2) o v * 2 + b % 2) / 2 ≡ put_bit (b / 2) o v = omega arith in
    ap (λ z. has_bit z o) e ∙ has_bit-put_same o (b / 2) v

has_bit-put_other :
    (o j b : ℕ) (v : Bool) → (o == j) ≡ false → has_bit (put_bit b o v) j ≡ has_bit b j
has_bit-put_other zero zero b v h = cc h
has_bit-put_other zero (suc j) b true h =
    let e : (b / 2 * 2 + 1) / 2 ≡ b / 2 = omega arith in ap (λ z. has_bit z j) e
has_bit-put_other zero (suc j) b false h =
    let e : (b / 2 * 2 + 0) / 2 ≡ b / 2 = omega arith in ap (λ z. has_bit z j) e
has_bit-put_other (suc o) zero b v h =
    let e : (put_bit (b / 2) o v * 2 + b % 2) % 2 ≡ b % 2 = omega arith in ap (λ z. z == 1) e
has_bit-put_other (suc o) (suc j) b v h =
    let e : (put_bit (b / 2) o v * 2 + b % 2) / 2 ≡ put_bit (b / 2) o v = omega arith in
    ap (λ z. has_bit z j) e ∙ has_bit-put_other o j (b / 2) v (ground arith)

-- the bit at a position, wherever the size ends
abbrev raw : List ℕ → ℕ → Bool
raw array pos = has_bit (get_or array (pos / 8) 0) (pos % 8)

-- No bit is set past the size.
abbrev pub IsClean : BitIndex → Type 0
IsClean b = (pos : ℕ) → b.size ≤ pos → raw b.array pos ≡ false

get-raw : (b : BitIndex) (pos : ℕ) → IsClean b → get_pos b pos ≡ raw b.array pos
get-raw b pos c = elim (Bool-cases (leb b.size pos)) [
  | inl h ↦ rw h (sym (c pos (ground arith)))
  | inr h ↦ rw h refl
]

get_or-zeros : (array : List ℕ) (n i : ℕ) → get_or (array ++ replicate n 0) i 0 ≡ get_or array i 0
get_or-zeros [] zero i = refl
get_or-zeros [] (suc n) zero = refl
get_or-zeros [] (suc n) (suc i) = get_or-zeros [] n i
get_or-zeros (x ∷ array) n zero = refl
get_or-zeros (x ∷ array) n (suc i) = get_or-zeros array n i

get_or-extend : (array : List ℕ) (index i : ℕ) → get_or (extend array index) i 0 ≡ get_or array i 0
get_or-extend array index i = elim (Bool-cases (leb (length array) index)) [
  | inl h ↦ rw h (get_or-zeros array (index - length array + 1) i)
  | inr h ↦ rw h refl
]

length-extend : (array : List ℕ) (index : ℕ) → index < length (extend array index)
length-extend array index = elim (Bool-cases (leb (length array) index)) [
  | inl h ↦
      let l : length array ≤ index = ground arith in
      rw h (
        omega (
          arith,
          l,
          length-append array (replicate (index - length array + 1) 0),
          length-replicate {A = ℕ} (index - length array + 1) 0,
        ))
  | inr h ↦ rw h (ground arith)
]

at_same : (l : List ℕ) (i a : ℕ) → i < length l → get_or (set l i a) i 0 ≡ a
at_same [] i a h = absurd (omega (arith, h))
at_same (x ∷ l) zero a h = refl
at_same (x ∷ l) (suc i) a h = at_same l i a (omega (arith, h))

at_other : (l : List ℕ) (i j a : ℕ) → (j == i) ≡ false → get_or (set l i a) j 0 ≡ get_or l j 0
at_other [] i j a h = refl
at_other (x ∷ l) zero zero a h = cc h
at_other (x ∷ l) zero (suc j) a h = refl
at_other (x ∷ l) (suc i) zero a h = refl
at_other (x ∷ l) (suc i) (suc j) a h = at_other l i j a (ground arith)

raw-set :
    (b : BitIndex) (pos : ℕ) (v : Bool) (q : ℕ)
    → raw (set_pos b pos v).array q ≡ (if pos == q then v else raw b.array q)
unfolding set_pos
raw-set b pos v q =
    let array = extend b.array (pos / 8) in
    let byte = put_bit (get_or array (pos / 8) 0) (pos % 8) v in
    elim (Bool-cases (q / 8 == pos / 8)) [
      | inr d ↦
          let n : (pos == q) ≡ false = ground arith in
          rw n (
            ap (λ z. has_bit z (q % 8))
              (at_other array (pos / 8) (q / 8) byte d ∙ get_or-extend b.array (pos / 8) (q / 8)))
      | inl d ↦
          let e : q / 8 ≡ pos / 8 = ground arith in
          let g : get_or (set array (pos / 8) byte) (q / 8) 0 ≡ byte =
            ap (λ z. get_or (set array (pos / 8) byte) z 0) e
            ∙ at_same array (pos / 8) byte (length-extend b.array (pos / 8)) in
          ap (λ z. has_bit z (q % 8)) g ∙ elim (Bool-cases (pos == q)) [
            | inl s ↦
                let s' : q % 8 ≡ pos % 8 = ground arith in
                rw s
                  (ap (has_bit byte) s' ∙ has_bit-put_same (pos % 8) (get_or array (pos / 8) 0) v)
            | inr s ↦
                let s' : (pos % 8 == q % 8) ≡ false = ground arith in
                rw s (
                  has_bit-put_other (pos % 8) (q % 8) (get_or array (pos / 8) 0) v s'
                  ∙ ap (λ z. has_bit z (q % 8))
                      (get_or-extend b.array (pos / 8) (pos / 8)
                        ∙ ap (λ z. get_or b.array z 0) (sym e)))
          ]
    ]

size-set : (b : BitIndex) (pos : ℕ) (v : Bool) → (set_pos b pos v).size ≡ max b.size (pos + 1)
unfolding set_pos
size-set b pos v = refl

set_pos-IsClean : (b : BitIndex) (pos : ℕ) (v : Bool) → IsClean b → IsClean (set_pos b pos v)
set_pos-IsClean b pos v c q h =
    let n : (pos == q) ≡ false = ground (arith, h, size-set b pos v) in
    raw-set b pos v q ∙ rw n (c q (omega (arith, h, size-set b pos v)))

-- Where no bit is set past the size, this holds after a bit was set too, and `get` finds the new
-- value at its position and at all others what it found before.
pub get_pos-set :
    (b : BitIndex) (pos : ℕ) (v : Bool) (q : ℕ)
    → IsClean b
    → IsClean (set_pos b pos v)
      × (get_pos (set_pos b pos v) q ≡ (if pos == q then v else get_pos b q))
get_pos-set b pos v q c =
    let c' = set_pos-IsClean b pos v c in
    (
      c',
      get-raw (set_pos b pos v) q c'
          ∙ raw-set b pos v q
          ∙ ap (λ z. if pos == q then v else z) (sym (get-raw b q c)),
    )

-- a set bit stays set when bits are set
set_all-keeps :
    (positions : List ℕ) (b : BitIndex) (q : ℕ)
    → IsClean b
    → get_pos b q ≡ true
    → IsClean (set_all b positions true) × (get_pos (set_all b positions true) q ≡ true)
unfolding set_all
set_all-keeps [] b q c h = (c, h)
set_all-keeps (pos ∷ positions) b q c h =
    let (c', e) = get_pos-set b pos true q c in
    set_all-keeps positions (set_pos b pos true) q c'
      (e ∙ elim (Bool-cases (pos == q)) [ inl s ↦ rw s refl | inr s ↦ rw s h ])

set_all-IsClean :
    (positions : List ℕ) (b : BitIndex) → IsClean b → IsClean (set_all b positions true)
unfolding set_all
set_all-IsClean [] b c = c
set_all-IsClean (pos ∷ positions) b c =
    set_all-IsClean positions (set_pos b pos true) (set_pos-IsClean b pos true c)

set_all-found :
    (positions : List ℕ) (b : BitIndex)
    → IsClean b
    → all_true (get_all (set_all b positions true) positions) ≡ true
unfolding set_all
set_all-found [] b c = refl
set_all-found (pos ∷ positions) b c =
    let b' = set_pos b pos true in
    let (c', e) = get_pos-set b pos true pos c in
    let s : (pos == pos) ≡ true = ground arith in
    let (_, k) = set_all-keeps positions b' pos c' (e ∙ rw s refl) in
    rw k (set_all-found positions b' c')

all_true-keeps :
    (positions more : List ℕ) (b : BitIndex)
    → IsClean b
    → all_true (get_all b positions) ≡ true
    → all_true (get_all (set_all b more true) positions) ≡ true
all_true-keeps [] more b c h = refl
all_true-keeps (pos ∷ positions) more b c h =
    let (_, k) = set_all-keeps more b pos c (ground (arith, h)) in
    rw k (all_true-keeps positions more b c (ground (arith, h)))

module _ {A : Type 0} (offsets : A → List ℕ) where
  still_matches :
      (objs : List A) (b : BitIndex) (obj : A)
      → IsClean b
      → matches offsets b obj ≡ true
      → matches offsets (add_objs offsets b objs) obj ≡ true
  unfolding add_objs
  still_matches [] b obj c h = h
  still_matches (x ∷ objs) b obj c h =
      still_matches objs (set_all b (offsets x) true) obj (set_all-IsClean (offsets x) b c)
        (all_true-keeps (offsets obj) (offsets x) b c h)

  -- A Bloom filter has no false negatives: an object that was added, at whatever place among
  -- others, matches, whatever the offsets of the objects are.
  pub add_objs-matches :
      (before : List A) (obj : A) (after : List A) (b : BitIndex)
      → IsClean b
      → matches offsets (add_objs offsets b (before ++ obj ∷ after)) obj ≡ true
  unfolding add_objs
  add_objs-matches [] obj after b c =
      still_matches after (set_all b (offsets obj) true) obj (set_all-IsClean (offsets obj) b c)
        (set_all-found (offsets obj) b c)
  add_objs-matches (x ∷ before) obj after b c =
      add_objs-matches before obj after (set_all b (offsets x) true)
        (set_all-IsClean (offsets x) b c)
