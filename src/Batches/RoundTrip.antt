-- ===== src/Batches/RoundTrip.antt =====
-- `AutoBatchedSerializer` of dpark/shuffle.py: what it writes is loaded again, in batches that are
-- not empty.
use dpark.Common.{
  true, false, Error, Result, ok, raise, ℕ, zero, suc, ◌+◌, ◌*◌, ◌<◌, ◌≡◌, refl, sym, ap, ◌∙◌, Bool,
  List, [], ◌∷◌, ◌++◌, length, take, ltb, arith, Bool-cases, inl, inr, ◌⊎◌,
}
use mathlib.Core.List.{append-nil, append_assoc}
use mathlib.Core.Path.{subst}
use dpark.Batches.{
  Coding, Bytes, Packet, Serializer, load_packet, write_buf, encode, load_stream, next_num,
  dump_batch,
}

-- the branch for a list that is not empty
pub pick_cons :
    {A C : Type 0} (l : List A) (x : A) (xs : List A) (a b : C)
    → l ≡ x ∷ xs
    → elim l [ [] ↦ a | _ ∷ _ ↦ b ] ≡ b
pick_cons l x xs a b h = rw h refl

-- the branch for the empty list
pub pick_nil : {A C : Type 0} (l : List A) (a b : C) → l ≡ [] → elim l [ [] ↦ a | _ ∷ _ ↦ b ] ≡ a
pick_nil l a b h = rw h refl

-- What the libraries promise: what is dumped is loaded, and what is compressed is decompressed.
pub record IsLossless {A : Type 0} (coding : Coding A) : Type 0 where
  pub marshalled :
      (vs : List A) (b : Bytes) → coding.marshal_dumps vs ≡ ok b → coding.marshal_loads b ≡ ok vs
  pub pickled : (vs : List A) → coding.pickle_loads (coding.pickle_dumps vs) ≡ ok vs
  pub compressed : (b : Bytes) → coding.decompress (coding.compress b) ≡ ok b

Result-cases : {A : Type 0} (r : Result A) → ((a : A) × (r ≡ ok a)) ⊎ ((e : Error) × (r ≡ raise e))
Result-cases (ok a) = inl (a, refl)
Result-cases (raise e) = inr (e, refl)

abbrev loaded_of : {A : Type 0} → Result (List A) → List A
loaded_of (ok vs) = vs
loaded_of (raise e) = []

module _ {A : Type 0} (coding : Coding A) where
  -- the items that the packets hold
  pub contents : List Packet → List A
  contents [] = []
  contents (p ∷ w) = loaded_of (load_packet coding p) ++ contents w

  -- Every packet is loaded, and to a batch that is not empty.
  abbrev pub AllFilled : List Packet → Type 0
  AllFilled [] = Unit
  AllFilled (p ∷ w) =
      ((vs : List A) × (load_packet coding p ≡ ok vs) × (0 < length vs)) × AllFilled w

  -- every packet is loaded
  abbrev pub AllLoaded : List Packet → Type 0
  AllLoaded [] = Unit
  AllLoaded (p ∷ w) = ((vs : List A) × (load_packet coding p ≡ ok vs)) × AllLoaded w

  pub load_stream-contents :
      (w : List Packet) → AllLoaded w → load_stream coding w ≡ ok (contents w)
  unfolding load_stream contents
  load_stream-contents [] a = refl
  load_stream-contents (p ∷ w) ((vs, e), a) = rw (e, load_stream-contents w a) refl

  pub contents-append : (w w' : List Packet) → contents (w ++ w') ≡ contents w ++ contents w'
  unfolding contents
  contents-append [] w' = refl
  contents-append (p ∷ w) w' =
      ap (λ z. loaded_of (load_packet coding p) ++ z) (contents-append w w')
      ∙ sym (append_assoc (loaded_of (load_packet coding p)) (contents w) (contents w'))

  pub contents-empty : contents [] ≡ []
  unfolding contents
  contents-empty = refl

  pub AllLoaded-append :
      (w : List Packet) (p : Packet) (vs : List A)
      → AllLoaded w
      → load_packet coding p ≡ ok vs
      → AllLoaded (w ++ p ∷ [])
  AllLoaded-append [] p vs f e = ((vs, e), tt)
  AllLoaded-append (x ∷ w) p vs f e = (f.0, AllLoaded-append w p vs f.1 e)

  -- the packet of a batch
  abbrev pub packed : Bool → List A → Packet
  packed m vs = write_buf coding (encode coding m vs).1 (encode coding m vs).0

  module _ (lossless : IsLossless coding) where
    packed_pickle :
        (vs : List A) → load_packet coding (write_buf coding (coding.pickle_dumps vs) false) ≡ ok vs
    unfolding load_packet
    packed_pickle vs =
        let buf = coding.compress (coding.pickle_dumps vs) in
        let h : ltb (length buf) (length buf) ≡ false = ground arith in
        rw (h, lossless.compressed (coding.pickle_dumps vs)) (lossless.pickled vs)

    encode_marshal :
        (vs : List A) (r : Result Bytes) (p : Bool × Bytes)
        → coding.marshal_dumps vs ≡ r
        → elim r [ ok buf ↦ (true, buf) | raise e ↦ (false, coding.pickle_dumps vs) ] ≡ p
        → encode coding true vs ≡ p
    encode_marshal vs r p e q =
        ap
          (λ (z : Result Bytes). elim z [
            | ok buf ↦ (true, buf)
            | raise e ↦ (false, coding.pickle_dumps vs)
          ])
          e
        ∙ q

    -- The packet of a batch is loaded as the batch.
    pub load-packed : (m : Bool) (vs : List A) → load_packet coding (packed m vs) ≡ ok vs
    unfolding load_packet
    load-packed false vs = packed_pickle vs
    load-packed true vs = elim (Result-cases (coding.marshal_dumps vs)) [
      | inl (b, e) ↦
          let h : ltb (length (coding.compress b)) (length (coding.compress b)) ≡ false =
            ground arith in
          subst (λ z. load_packet coding (write_buf coding z.1 z.0) ≡ ok vs)
            (sym (encode_marshal vs (ok b) (true, b) e refl))
            (rw (h, lossless.compressed b) (lossless.marshalled vs b e))
      | inr (x, e) ↦
          subst (λ z. load_packet coding (write_buf coding z.1 z.0) ≡ ok vs)
            (sym (encode_marshal vs (raise x) (false, coding.pickle_dumps vs) e refl))
            (packed_pickle vs)
    ]

    pub contents-packed :
        (w : List Packet) (m : Bool) (vs : List A)
        → contents (w ++ packed m vs ∷ []) ≡ contents w ++ vs
    unfolding contents
    contents-packed w m vs =
        contents-append w (packed m vs ∷ [])
        ∙ ap (λ z. contents w ++ z)
            (append-nil (loaded_of (load_packet coding (packed m vs)))
              ∙ ap loaded_of (load-packed m vs))

module _ {A : Type 0} where
  pub take-cases :
      (n : ℕ) (xs : List A)
      → ((take n xs ≡ []) × ((n ≡ 0) ⊎ (xs ≡ [])))
        ⊎ ((y : A) × (ys : List A) × (take n xs ≡ y ∷ ys) × (0 < n) × (0 < length xs))
  take-cases zero xs = inl (refl, inl refl)
  take-cases (suc n) [] = inl (refl, inr refl)
  take-cases (suc n) (x ∷ xs) = inr (x, take n xs, refl, omega arith, omega arith)

module _ {A : Type 0} (coding : Coding A) where
  pub next_num-pos : (mem_size n : ℕ) → 0 < n → 0 < next_num coding mem_size n
  next_num-pos mem_size n h = elim (Bool-cases (ltb mem_size coding.best_size)) [
    | inl a ↦ rw a (omega (arith, h))
    | inr a ↦ elim (Bool-cases (ltb (coding.best_size * 2) mem_size)) [
      | inl b ↦ elim (Bool-cases (ltb 1 n)) [
        | inl c ↦ let d : 1 < n = ground arith in rw (a, b, c) (omega (arith, d))
        | inr c ↦ rw (a, b, c) h
      ]
      | inr b ↦ rw (a, b) h
    ]
  ]

  pub dump_batch-pos :
      (s : Serializer) (vs : List A) (n : ℕ) → 0 < n → 0 < (dump_batch coding s vs n).1
  unfolding dump_batch
  dump_batch-pos s vs n h = next_num-pos (length (encode coding s.use_marshal vs).1) n h

  -- What the serializer has written, and how many batches it has counted, when it has taken `items`.
  record IsDumped (s s' : Serializer) (items : List A) : Type 0 where
    loads : contents coding s'.written ≡ contents coding s.written ++ items
    filled : AllFilled coding s.written → AllFilled coding s'.written
    counts : s'.num_batch + length s.written ≡ s.num_batch + length s'.written + 1

  abbrev counted : Serializer → Serializer
  counted s = record s { num_batch = s.num_batch + 1 }
