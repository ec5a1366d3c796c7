-- ===== src/Batches/Pieces.antt =====
-- `GroupByAutoBatchedSerializer` of dpark/shuffle.py: a group that is cut into pieces comes to the
-- same for `group_by_simple` of dpark/utils/nested_groupby.py.
use dpark.Common.{
  ℕ, zero, suc, ◌+◌, ◌<◌, ◌≡◌, refl, sym, ap, ◌∙◌, true, Option, none, some, List, [], ◌∷◌, ◌++◌,
  length, length-drop, take, drop, take-append-drop, ◌==◌, arith, Bool-cases, inl, inr, ◌⊎◌,
}
use mathlib.Core.List.{append-nil, append_assoc}
use mathlib.Core.Path.{subst}
use dpark.Batches.{Coding, Serializer, dump_batch, Batching, emit, emit_pieces, group_from}
use dpark.Batches.RoundTrip.{
  pick_cons, take-cases, dump_batch-pos, IsLossless, contents, contents-packed, packed, load-packed,
  AllLoaded, AllLoaded-append,
}

list_either : {A : Type 0} (xs : List A) → (xs ≡ []) ⊎ (0 < length xs)
list_either [] = inl refl
list_either (x ∷ xs) = inr (omega arith)

pub pick_either :
    {A C : Type 0} (l : List A) (a b : C) (P : C → Type 0)
    → P a
    → P b
    → P (elim l [ [] ↦ a | _ ∷ _ ↦ b ])
pick_either [] a b P p q = p
pick_either (x ∷ l) a b P p q = q

module _ {V : Type 0} where
  -- `group_by_simple` makes the same of both, whatever comes before and after
  abbrev pub IsSame : List (ℕ × List V) → List (ℕ × List V) → Type 0
  IsSame l m =
      (rest : List (ℕ × List V)) (o : Option (ℕ × List V))
      → group_from o (l ++ rest) ≡ group_from o (m ++ rest)

  IsSame-trans : (l m n : List (ℕ × List V)) → IsSame l m → IsSame m n → IsSame l n
  IsSame-trans l m n a b rest o = a rest o ∙ b rest o

  IsSame-append_left : (x l m : List (ℕ × List V)) → IsSame l m → IsSame (x ++ l) (x ++ m)
  unfolding group_from
  IsSame-append_left [] l m a rest o = a rest o
  IsSame-append_left ((k, vs) ∷ x) l m a rest none = IsSame-append_left x l m a rest (some (k, vs))
  IsSame-append_left ((k, vs) ∷ x) l m a rest (some (key, values)) =
      rw
        (
          IsSame-append_left x l m a rest (some (key, values ++ vs)),
          IsSame-append_left x l m a rest (some (k, vs)),
        )
        refl

  pub IsSame-append_right : (l m x : List (ℕ × List V)) → IsSame l m → IsSame (l ++ x) (m ++ x)
  IsSame-append_right l m x a rest o =
      ap (group_from o) (append_assoc l x rest)
      ∙ a (x ++ rest) o
      ∙ sym (ap (group_from o) (append_assoc m x rest))

  pub IsSame-path : (l m : List (ℕ × List V)) → l ≡ m → IsSame l m
  IsSame-path l m e rest o = ap (λ z. group_from o (z ++ rest)) e

  -- a group in two pieces
  two_pieces : (k : ℕ) (xs ys : List V) → IsSame ((k, xs) ∷ (k, ys) ∷ []) ((k, xs ++ ys) ∷ [])
  unfolding group_from
  two_pieces k xs ys rest none = let h : (k == k) ≡ true = ground arith in rw h refl
  two_pieces k xs ys rest (some (key, values)) = elim (Bool-cases (k == key)) [
    | inl e ↦ rw e (ap (λ z. group_from (some (key, z)) rest) (append_assoc values xs ys))
    | inr e ↦ let h : (k == k) ≡ true = ground arith in rw (e, h) refl
  ]

  two_step :
      (w : List (ℕ × List V)) (k : ℕ) (xs ys vs : List V)
      → xs ++ ys ≡ vs
      → IsSame (w ++ ((k, xs) ∷ (k, ys) ∷ [])) (w ++ (k, vs) ∷ [])
  two_step w k xs ys vs e rest o =
      IsSame-append_left w ((k, xs) ∷ (k, ys) ∷ []) ((k, xs ++ ys) ∷ []) (two_pieces k xs ys) rest o
      ∙ ap (λ z. group_from o ((w ++ (k, z) ∷ []) ++ rest)) e

module _ {V : Type 0} (coding : Coding (ℕ × List V)) (lossless : IsLossless coding) where
  -- what is on the stream, and then in the batch that is open
  abbrev pub open_content : Batching V → List (ℕ × List V)
  open_content b = contents coding b.serializer.written ++ b.batch

  pub load-emit :
      (s : Serializer) (k_vs : List (ℕ × List V)) (n : ℕ)
      → contents coding (emit coding s k_vs n).0.written ≡ contents coding s.written ++ k_vs
  unfolding dump_batch
  load-emit s k_vs n = contents-packed coding lossless s.written s.use_marshal k_vs

  pub emit-AllLoaded :
      (s : Serializer) (k_vs : List (ℕ × List V)) (n : ℕ)
      → AllLoaded coding s.written
      → AllLoaded coding (emit coding s k_vs n).0.written
  unfolding dump_batch
  emit-AllLoaded s k_vs n a =
      AllLoaded-append coding s.written (packed coding s.use_marshal k_vs) k_vs a
        (load-packed coding lossless s.use_marshal k_vs)

  pub pieces-AllLoaded :
      (n : ℕ) (s : Serializer) (m k : ℕ) (vs : List V)
      → AllLoaded coding s.written
      → AllLoaded coding (emit_pieces coding n s m k vs).0.written
  unfolding emit_pieces
  pieces-AllLoaded zero s m k vs a = a
  pieces-AllLoaded (suc n) s m k vs a =
      let d = emit coding s ((k, take m vs) ∷ []) m in
      pick_either (take m vs) (s, m) (emit_pieces coding n d.0 d.1 k (drop m vs))
        (λ z. AllLoaded coding z.0.written) a
        (pieces-AllLoaded n d.0 d.1 k (drop m vs) (emit-AllLoaded s ((k, take m vs) ∷ []) m a))

  pieces_step :
      (n : ℕ) (s : Serializer) (m k : ℕ) (vs : List V) (y : V) (ys : List V)
      → take m vs ≡ y ∷ ys
      → emit_pieces coding (suc n) s m k vs ≡ (
          let d = emit coding s ((k, take m vs) ∷ []) m in
          emit_pieces coding n d.0 d.1 k (drop m vs))
  unfolding emit_pieces
  pieces_step n s m k vs y ys h = pick_cons (take m vs) y ys _ _ h

  pieces_end : (n : ℕ) (s : Serializer) (m k : ℕ) → emit_pieces coding n s m k [] ≡ (s, m)
  unfolding emit_pieces
  pieces_end zero s m k = refl
  pieces_end (suc n) s zero k = refl
  pieces_end (suc n) s (suc m) k = refl

  -- the pieces of a group that is not empty
  pub pieces-IsSame :
      (n : ℕ) (s : Serializer) (m k : ℕ) (vs : List V)
      → 0 < m
      → 0 < length vs
      → length vs < n
      → (0 < (emit_pieces coding n s m k vs).1)
        × IsSame
            (contents coding (emit_pieces coding n s m k vs).0.written)
            (contents coding s.written ++ (k, vs) ∷ [])
  unfolding emit_pieces
  pieces-IsSame zero s m k vs h p l = absurd (omega (arith, l))
  pieces-IsSame (suc n) s m k vs h p l = elim (take-cases m vs) [
    | inl (e, c) ↦
        absurd (elim c [ inl z ↦ omega (arith, z, h) | inr z ↦ omega (arith, ap length z, p) ])
    | inr (y, ys, e, _, _) ↦
        let d = emit coding s ((k, take m vs) ∷ []) m in
        let rest = drop m vs in
        let pos : 0 < d.1 =
          dump_batch-pos coding (record s { num_batch = s.num_batch + 1 }) ((k, take m vs) ∷ []) m
            h in
        let goal : Serializer × ℕ → Type 0 = λ z.
          (0 < z.1)
          × IsSame (contents coding z.0.written) (contents coding s.written ++ (k, vs) ∷ []) in
        subst goal (sym (pieces_step n s m k vs y ys e)) (elim (list_either rest) [
          | inl z ↦
              subst (λ z'. goal (emit_pieces coding n d.0 d.1 k z')) (sym z)
                (subst goal (sym (pieces_end n d.0 d.1 k)) (
                  pos,
                  IsSame-path (contents coding d.0.written)
                      (contents coding s.written ++ (k, vs) ∷ [])
                      (load-emit s ((k, take m vs) ∷ []) m
                        ∙ ap (λ w. contents coding s.written ++ (k, w) ∷ [])
                            (sym (append-nil (take m vs))
                              ∙ ap (λ w. take m vs ++ w) (sym z)
                              ∙ take-append-drop m vs)),
                ))
          | inr q ↦
              let less : length rest < n = omega (arith, length-drop m vs, l, h, p) in
              let (pos', i) = pieces-IsSame n d.0 d.1 k rest pos q less in
              (
                pos',
                λ r o.
                    i r o
                    ∙ ap (λ w. group_from o (w ++ r))
                        (ap (λ w. w ++ (k, rest) ∷ []) (load-emit s ((k, take m vs) ∷ []) m)
                          ∙ append_assoc (contents coding s.written) ((k, take m vs) ∷ [])
                              ((k, rest) ∷ []))
                    ∙ two_step (contents coding s.written) k (take m vs) rest vs
                        (take-append-drop m vs) r o,
              )
        ])
  ]
