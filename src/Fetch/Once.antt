-- ===== src/Fetch/Once.antt =====
-- `fetch_with_retry` of dpark/shuffle.py: each batch of a file comes once.
use dpark.Common.{
  Bool, ℕ, zero, suc, ◌+◌, ◌<◌, ◌≡◌, refl, sym, ap, ◌∙◌, true, false, ◌||◌, some, List, [], ◌∷◌,
  ◌++◌, length, length-append, drop, get_elem?, leb, ◌==◌, arith, Bool-cases, inl, inr, ◌⊎◌,
}
use mathlib.Core.List.{append-nil, append_assoc}
use mathlib.Core.Path.{subst}
use dpark.Fetch.{
  Content, loaded, unloadable, Frame, short_head, frame, broken_read, bad_content, Response,
  no_answer, code_404, answer, Failure, length_mismatch, Ending, exhausted, failed, read_frames,
  unsorted_batches, is_fail_fast, max_retry, retry_intervals, FetchEnd, fetched, fetch_failed,
  fetch_from, fetch,
}

Ending-cases : (e : Ending) → (e ≡ exhausted) ⊎ ((f : Failure) × (e ≡ failed f))
Ending-cases exhausted = inl refl
Ending-cases (failed f) = inr (f, refl)

interval :
    (r : ℕ) → leb max_retry (r + 1) ≡ false → (t : ℕ) × (get_elem? retry_intervals r ≡ some t)
interval zero h = (1, refl)
interval (suc zero) h = (10, refl)
interval (suc (suc r)) h = absurd (ground arith)

list_tail : {B : Type 0} {x y : B} {xs ys : List B} → x ∷ xs ≡ y ∷ ys → xs ≡ ys
list_tail h = cc h

module _ {B : Type 0} where
  -- the second list goes on from the first
  abbrev pub IsPrefix : List B → List B → Type 0
  IsPrefix xs ys = (rest : List B) × (ys ≡ xs ++ rest)

  -- an attempt at a file: it yields a start of it, and all of it if it does not fail
  pub record IsAttempt (file : List B) (attempt : List B × Ending) : Type 0 where
    pub starts : IsPrefix (attempt.0) file
    pub whole : attempt.1 ≡ exhausted → attempt.0 ≡ file

  -- what a frame takes in the file
  abbrev pub file_size : List (ℕ × B) → ℕ
  file_size [] = 0
  file_size ((n, b) ∷ fs) = n + 5 + file_size fs

  abbrev pub batches : List (ℕ × B) → List B
  batches [] = []
  batches ((n, b) ∷ fs) = b ∷ batches fs

  -- The frames that come of a file: the transfer may break off after a frame, within a head or
  -- within a buffer; a read may raise; and what came may not be loaded.
  pub data IsCut : List (ℕ × B) → List (Frame B) → Type 0 where
    broken : (file : List (ℕ × B)) → IsCut file []
    raising : (file : List (ℕ × B)) (b : Bool) → IsCut file (broken_read b ∷ [])
    torn_head : (x : ℕ × B) (file : List (ℕ × B)) (m : ℕ) → IsCut (x ∷ file) (short_head m ∷ [])
    torn :
        (n : ℕ) (b : B) (file : List (ℕ × B)) (m : ℕ) (c : Content B)
        → (n == m) ≡ false
        → IsCut ((n, b) ∷ file) (frame n m false c ∷ [])
    unread :
        (n : ℕ) (b : B) (file : List (ℕ × B)) (c : Bool) (fs : List (Frame B))
        → IsCut ((n, b) ∷ file) (frame n n false (unloadable c) ∷ fs)
    whole_frame :
        (n : ℕ) (b : B) (file : List (ℕ × B)) (fs : List (Frame B))
        → IsCut file fs
        → IsCut ((n, b) ∷ file) (frame n n false (loaded b) ∷ fs)

  -- An answer has the size of the file at its head, and the file or a part of it.
  abbrev pub IsOf : List (ℕ × B) → Response B → Type 0
  IsOf file (no_answer b) = Unit
  IsOf file code_404 = Unit
  IsOf file (answer exp_size fs) = (exp_size ≡ file_size file) × IsCut file fs

  read_torn :
      (exp_size total n m : ℕ) (c : Content B)
      → (n == m) ≡ false
      → read_frames exp_size total (frame n m false c ∷ []) ≡ ([], failed (length_mismatch n m))
  unfolding read_frames
  read_torn exp_size total n m c h = rw (read_frames, h) refl

  read_unread :
      (exp_size total n : ℕ) (c : Bool) (fs : List (Frame B))
      → read_frames exp_size total (frame n n false (unloadable c) ∷ fs)
        ≡ ([], failed (bad_content c))
  unfolding read_frames
  read_unread exp_size total n c fs =
      let h : (n == n) ≡ true = ground arith in rw (read_frames, h) refl

  read_whole :
      (exp_size total n : ℕ) (b : B) (fs : List (Frame B))
      → read_frames exp_size total (frame n n false (loaded b) ∷ fs) ≡ (
        b ∷ (read_frames exp_size (total + (n + 5)) fs).0,
        (read_frames exp_size (total + (n + 5)) fs).1,
      )
  unfolding read_frames
  read_whole exp_size total n b fs =
      let h : (n == n) ≡ true = ground arith in rw (read_frames, h) refl

  read_frames-IsAttempt :
      (file : List (ℕ × B)) (fs : List (Frame B)) (exp_size total : ℕ)
      → IsCut file fs
      → exp_size ≡ total + file_size file
      → IsAttempt (batches file) (read_frames exp_size total fs)
  unfolding read_frames
  read_frames-IsAttempt [] _ exp_size total (broken _) e = record {
    starts = ([], refl);
    whole = λ h. refl;
  }
  read_frames-IsAttempt ((n, b) ∷ file) _ exp_size total (broken _) e = record {
    starts = (_, refl);
    whole = λ h. ground arith;
  }
  read_frames-IsAttempt file _ exp_size total (raising _ b) e = record {
    starts = (_, refl);
    whole = λ h. cc h;
  }
  read_frames-IsAttempt _ _ exp_size total (torn_head x file m) e = record {
    starts = (_, refl);
    whole = λ h. cc h;
  }
  read_frames-IsAttempt _ _ exp_size total (unread n b file c fs) e =
      subst (IsAttempt (batches ((n, b) ∷ file))) (sym (read_unread exp_size total n c fs))
        (record { starts = (_, refl); whole = λ h'. cc h' })
  read_frames-IsAttempt _ _ exp_size total (torn n b file m c h) e =
      subst (IsAttempt (batches ((n, b) ∷ file))) (sym (read_torn exp_size total n m c h))
        (record { starts = (_, refl); whole = λ h'. cc h' })
  read_frames-IsAttempt _ _ exp_size total (whole_frame n b file fs c) e =
      let i = read_frames-IsAttempt file fs exp_size (total + (n + 5)) c (omega (arith, e)) in
      subst (IsAttempt (batches ((n, b) ∷ file))) (sym (read_whole exp_size total n b fs)) (record {
        starts = ((i.starts).0, ap (λ z. b ∷ z) (i.starts).1);
        whole = λ h. ap (λ z. b ∷ z) (i.whole h);
      })

  pub unsorted_batches-IsAttempt :
      (file : List (ℕ × B)) (response : Response B)
      → IsOf file response
      → IsAttempt (batches file) (unsorted_batches response)
  unfolding unsorted_batches
  unsorted_batches-IsAttempt file (no_answer b) i = record {
    starts = (batches file, refl);
    whole = λ h. cc h;
  }
  unsorted_batches-IsAttempt file code_404 i = record {
    starts = (batches file, refl);
    whole = λ h. cc h;
  }
  unsorted_batches-IsAttempt file (answer exp_size fs) (e, c) =
      read_frames-IsAttempt file fs exp_size 0 c (omega (arith, e))

  -- What has been yielded, and what an attempt adds to it.
  go_on :
      (file y b : List B)
      → IsPrefix y file
      → IsPrefix b file
      → IsPrefix (y ++ drop (length y) b) file × (b ≡ file → y ++ drop (length y) b ≡ file)
  go_on file [] b p q = (q, λ h. h)
  go_on file (x ∷ y) [] p q =
      (subst (λ z. IsPrefix z file) (sym (append-nil (x ∷ y))) p, λ h. cc (h ∙ p.1))
  go_on file (x ∷ y) (z ∷ b) (r, e) (r', e') =
      let same : x ∷ (y ++ r) ≡ z ∷ (b ++ r') = sym e ∙ e' in
      let heads : x ≡ z = cc same in
      let tails : y ++ r ≡ b ++ r' = cc same in
      let ((s, f), g) = go_on (y ++ r) y b (r, refl) (r', tails) in
      ((s, e ∙ ap (λ l. x ∷ l) f), λ h. ap (λ l. x ∷ l) (g (list_tail (h ∙ e))) ∙ sym e)

  -- The loop is done with the file, or it has given up within it.
  abbrev pub IsOnce : List B → List B → FetchEnd → Type 0
  IsOnce file got end =
      ((end ≡ fetched) × (got ≡ file)) ⊎ ((end ≡ fetch_failed) × IsPrefix got file)

  module _ (n : ℕ) (attempts : ℕ → List B × Ending) (r d : ℕ) where
    step_done :
        (attempts r).1 ≡ exhausted
        → fetch_from (suc n) attempts r d
          ≡ record { yielded = drop d (attempts r).0; sleeps = []; ending = fetched }
    unfolding fetch_from
    step_done h = rw (fetch_from, h) refl

    step_stop :
        (e : Failure)
        → (attempts r).1 ≡ failed e
        → (is_fail_fast e || leb max_retry (r + 1)) ≡ true
        → fetch_from (suc n) attempts r d
          ≡ record { yielded = drop d (attempts r).0; sleeps = []; ending = fetch_failed }
    unfolding fetch_from
    step_stop e h b = rw (fetch_from, h, b) refl

    step_again :
        (e : Failure) (t : ℕ)
        → (attempts r).1 ≡ failed e
        → (is_fail_fast e || leb max_retry (r + 1)) ≡ false
        → get_elem? retry_intervals r ≡ some t
        → fetch_from (suc n) attempts r d ≡ (
            let again = fetch_from n attempts (r + 1) (d + length (drop d (attempts r).0)) in
            record {
              yielded = drop d (attempts r).0 ++ again.yielded;
              sleeps = t ∷ again.sleeps;
              ending = again.ending;
            })
    unfolding fetch_from
    step_again e t h b g = rw (fetch_from, h, b, g) refl

  fetch_from-IsOnce :
      (n : ℕ) (file : List B) (attempts : ℕ → List B × Ending) (num_retry : ℕ) (y : List B)
      → n + num_retry ≡ max_retry
      → 0 < n
      → ((i : ℕ) → IsAttempt file (attempts i))
      → IsPrefix y file
      → IsOnce file
          (y ++ (fetch_from n attempts num_retry (length y)).yielded)
          (fetch_from n attempts num_retry (length y)).ending
  unfolding fetch_from
  fetch_from-IsOnce zero file attempts num_retry y e h all p = absurd (omega (arith, h))
  fetch_from-IsOnce (suc n) file attempts num_retry y e h all p =
      let a = all num_retry in
      let b = (attempts num_retry).0 in
      let (q, w) = go_on file y b p a.starts in
      elim (Ending-cases (attempts num_retry).1) [
        | inl f ↦
            subst (λ z. IsOnce file (y ++ z.yielded) z.ending)
              (sym (step_done n attempts num_retry (length y) f)) (inl (refl, w (a.whole f)))
        | inr (x, f) ↦ elim (Bool-cases (is_fail_fast x || leb max_retry (num_retry + 1))) [
          | inl g ↦
              subst (λ z. IsOnce file (y ++ z.yielded) z.ending)
                (sym (step_stop n attempts num_retry (length y) x f g)) (inr (refl, q))
          | inr g ↦
              let (t, i) = interval num_retry (ground arith) in
              let items = drop (length y) b in
              let rest =
                fetch_from-IsOnce n file attempts (num_retry + 1) (y ++ items) (omega (arith, e))
                  (ground arith) all q in
              let again = fetch_from n attempts (num_retry + 1) (length y + length items) in
              let rest' : IsOnce file ((y ++ items) ++ again.yielded) again.ending =
                subst
                  (λ z.
                    IsOnce file ((y ++ items) ++ (fetch_from n attempts (num_retry + 1) z).yielded)
                      (fetch_from n attempts (num_retry + 1) z).ending)
                  (length-append y items) rest in
              subst (λ z. IsOnce file (y ++ z.yielded) z.ending)
                (sym (step_again n attempts num_retry (length y) x t f g i))
                (subst (λ z. IsOnce file z again.ending) (append_assoc y items again.yielded) rest')
        ]
      ]

  -- If all answers are of one file, though they may break off anywhere, raise, or come to a buffer
  -- that cannot be loaded, `fetch_with_retry` either
  -- yields each batch of the file once and in order and is done, or raises FetchFailed and has
  -- yielded the batches of a start of the file, each once: it never ends otherwise.
  pub fetch-IsOnce :
      (file : List (ℕ × B)) (responses : ℕ → Response B)
      → ((i : ℕ) → IsOf file (responses i))
      → IsOnce (batches file) (fetch responses).yielded (fetch responses).ending
  unfolding fetch
  fetch-IsOnce file responses all =
      fetch_from-IsOnce 3 (batches file) (λ i. unsorted_batches (responses i)) 0 [] refl
        (omega arith) (λ i. unsorted_batches-IsAttempt file (responses i) (all i))
        (batches file, refl)
