-- ===== src/Fetch/Tests.antt =====
-- Runs of the fetcher, and its theorems at them.
use dpark.Common.{ℕ, zero, suc, ◌≡◌, refl, true, false, List, [], ◌∷◌, arith}
use dpark.Fetch.Fails.{GivesUp, fetch-fails}
use dpark.Fetch.{
  frame, loaded, unloadable, short_head, Frame, Response, answer, code_404, failed, not_found,
  size_mismatch, is_fail_fast, unsorted_batches, fetched, fetch,
}
use dpark.Fetch.Once.{IsOf, broken, torn, whole_frame, IsOnce, batches, torn_head, fetch-IsOnce}

-- two batches of 10 and 20 bytes
abbrev a_file : List (ℕ × ℕ)
a_file = (10, 7) ∷ (20, 8) ∷ []

abbrev first_frame : Frame ℕ
first_frame = frame 10 10 false (loaded 7)

abbrev second_frame : Frame ℕ
second_frame = frame 20 20 false (loaded 8)

-- the transfer breaks off within the second frame, then within the second head, and then it is whole
abbrev answers : ℕ → Response ℕ
answers zero = answer 40 (first_frame ∷ frame 20 3 false (unloadable false) ∷ [])
answers (suc zero) = answer 40 (first_frame ∷ short_head 2 ∷ [])
answers (suc (suc i)) = answer 40 (first_frame ∷ second_frame ∷ [])

third_time : fetch answers ≡ record { yielded = 7 ∷ 8 ∷ []; sleeps = 1 ∷ 10 ∷ []; ending = fetched }
unfolding fetch
third_time = refl

answers-IsOf : (i : ℕ) → IsOf a_file (answers i)
answers-IsOf zero =
    (refl, whole_frame 10 7 ((20, 8) ∷ []) _ (torn 20 8 [] 3 (unloadable false) (ground arith)))
answers-IsOf (suc zero) = (refl, whole_frame 10 7 ((20, 8) ∷ []) _ (torn_head (20, 8) [] 2))
answers-IsOf (suc (suc i)) =
    (refl, whole_frame 10 7 ((20, 8) ∷ []) _ (whole_frame 20 8 [] _ (broken [])))

fetch-IsOnce_example : IsOnce (batches a_file) (fetch answers).yielded (fetch answers).ending
fetch-IsOnce_example = fetch-IsOnce a_file answers answers-IsOf

abbrev missing_file : ℕ → Response ℕ
missing_file i = code_404

missing_fails : (i : ℕ) → (unsorted_batches (missing_file i)).1 ≡ failed not_found
unfolding unsorted_batches
missing_fails i = refl

fetch-fails_example : GivesUp not_found not_found (fetch missing_file)
fetch-fails_example = fetch-fails missing_file (λ i. not_found) missing_fails

-- a size is taken for the code 404
unlucky_size : is_fail_fast (size_mismatch 14041 40) ≡ true
unlucky_size = refl
