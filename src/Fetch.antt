-- ===== src/Fetch.antt =====
-- dpark/shuffle.py: how a reducer reads the file of a map task (`RemoteFile.unsorted_batches`),
-- and how it tries again when that fails (`fetch_with_retry`). What `decompress` and the loading of
-- a buffer give, the second loading by `pickle` included, is a part of the frame; the bytes are
-- counted.
pub mod Once
pub mod Fails
mod Tests
use dpark.Common.{
  ℕ, zero, suc, ◌+◌, ◌/◌, ◌%◌, Bool, true, false, ◌||◌, Option, none, some, List, [], ◌∷◌, ◌++◌,
  length, drop, get_elem?, leb, ◌==◌, if◌then◌else◌, Error, index_error,
}

-- What `decompress` and the loading of a buffer give: the items of the batch, or an exception whose
-- text has a 404 in it or not.
pub data Content (B : Type 0) : Type 0 where
  loaded : B → Content B
  unloadable : Bool → Content B

-- A frame as it is read: a head of fewer than the five bytes; a head with a flag that is none of the
-- four; the length in the head, how many bytes came, whether the flag marks it as sorted, and what
-- is in the buffer; or a read that raises, with a 404 in the text or not.
pub data Frame (B : Type 0) : Type 0 where
  short_head : ℕ → Frame B
  unknown_flag : Frame B
  frame : ℕ → ℕ → Bool → Content B → Frame B
  broken_read : Bool → Frame B

-- What the server answers: it may not be reached, with an error whose text has a 404 in it or not;
-- it may answer with the code 404; or there is the `content-length` and the frames.
pub data Response (B : Type 0) : Type 0 where
  no_answer : Bool → Response B
  code_404 : Response B
  answer : ℕ → List (Frame B) → Response B

-- The exceptions of an attempt, with the numbers in their messages.
pub data Failure : Type 0 where
  unreachable : Bool → Failure
  not_found : Failure
  bad_head_length : ℕ → Failure
  bad_flag : Failure
  unexpected_sorted : Failure
  bad_content : Bool → Failure
  read_failed : Bool → Failure
  length_mismatch : ℕ → ℕ → Failure
  size_mismatch : ℕ → ℕ → Failure

pub data Ending : Type 0 where
  exhausted : Ending
  failed : Failure → Ending

-- the batch is yielded before the rest is read
abbrev pub then_read : {B : Type 0} → Content B → List B × Ending → List B × Ending
then_read (loaded batch) rest = (batch ∷ rest.0, rest.1)
then_read (unloadable b) rest = ([], failed (bad_content b))

-- The generator `unsorted_batches`: what it yields, and how it ends. `total` is `total_size`.
unfoldable pub read_frames : {B : Type 0} → ℕ → ℕ → List (Frame B) → List B × Ending
read_frames exp_size total [] =
    ([], if total == exp_size then exhausted else failed (size_mismatch exp_size total))
read_frames exp_size total (short_head n ∷ fs) = ([], failed (bad_head_length n))
read_frames exp_size total (unknown_flag ∷ fs) = ([], failed bad_flag)
read_frames exp_size total (broken_read b ∷ fs) = ([], failed (read_failed b))
read_frames exp_size total (frame size got is_sorted content ∷ fs) =
    let rest = read_frames exp_size (total + (size + 5)) fs in
    let read = then_read content rest in
    if is_sorted
    then ([], failed unexpected_sorted)
    else (if size == got then read else ([], failed (length_mismatch size got)))

unfoldable pub unsorted_batches : {B : Type 0} → Response B → List B × Ending
unfolding read_frames
unsorted_batches (no_answer b) = ([], failed (unreachable b))
unsorted_batches code_404 = ([], failed not_found)
unsorted_batches (answer exp_size fs) = read_frames exp_size 0 fs

-- Whether the decimal digits of a number have 404 in them; there are fewer digits than the number.
abbrev pub has_404_from : ℕ → ℕ → Bool
has_404_from zero n = false
has_404_from (suc fuel) n = (n % 1000 == 404) || has_404_from fuel (n / 10)

abbrev pub has_404 : ℕ → Bool
has_404 n = has_404_from n n

-- `emsg.find("404") >= 0`
abbrev pub is_fail_fast : Failure → Bool
is_fail_fast (unreachable b) = b
is_fail_fast not_found = false
is_fail_fast (bad_head_length n) = has_404 n
is_fail_fast bad_flag = false
is_fail_fast unexpected_sorted = false
is_fail_fast (bad_content b) = b
is_fail_fast (read_failed b) = b
is_fail_fast (length_mismatch a b) = has_404 a || has_404 b
is_fail_fast (size_mismatch a b) = has_404 a || has_404 b

abbrev pub max_retry : ℕ
max_retry = 3

abbrev pub retry_intervals : List ℕ
retry_intervals = 1 ∷ 10 ∷ []

pub data FetchEnd : Type 0 where
  fetched : FetchEnd
  fetch_failed : FetchEnd
  raised : Error → FetchEnd
  out_of_fuel : FetchEnd

-- what is yielded, for how long it sleeps, and how it ends
pub record Fetch (B : Type 0) : Type 0 where
  pub yielded : List B
  pub sleeps : List ℕ
  pub ending : FetchEnd

-- The loop of `fetch_with_retry`: `attempts n` is what the generator does after `n` failures.
unfoldable pub fetch_from : {B : Type 0} → ℕ → (ℕ → List B × Ending) → ℕ → ℕ → Fetch B
fetch_from zero attempts num_retry num_batch_done = record {
  yielded = [];
  sleeps = [];
  ending = out_of_fuel;
}
fetch_from (suc n) attempts num_retry num_batch_done =
    let items = drop num_batch_done (attempts num_retry).0 in
    let again = fetch_from n attempts (num_retry + 1) (num_batch_done + length items) in
    elim (attempts num_retry).1 [
      | exhausted ↦ record { yielded = items; sleeps = []; ending = fetched }
      | failed e ↦
          if is_fail_fast e || leb max_retry (num_retry + 1)
          then record { yielded = items; sleeps = []; ending = fetch_failed }
          else elim (get_elem? retry_intervals num_retry) [
            | none ↦ record { yielded = items; sleeps = []; ending = raised index_error }
            | some t ↦ record {
              yielded = items ++ again.yielded;
              sleeps = t ∷ again.sleeps;
              ending = again.ending;
            }
          ]
    ]

-- a file that was not tried before; the loop ends after `max_retry` failures
unfoldable pub fetch : {B : Type 0} → (ℕ → Response B) → Fetch B
unfolding fetch_from unsorted_batches
fetch responses = fetch_from max_retry (λ n. unsorted_batches (responses n)) 0 0
