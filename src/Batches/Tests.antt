-- ===== src/Batches/Tests.antt =====
-- Runs of the serializers, and their theorems at them.
use dpark.Common.{
  ℕ, zero, suc, ◌≡◌, refl, Option, none, some, List, [], ◌∷◌, ◌++◌, contains, if◌then◌else◌, Result,
  ok, raise, value_error, io_error, key_error, assertion_error,
}
use dpark.Batches.{
  Bytes, Coding, short_head, packet, new_serializer, load_stream, dump_stream, dump_groups,
}

-- a compression that puts a byte in front
abbrev unwrap : Bytes → Result Bytes
unwrap [] = raise value_error
unwrap (b ∷ bs) = ok bs

-- lists of numbers as they are; `marshal` does not take an 8
abbrev plain : Coding ℕ
plain = record {
  marshal_dumps = λ vs. if contains vs 8 then raise value_error else ok vs;
  marshal_loads = λ b. ok b;
  pickle_dumps = λ vs. 0 ∷ vs;
  pickle_loads = unwrap;
  compress = λ b. 1 ∷ b;
  decompress = unwrap;
  best_size = 3;
}

abbrev numbers : List ℕ
numbers = 5 ∷ 6 ∷ 7 ∷ 8 ∷ 9 ∷ []

-- the last batch is pickled
doubled :
    (dump_stream plain new_serializer numbers).written
    ≡ packet 77 2 (1 ∷ 5 ∷ [])
      ∷ packet 77 3 (1 ∷ 6 ∷ 7 ∷ [])
      ∷ packet 80 4 (1 ∷ 0 ∷ 8 ∷ 9 ∷ [])
      ∷ []
unfolding dump_stream
doubled = refl

-- a stream that is cut in a buffer or in a head, a flag of an unsorted frame, and a flag that is none
cut_buffer : load_stream plain (packet 77 3 (1 ∷ 6 ∷ []) ∷ []) ≡ raise io_error
unfolding load_stream
cut_buffer = refl

cut_head : load_stream plain (short_head 2 ∷ []) ≡ raise io_error
unfolding load_stream
cut_head = refl

unsorted_flag : load_stream plain (packet 109 2 (1 ∷ 5 ∷ []) ∷ []) ≡ raise assertion_error
unfolding load_stream
unsorted_flag = refl

unknown_flag : load_stream plain (packet 7 2 (1 ∷ 5 ∷ []) ∷ []) ≡ raise key_error
unfolding load_stream
unknown_flag = refl

-- a group is its key, its values each plus one, and a zero
abbrev shifted : List ℕ → Bytes → Bytes
shifted [] rest = 0 ∷ rest
shifted (v ∷ vs) rest = suc v ∷ shifted vs rest

abbrev group_bytes : List (ℕ × List ℕ) → Bytes
group_bytes [] = []
group_bytes ((k, vs) ∷ groups) = k ∷ shifted vs (group_bytes groups)

abbrev read_groups : Option (ℕ × List ℕ) → Bytes → List (ℕ × List ℕ)
read_groups o [] = []
read_groups none (k ∷ b) = read_groups (some (k, [])) b
read_groups (some (k, vs)) (zero ∷ b) = (k, vs) ∷ read_groups none b
read_groups (some (k, vs)) (suc v ∷ b) = read_groups (some (k, vs ++ v ∷ [])) b

-- `marshal` does not take these at all
abbrev coding : Coding (ℕ × List ℕ)
coding = record {
  marshal_dumps = λ vs. raise value_error;
  marshal_loads = λ b. raise value_error;
  pickle_dumps = group_bytes;
  pickle_loads = λ b. ok (read_groups none b);
  compress = λ b. 1 ∷ b;
  decompress = unwrap;
  best_size = 5;
}

abbrev groups : List (ℕ × List ℕ)
groups = (1, 5 ∷ 6 ∷ 7 ∷ 8 ∷ []) ∷ (2, []) ∷ (3, 9 ∷ []) ∷ []

in_pieces :
    load_stream coding (dump_groups coding new_serializer groups).written
    ≡ ok ((1, 5 ∷ []) ∷ (1, 6 ∷ 7 ∷ []) ∷ (1, 8 ∷ []) ∷ (2, []) ∷ (3, 9 ∷ []) ∷ [])
unfolding dump_groups load_stream
in_pieces = refl
