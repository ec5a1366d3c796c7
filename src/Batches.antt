-- ===== src/Batches.antt =====
-- dpark/shuffle.py: how the serializers cut what they write into batches (`AutoBatchedSerializer`,
-- `GroupByAutoBatchedSerializer`), and `group_by_simple` of dpark/utils/nested_groupby.py, which
-- puts the groups together that were cut. `marshal`, `pickle` and the compression are parameters. A
-- length is written as the number it is; a buffer of 2 ^ 32 bytes, for which `struct.pack` raises,
-- is not modelled.
pub mod RoundTrip
pub mod Pieces
pub mod Groups
mod Tests
use dpark.Common.{
  Result, ok, raise, io_error, key_error, assertion_error, ◌>>=◌, ℕ, zero, suc, ◌+◌, ◌*◌, ◌/◌, Bool,
  true, false, ◌&&◌, Option, none, some, List, [], ◌∷◌, ◌++◌, length, take, drop, ltb, leb, ◌==◌,
  if◌then◌else◌,
}

abbrev pub Bytes : Type 0
Bytes = List ℕ

pub record Coding (A : Type 0) : Type 0 where
  pub marshal_dumps : List A → Result Bytes
  pub marshal_loads : Bytes → Result (List A)
  pub pickle_dumps : List A → Bytes
  pub pickle_loads : Bytes → Result (List A)
  pub compress : Bytes → Bytes
  pub decompress : Bytes → Result Bytes
  pub best_size : ℕ

-- `F_MAPPING`: the letters M, P, m and p
abbrev pub flag_of : Bool → Bool → ℕ
flag_of true true = 77
flag_of false true = 80
flag_of true false = 109
flag_of false false = 112

-- `F_MAPPING_R[flag]`: whether it is marshalled, and whether it is sorted
abbrev pub unpack_flag : ℕ → Result (Bool × Bool)
unpack_flag flag =
    if flag == 77
    then ok (true, true)
    else (if flag == 80
        then ok (false, true)
        else (if flag == 109
            then ok (true, false)
            else (if flag == 112 then ok (false, false) else raise key_error)))

-- What `load_stream` reads at a time: fewer bytes than a head has, or the flag and the length in a
-- head with the bytes that come for its buffer, which are fewer at the end of a stream that is cut.
pub data Packet : Type 0 where
  short_head : ℕ → Packet
  packet : ℕ → ℕ → Bytes → Packet

-- `AutoBatchedSerializer`; `written` is the stream
pub record Serializer : Type 0 where
  pub max_num : ℕ
  pub max_size : ℕ
  pub use_marshal : Bool
  pub num_batch : ℕ
  pub file_size : ℕ
  pub written : List Packet

abbrev pub new_serializer : Serializer
new_serializer = record {
  max_num = 0;
  max_size = 0;
  use_marshal = true;
  num_batch = 0;
  file_size = 0;
  written = [];
}

module _ {A : Type 0} (coding : Coding A) where
  -- the body of the loop of `load_stream`, with `unpack_header`
  unfoldable pub load_packet : Packet → Result (List A)
  load_packet (short_head n) = raise io_error
  load_packet (packet flag size buf) = do
    (is_marshal, is_sorted) ← unpack_flag flag
    let load = do
      d ← coding.decompress buf
      if is_marshal then coding.marshal_loads d else coding.pickle_loads d
    if is_sorted
        then (if ltb (length buf) size then raise io_error else load)
        else raise assertion_error

  -- `load_stream`, of which all that it yields is taken
  unfoldable pub load_stream : List Packet → Result (List A)
  unfolding load_packet
  load_stream [] = ok []
  load_stream (p ∷ written) = do vs ← load_packet p; rest ← load_stream written; ok (vs ++ rest)

  -- `write_buf` with `pack_header`
  abbrev pub write_buf : Bytes → Bool → Packet
  write_buf buf is_marshal =
      packet (flag_of is_marshal true) (length (coding.compress buf)) (coding.compress buf)

  -- what `_dump_batch` makes of a batch: `marshal` is given up for good where it fails
  abbrev pub encode : Bool → List A → Bool × Bytes
  encode false vs = (false, coding.pickle_dumps vs)
  encode true vs = elim (coding.marshal_dumps vs) [
    | ok buf ↦ (true, buf)
    | raise e ↦ (false, coding.pickle_dumps vs)
  ]

  -- the size of the next batch after one of `mem_size` bytes
  abbrev pub next_num : ℕ → ℕ → ℕ
  next_num mem_size batch_num =
      if ltb mem_size coding.best_size
      then batch_num * 2
      else (if ltb (coding.best_size * 2) mem_size && ltb 1 batch_num
          then batch_num / 2
          else batch_num)

  -- `_dump_batch`: the serializer and the new `batch_num`
  unfoldable pub dump_batch : Serializer → List A → ℕ → Serializer × ℕ
  dump_batch s vs batch_num =
      let (use_marshal, buf) = encode s.use_marshal vs in
      let mem_size = length buf in
      let next = next_num mem_size batch_num in
      (
        record s {
          max_num = if ltb mem_size coding.best_size && ltb s.max_num next then next else s.max_num;
          max_size =
              if leb coding.best_size mem_size && ltb s.max_size mem_size
              then mem_size
              else s.max_size;
          use_marshal = use_marshal;
          file_size = s.file_size + (length (coding.compress buf) + 4);
          written = s.written ++ write_buf buf use_marshal ∷ [];
        },
        next,
      )

  -- the loop of `_dump_stream`: every batch takes an item, so their number is enough fuel
  unfoldable pub dump_from : ℕ → Serializer → ℕ → List A → Serializer
  unfolding dump_batch
  dump_from zero s batch_num items = s
  dump_from (suc n) s batch_num items =
      let vs = take batch_num items in
      let s' : Serializer = record s { num_batch = s.num_batch + 1 } in
      let d = dump_batch s' vs batch_num in
      let rest = dump_from n d.0 d.1 (drop batch_num items) in elim vs [ [] ↦ s' | _ ∷ _ ↦ rest ]

  unfoldable pub dump_stream : Serializer → List A → Serializer
  unfolding dump_from
  dump_stream s items = dump_from (length items + 1) s 1 items

-- `GroupByAutoBatchedSerializer._batching`, together with the loop that writes what it yields and
-- changes `batch_num` in between
pub record Batching (V : Type 0) : Type 0 where
  pub serializer : Serializer
  pub batch_num : ℕ
  pub batch : List (ℕ × List V)
  pub num : ℕ

module _ {V : Type 0} (coding : Coding (ℕ × List V)) where
  -- a batch is yielded, and written
  abbrev pub emit : Serializer → List (ℕ × List V) → ℕ → Serializer × ℕ
  emit s k_vs batch_num =
      dump_batch coding (record s { num_batch = s.num_batch + 1 }) k_vs batch_num

  -- a large group in pieces
  unfoldable pub emit_pieces : ℕ → Serializer → ℕ → ℕ → List V → Serializer × ℕ
  unfolding dump_batch
  emit_pieces zero s batch_num k vs = (s, batch_num)
  emit_pieces (suc n) s batch_num k vs =
      let sub_vs = take batch_num vs in
      let d = emit s ((k, sub_vs) ∷ []) batch_num in
      let rest = emit_pieces n d.0 d.1 k (drop batch_num vs) in
      elim sub_vs [ [] ↦ (s, batch_num) | _ ∷ _ ↦ rest ]

  -- `if batch: yield batch`
  unfoldable pub flush : Batching V → Batching V
  unfolding dump_batch
  flush b = elim b.batch [
    | [] ↦ b
    | _ ∷ _ ↦
        let d = emit b.serializer b.batch b.batch_num in
        record { serializer = d.0; batch_num = d.1; batch = []; num = 0 }
  ]

  -- one group
  unfoldable pub batch_group : Batching V → ℕ → List V → Batching V
  unfolding flush emit_pieces
  batch_group b k vs =
      let n = length vs in
      let b' = flush b in
      let d = emit_pieces (n + 1) b'.serializer b'.batch_num k vs in
      if leb (n + b.num) b.batch_num
      then record b { batch = b.batch ++ (k, vs) ∷ []; num = b.num + n }
      else (if leb b'.batch_num n
          then record b' { serializer = d.0; batch_num = d.1 }
          else record b' { batch = b'.batch ++ (k, vs) ∷ []; num = n })

  unfoldable pub batch_groups : Batching V → List (ℕ × List V) → Batching V
  unfolding batch_group
  batch_groups b [] = flush b
  batch_groups b ((k, vs) ∷ groups) = batch_groups (batch_group b k vs) groups

  unfoldable pub dump_groups : Serializer → List (ℕ × List V) → Serializer
  unfolding batch_groups
  dump_groups s groups =
      (batch_groups (record { serializer = s; batch_num = 1; batch = []; num = 0 })
        groups).serializer

-- `group_by_simple`: the key and the values of the group that is open, if there is one
unfoldable pub group_from :
    {V : Type 0} → Option (ℕ × List V) → List (ℕ × List V) → List (ℕ × List V)
group_from none [] = []
group_from (some (key, values)) [] = (key, values) ∷ []
group_from none ((k, vs) ∷ it) = group_from (some (k, vs)) it
group_from (some (key, values)) ((k, vs) ∷ it) =
    let same = group_from (some (key, values ++ vs)) it in
    let other = group_from (some (k, vs)) it in if k == key then same else (key, values) ∷ other

abbrev pub group_by_simple : {V : Type 0} → List (ℕ × List V) → List (ℕ × List V)
group_by_simple it = group_from none it
