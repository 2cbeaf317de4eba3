-- ===== src/Messages/Stream.antt =====
-- The reading and writing of messages on a connection, from ampc-actor-
-- utils/src/network/workpool/mod.rs.
use ampc_common.Base.{ℕ, zero, suc, ◌-◌, ◌*◌, List, [], ◌∷◌, ◌++◌, length, leb, if◌then◌else◌}
use ampc_common.Base.Bytes.{Read, ok, bail, panic, ◌>>=◌, ◌>>◌, ensure, take, drop, from_le_bytes}
use ampc_common.Messages.{
  NetworkValue, DescriptorByte, job_byte, pending_jobs_request_byte, pending_jobs_reply_byte,
  cancel_byte, try_from, header_len, slice, serialize, deserialize,
}

abbrev pub max_payload_size : ℕ
max_payload_size = 50 * 1024 * 1024

abbrev pub max_to_batch : ℕ
max_to_batch = 64 * 1024 * 1024

-- `read_exact`: so many bytes, and the rest of the stream; an error when the stream ends first.
unfoldable pub read_exact : ℕ → List ℕ → Read (List ℕ × List ℕ)
read_exact n stream = if leb n (length stream) then ok (take n stream, drop n stream) else bail

unfoldable pub payload_len_of : DescriptorByte → List ℕ → ℕ
payload_len_of job_byte buf = from_le_bytes (slice buf 7 11)
payload_len_of pending_jobs_reply_byte buf = from_le_bytes (slice buf 3 7)
payload_len_of pending_jobs_request_byte buf = 0
payload_len_of cancel_byte buf = 0

-- The payload behind a header; a payload of no bytes is not read.
unfoldable pub read_payload : List ℕ → ℕ → List ℕ → Read (NetworkValue × List ℕ)
read_payload buf len stream = do
  ensure (leb len max_payload_size)
  payload ← read_exact len stream
  v ← deserialize (buf ++ payload.0)
  ok (v, payload.1)

unfoldable pub read_header : DescriptorByte → ℕ → List ℕ → Read (NetworkValue × List ℕ)
read_header descriptor first stream = do
  header ← read_exact (header_len descriptor - 1) stream
  read_payload (first ∷ header.0) (payload_len_of descriptor (first ∷ header.0)) header.1

unfoldable pub read_single_message : List ℕ → Read (NetworkValue × List ℕ)
read_single_message [] = bail
read_single_message (first ∷ stream) = do
  descriptor ← try_from first
  read_header descriptor first stream

-- What the loop of `read_and_parse_inbound` hands on before the stream ends or is broken, where the
-- handler refuses no message. A message takes at least a byte, so as much fuel as there are bytes
-- is enough.
unfoldable pub read_and_parse_inbound : ℕ → List ℕ → List NetworkValue
read_and_parse_inbound zero stream = []
read_and_parse_inbound (suc fuel) stream = elim (read_single_message stream) [
  | ok r ↦ r.0 ∷ read_and_parse_inbound fuel r.1
  | bail ↦ []
  | panic ↦ []
]

-- A run of `serialize_and_write_outbound`: the buffers that were written, the messages that the
-- hook saw, and the messages that are left in the channel.
pub record Written : Type 0 where
  pub buffers : List (List ℕ)
  pub hooked : List NetworkValue
  pub left : List NetworkValue

pub record Batch : Type 0 where
  pub buf : List ℕ
  pub seen : List NetworkValue
  pub queue : List NetworkValue

-- The inner loop, where `available` more messages are there when it asks for one.
unfoldable pub batch_more : ℕ → List ℕ → List NetworkValue → List NetworkValue → Batch
batch_more zero buf seen queue = record { buf = buf; seen = seen; queue = queue }
batch_more (suc available) buf seen [] = record { buf = buf; seen = seen; queue = [] }
batch_more (suc available) buf seen (msg ∷ queue) =
    let next = buf ++ serialize msg in
    let rest = batch_more available next (seen ++ msg ∷ []) queue in
    if leb max_to_batch (length next)
    then record { buf = next; seen = seen ++ msg ∷ []; queue = queue }
    else rest

-- One pass of the outer loop for each number of the schedule, which says how many more messages are
-- there when the pass runs.
unfoldable pub serialize_and_write_outbound : List ℕ → List NetworkValue → Written
serialize_and_write_outbound [] queue = record { buffers = []; hooked = []; left = queue }
serialize_and_write_outbound (available ∷ schedule) [] = record {
  buffers = [];
  hooked = [];
  left = [];
}
serialize_and_write_outbound (available ∷ schedule) (msg ∷ queue) =
    let b : Batch = batch_more available (serialize msg) (msg ∷ []) queue in
    let rest = serialize_and_write_outbound schedule b.queue in
    record { buffers = b.buf ∷ rest.buffers; hooked = b.seen ++ rest.hooked; left = rest.left }
