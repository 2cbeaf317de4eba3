-- ===== src/Messages.antt =====
-- ampc-actor-utils/src/network/workpool/value.rs, payload.rs and the readers and writers of mod.rs:
-- the messages of the work pool and their bytes. A stream is the list of the bytes that are still
-- to come before it is closed; every error of the code is `bail`.
pub mod Stream
pub mod RoundTrip
pub mod Order
pub mod Cut
pub mod Worker
pub mod Held
mod Tests
use ampc_common.Base.{
  ℕ, zero, suc, ◌+◌, ◌-◌, ◌*◌, ◌/◌, ◌%◌, List, [], ◌∷◌, ◌++◌, length, ◌==◌, leb, if◌then◌else◌,
  Bool, true, false,
}
use ampc_common.Base.Bytes.{
  Read, ok, bail, ◌>>=◌, ◌>>◌, ensure, take, drop, to_le_bytes, from_le_bytes, elems_to_bytes,
  elems_from_bytes,
}

-- A dynamic payload is code of the application: the bytes that it appends and the length that it
-- reports.
pub data Payload : Type 0 where
  payload_bytes : List ℕ → Payload
  payload_dyn : List ℕ → ℕ → Payload

unfoldable pub payload_len : Payload → ℕ
payload_len (payload_bytes b) = length b
payload_len (payload_dyn written len) = len

unfoldable pub to_bytes : Payload → List ℕ
to_bytes (payload_bytes b) = b
to_bytes (payload_dyn written len) = written

pub data NetworkValue : Type 0 where
  job : (job_id worker_id : ℕ) → Payload → NetworkValue
  pending_jobs_request : (worker_id : ℕ) → NetworkValue
  pending_jobs_reply : (worker_id : ℕ) (job_ids : List ℕ) → NetworkValue
  cancel : (job_id worker_id : ℕ) → NetworkValue

pub data DescriptorByte : Type 0 where
  job_byte pending_jobs_request_byte pending_jobs_reply_byte cancel_byte : DescriptorByte

abbrev pub to_byte : DescriptorByte → ℕ
to_byte job_byte = 0x01
to_byte pending_jobs_request_byte = 0x03
to_byte pending_jobs_reply_byte = 0x04
to_byte cancel_byte = 0x05

unfoldable pub try_from : ℕ → Read DescriptorByte
try_from byte =
    if byte == 0x01
    then ok job_byte
    else if byte == 0x03
    then ok pending_jobs_request_byte
    else if byte == 0x04
    then ok pending_jobs_reply_byte
    else if byte == 0x05
    then ok cancel_byte
    else bail

unfoldable pub header_len : DescriptorByte → ℕ
header_len job_byte = 11
header_len pending_jobs_request_byte = 3
header_len pending_jobs_reply_byte = 7
header_len cancel_byte = 7

unfoldable pub get_descriptor_byte : NetworkValue → DescriptorByte
get_descriptor_byte (job job_id worker_id payload) = job_byte
get_descriptor_byte (pending_jobs_request worker_id) = pending_jobs_request_byte
get_descriptor_byte (pending_jobs_reply worker_id job_ids) = pending_jobs_reply_byte
get_descriptor_byte (cancel job_id worker_id) = cancel_byte

unfoldable pub byte_len : NetworkValue → ℕ
byte_len (job job_id worker_id payload) = header_len job_byte + payload_len payload
byte_len (pending_jobs_request worker_id) =
    header_len (get_descriptor_byte (pending_jobs_request worker_id))
byte_len (pending_jobs_reply worker_id job_ids) =
    header_len pending_jobs_reply_byte + length job_ids * 4
byte_len (cancel job_id worker_id) = header_len (get_descriptor_byte (cancel job_id worker_id))

unfoldable pub serialize_body : NetworkValue → List ℕ
serialize_body (job job_id worker_id payload) =
    to_le_bytes 4 job_id
    ++ to_le_bytes 2 worker_id
    ++ to_le_bytes 4 (payload_len payload)
    ++ to_bytes payload
serialize_body (pending_jobs_request worker_id) = to_le_bytes 2 worker_id
serialize_body (pending_jobs_reply worker_id job_ids) =
    to_le_bytes 2 worker_id ++ to_le_bytes 4 (length job_ids * 4) ++ elems_to_bytes 4 job_ids
serialize_body (cancel job_id worker_id) = to_le_bytes 4 job_id ++ to_le_bytes 2 worker_id

unfoldable pub serialize : NetworkValue → List ℕ
serialize v = to_byte (get_descriptor_byte v) ∷ serialize_body v

-- `bytes[from..to]` inside the buffer.
abbrev pub slice : List ℕ → ℕ → ℕ → List ℕ
slice bytes from to = take (to - from) (drop from bytes)

-- The last steps of `deserialize`, once the length of the payload has been read.
unfoldable pub job_of_len : List ℕ → ℕ → Read NetworkValue
job_of_len bytes len = do
  ensure (leb (11 + len) (length bytes))
  ok (
      job (from_le_bytes (slice bytes 1 5)) (from_le_bytes (slice bytes 5 7))
        (payload_bytes (slice bytes 11 (11 + len))))

unfoldable pub reply_of_len : List ℕ → ℕ → Read NetworkValue
reply_of_len bytes len = do
  ensure (leb (7 + len) (length bytes))
  ensure (len % 4 == 0)
  ok (
      pending_jobs_reply (from_le_bytes (slice bytes 1 3))
        (elems_from_bytes 4 (len / 4) (drop 7 bytes)))

unfoldable pub parse : DescriptorByte → List ℕ → Read NetworkValue
parse job_byte bytes = job_of_len bytes (from_le_bytes (slice bytes 7 11))
parse pending_jobs_request_byte bytes = ok (pending_jobs_request (from_le_bytes (slice bytes 1 3)))
parse pending_jobs_reply_byte bytes = reply_of_len bytes (from_le_bytes (slice bytes 3 7))
parse cancel_byte bytes =
    ok (cancel (from_le_bytes (slice bytes 1 5)) (from_le_bytes (slice bytes 5 7)))

unfoldable pub deserialize : List ℕ → Read NetworkValue
deserialize [] = bail
deserialize (b ∷ bs) = do
  descriptor ← try_from b
  ensure (leb (header_len descriptor) (length (b ∷ bs)))
  parse descriptor (b ∷ bs)
