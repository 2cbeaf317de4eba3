-- ===== src/Messages/RoundTrip.antt =====
-- What is written to a connection is read from it.
use ampc_common.Base.{
  ℕ, ◌+◌, ◌-◌, ◌*◌, ◌%◌, ◌^◌, ◌<◌, ◌≤◌, ◌≡◌, refl, ap, ap₂, subst, sym, ◌∙◌, arith, List, [], ◌∷◌,
  ◌++◌, length, ◌==◌, leb, true, length-append, append_assoc,
}
use native.Mathlib.Nat.{mul-mod_left, mul-div_left}
use ampc_common.Base.Bytes.{
  ok, take, drop, to_le_bytes, elems_to_bytes, FitBytes, take-append, drop-append, take_all,
  from_le_bytes-to_le_bytes, length-elems_to_bytes, elems_from_bytes-elems_to_bytes,
}
use ampc_common.Messages.{
  DescriptorByte, to_byte, job_byte, pending_jobs_request_byte, pending_jobs_reply_byte,
  cancel_byte, Payload, payload_bytes, payload_len, to_bytes, NetworkValue, job,
  pending_jobs_request, pending_jobs_reply, cancel, serialize, serialize_body, deserialize, parse,
  job_of_len, reply_of_len, get_descriptor_byte, header_len, try_from, byte_len,
}
use ampc_common.Messages.Stream.{
  max_payload_size, read_exact, payload_len_of, read_payload, read_header, read_single_message,
}

-- A payload reports the number of its bytes.
abbrev pub IsHonest : Payload → Type 0
IsHonest p = payload_len p ≡ length (to_bytes p)

-- The fields fit their types, and the payload is one that a reader takes.
abbrev pub IsValid : NetworkValue → Type 0
IsValid (job job_id worker_id payload) =
    (job_id < 256 ^ 4)
    × (worker_id < 256 ^ 2)
    × IsHonest payload
    × (payload_len payload ≤ max_payload_size)
IsValid (pending_jobs_request worker_id) = worker_id < 256 ^ 2
IsValid (pending_jobs_reply worker_id job_ids) =
    (worker_id < 256 ^ 2) × FitBytes 4 job_ids × (length job_ids * 4 ≤ max_payload_size)
IsValid (cancel job_id worker_id) = (job_id < 256 ^ 4) × (worker_id < 256 ^ 2)

-- A message as the other end has it: the payload is bytes.
abbrev pub received : NetworkValue → NetworkValue
received (job job_id worker_id payload) = job job_id worker_id (payload_bytes (to_bytes payload))
received (pending_jobs_request worker_id) = pending_jobs_request worker_id
received (pending_jobs_reply worker_id job_ids) = pending_jobs_reply worker_id job_ids
received (cancel job_id worker_id) = cancel job_id worker_id

-- Reading past a part of the stream whose length is known.
pub read_exact-append :
    (n : ℕ) (xs ys : List ℕ) → length xs ≡ n → read_exact n (xs ++ ys) ≡ ok (xs, ys)
unfolding read_exact
read_exact-append n xs ys h =
    let enough : leb n (length (xs ++ ys)) ≡ true = ground (arith, length-append xs ys) in
    rw (enough, take-append n xs ys h, drop-append n xs ys h) refl

pub try_from-to_byte : (d : DescriptorByte) → try_from (to_byte d) ≡ ok d
unfolding try_from
try_from-to_byte job_byte = refl
try_from-to_byte pending_jobs_request_byte = refl
try_from-to_byte pending_jobs_reply_byte = refl
try_from-to_byte cancel_byte = refl

-- A header and a payload are read, and the rest of the stream is left.
read_message_lem :
    (d : DescriptorByte) (header payload rest : List ℕ) (v : NetworkValue)
    → length header ≡ header_len d - 1
    → payload_len_of d (to_byte d ∷ header) ≡ length payload
    → length payload ≤ max_payload_size
    → deserialize ((to_byte d ∷ header) ++ payload) ≡ ok v
    → read_single_message (to_byte d ∷ (header ++ payload) ++ rest) ≡ ok (v, rest)
unfolding read_single_message read_header read_payload
read_message_lem d header payload rest v hlen plen small parsed =
    let allowed : leb (length payload) max_payload_size ≡ true = ground arith in
    rw
      (
        try_from-to_byte d,
        append_assoc header payload rest,
        read_exact-append (header_len d - 1) header (payload ++ rest) hlen,
        plen,
        allowed,
        read_exact-append (length payload) payload rest refl,
        parsed,
      )
      refl

-- The bytes of a message after its first one, as far as its header goes, and the rest.
abbrev pub header_of : NetworkValue → List ℕ
header_of (job job_id worker_id payload) =
    to_le_bytes 4 job_id ++ to_le_bytes 2 worker_id ++ to_le_bytes 4 (payload_len payload)
header_of (pending_jobs_request worker_id) = to_le_bytes 2 worker_id
header_of (pending_jobs_reply worker_id job_ids) =
    to_le_bytes 2 worker_id ++ to_le_bytes 4 (length job_ids * 4)
header_of (cancel job_id worker_id) = to_le_bytes 4 job_id ++ to_le_bytes 2 worker_id

abbrev pub payload_of : NetworkValue → List ℕ
payload_of (job job_id worker_id payload) = to_bytes payload
payload_of (pending_jobs_request worker_id) = []
payload_of (pending_jobs_reply worker_id job_ids) = elems_to_bytes 4 job_ids
payload_of (cancel job_id worker_id) = []

pub serialize_split :
    (v : NetworkValue)
    → serialize v ≡ to_byte (get_descriptor_byte v) ∷ (header_of v ++ payload_of v)
unfolding serialize serialize_body get_descriptor_byte to_le_bytes
serialize_split (job job_id worker_id payload) = refl
serialize_split (pending_jobs_request worker_id) = refl
serialize_split (pending_jobs_reply worker_id job_ids) = refl
serialize_split (cancel job_id worker_id) = refl

pub length-header_of :
    (v : NetworkValue) → length (header_of v) ≡ header_len (get_descriptor_byte v) - 1
unfolding get_descriptor_byte header_len to_le_bytes
length-header_of (job job_id worker_id payload) = refl
length-header_of (pending_jobs_request worker_id) = refl
length-header_of (pending_jobs_reply worker_id job_ids) = refl
length-header_of (cancel job_id worker_id) = refl

pub payload_len_of-header_of :
    (v : NetworkValue)
    → IsValid v
    → payload_len_of (get_descriptor_byte v) (to_byte (get_descriptor_byte v) ∷ header_of v)
      ≡ length (payload_of v)
unfolding get_descriptor_byte payload_len_of take drop to_le_bytes
payload_len_of-header_of (job job_id worker_id payload) h =
    from_le_bytes-to_le_bytes 4 (payload_len payload) (omega (arith, h.3)) ∙ h.2
payload_len_of-header_of (pending_jobs_request worker_id) h = refl
payload_len_of-header_of (pending_jobs_reply worker_id job_ids) h =
    from_le_bytes-to_le_bytes 4 (length job_ids * 4) (omega (arith, h.2))
    ∙ sym (length-elems_to_bytes 4 job_ids)
payload_len_of-header_of (cancel job_id worker_id) h = refl

pub deserialize-serialize :
    (v : NetworkValue) → IsValid v → deserialize (serialize v) ≡ ok (received v)
unfolding serialize serialize_body get_descriptor_byte deserialize parse job_of_len reply_of_len
    try_from header_len take drop to_le_bytes
deserialize-serialize (job job_id worker_id payload) h =
    let body : List ℕ = to_bytes payload in
    let n : ℕ = length body in
    let has_header : leb 11 (length (serialize (job job_id worker_id payload))) ≡ true =
      ground arith in
    let has_payload : leb (11 + n) (length (serialize (job job_id worker_id payload))) ≡ true =
      ground arith in
    rw
      (
        has_header,
        from_le_bytes-to_le_bytes 4 (payload_len payload) (omega (arith, h.3)),
        h.2,
        has_payload,
        from_le_bytes-to_le_bytes 4 job_id h.0,
        from_le_bytes-to_le_bytes 2 worker_id h.1,
        take_all (11 + n - 11) body (omega arith),
      )
      refl
deserialize-serialize (pending_jobs_request worker_id) h =
    ap (λ w. ok (pending_jobs_request w)) (from_le_bytes-to_le_bytes 2 worker_id h)
deserialize-serialize (pending_jobs_reply worker_id job_ids) h =
    let body : List ℕ = elems_to_bytes 4 job_ids in
    let n : ℕ = length job_ids * 4 in
    let len = length-elems_to_bytes 4 job_ids in
    let v : NetworkValue = pending_jobs_reply worker_id job_ids in
    let has_header : leb 7 (length (serialize v)) ≡ true = ground arith in
    let has_payload : leb (7 + n) (length (serialize v)) ≡ true = ground (arith, len) in
    let whole : (n % 4 == 0) ≡ true = ground (arith, mul-mod_left (length job_ids) 4) in
    rw
      (
        has_header,
        from_le_bytes-to_le_bytes 4 n (omega (arith, h.2)),
        has_payload,
        whole,
        from_le_bytes-to_le_bytes 2 worker_id h.0,
        mul-div_left (length job_ids) {n = 4} (omega arith),
        elems_from_bytes-elems_to_bytes 4 job_ids h.1,
      )
      refl
deserialize-serialize (cancel job_id worker_id) h =
    ap₂ (λ j w. ok (cancel j w)) (from_le_bytes-to_le_bytes 4 job_id h.0)
      (from_le_bytes-to_le_bytes 2 worker_id h.1)

pub length-payload_of : (v : NetworkValue) → IsValid v → length (payload_of v) ≤ max_payload_size
length-payload_of (job job_id worker_id payload) h = omega (arith, h.2, h.3)
length-payload_of (pending_jobs_request worker_id) h = omega arith
length-payload_of (pending_jobs_reply worker_id job_ids) h =
    omega (arith, h.2, length-elems_to_bytes 4 job_ids)
length-payload_of (cancel job_id worker_id) h = omega arith

-- A message that is valid is read from the front of a stream, with a dynamic payload received as
-- its bytes, and the bytes behind it are left for the next message.
pub read_single_message-serialize :
    (v : NetworkValue) (rest : List ℕ)
    → IsValid v
    → read_single_message (serialize v ++ rest) ≡ ok (received v, rest)
read_single_message-serialize v rest h = rw (serialize_split v) (
    read_message_lem (get_descriptor_byte v) (header_of v) (payload_of v) rest (received v)
      (length-header_of v) (payload_len_of-header_of v h) (length-payload_of v h)
      (subst (λ bs. deserialize bs ≡ ok (received v)) (serialize_split v)
        (deserialize-serialize v h)))

-- The length that a valid message reports for its buffer is the number of bytes that it writes.
pub length-serialize : (v : NetworkValue) → IsValid v → length (serialize v) ≡ byte_len v
unfolding byte_len serialize serialize_body get_descriptor_byte header_len to_le_bytes
length-serialize (job job_id worker_id payload) h = omega (arith, h.2)
length-serialize (pending_jobs_request worker_id) h = refl
length-serialize (pending_jobs_reply worker_id job_ids) h =
    omega (arith, length-elems_to_bytes 4 job_ids)
length-serialize (cancel job_id worker_id) h = refl
