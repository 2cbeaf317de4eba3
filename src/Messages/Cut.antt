-- ===== src/Messages/Cut.antt =====
-- What is read from a stream that ends inside a message, and that a channel runs empty.
use ampc_common.Base.{
  ℕ, zero, suc, ◌-◌, ◌≤◌, ◌<◌, ◌≡◌, refl, ap, sym, ◌∙◌, append-nil, arith, List, [], ◌∷◌, ◌++◌, map,
  length, leb, true, false, length-append, dec_lt, inl, inr, Bool-cases,
}
use ampc_common.Base.Bytes.{bail, take, length-take, take-append_less, take-append_more}
use ampc_common.Messages.{NetworkValue, serialize, get_descriptor_byte, header_len}
use ampc_common.Messages.Stream.{
  read_single_message, read_and_parse_inbound, batch_more, max_to_batch, read_exact,
  serialize_and_write_outbound, max_payload_size, read_header, read_payload,
}
use ampc_common.Messages.RoundTrip.{
  IsValid, received, read_single_message-serialize, header_of, payload_of, try_from-to_byte,
  serialize_split, length-header_of, payload_len_of-header_of, length-payload_of, read_exact-append,
}
use ampc_common.Messages.Order.{AreValid, serialize_all, flatten, write_outbound_lem}

read_exact_short : (n : ℕ) (stream : List ℕ) → length stream < n → read_exact n stream ≡ bail
unfolding read_exact
read_exact_short n stream h =
    let test : leb n (length stream) ≡ false = ground arith in rw test refl

-- A message of which the last bytes are missing is an error, not another message.
cut_message :
    (v : NetworkValue) (k : ℕ)
    → IsValid v
    → k < length (serialize v)
    → read_single_message (take k (serialize v)) ≡ bail
unfolding read_single_message take read_header read_payload
cut_message v zero h lt = refl
cut_message v (suc k) h lt =
    let d = get_descriptor_byte v in
    let header : List ℕ = header_of v in
    let payload : List ℕ = payload_of v in
    let total = ap (λ t. length t) (serialize_split v) in
    let parts = length-append header payload in
    let hlen = length-header_of v in
    let plen = payload_len_of-header_of v h in
    rw (serialize_split v, try_from-to_byte d)
      elim (dec_lt k (length header)) [
        | yes inside ↦
            let short = length-take k header (omega arith) in
            rw
              (
                take-append_less k header payload (omega arith),
                read_exact_short (header_len d - 1) (take k header) (omega (arith, short, hlen)),
              )
              refl
        | no past ↦
            let left = k - length header in
            let short = length-take left payload (omega (arith, total, parts)) in
            let allowed : leb (length payload) max_payload_size ≡ true =
              ground (arith, length-payload_of v h) in
            rw
              (
                take-append_more k header payload (omega arith),
                read_exact-append (header_len d - 1) header (take left payload) hlen,
                plen,
                allowed,
                read_exact_short (length payload) (take left payload)
                    (omega (arith, short, total, parts)),
              )
              refl
      ]

-- A stream that is cut anywhere gives the first messages that were written, unchanged and in their
-- order, and nothing else.
pub read_and_parse_inbound_cut :
    (fuel k : ℕ) (vs : List NetworkValue)
    → AreValid vs
    → (n : ℕ) × (read_and_parse_inbound fuel (take k (serialize_all vs)) ≡ take n (map received vs))
unfolding read_and_parse_inbound take read_single_message
read_and_parse_inbound_cut zero k vs h = (0, refl)
read_and_parse_inbound_cut (suc fuel) zero [] h = (0, refl)
read_and_parse_inbound_cut (suc fuel) (suc k) [] h = (0, refl)
read_and_parse_inbound_cut (suc fuel) k (v ∷ vs) h = elim (dec_lt k (length (serialize v))) [
  | yes cut ↦ (
    0,
    rw
        (
          take-append_less k (serialize v) (serialize_all vs) (omega arith),
          read_and_parse_inbound,
          cut_message v k h.0 cut,
        )
        refl,
  )
  | no whole ↦
      let left = k - length (serialize v) in
      let ih = read_and_parse_inbound_cut fuel left vs h.1 in
      (
        suc ih.0,
        rw
            (
              take-append_more k (serialize v) (serialize_all vs) (omega arith),
              read_and_parse_inbound,
              read_single_message-serialize v (take left (serialize_all vs)) h.0,
            )
            (ap (λ t. received v ∷ t) ih.1),
      )
]

batch_more_shrinks :
    (available : ℕ) (buf : List ℕ) (seen queue : List NetworkValue)
    → length ((batch_more available buf seen queue).queue) ≤ length queue
unfolding batch_more
batch_more_shrinks zero buf seen queue = omega arith
batch_more_shrinks (suc available) buf seen [] = omega arith
batch_more_shrinks (suc available) buf seen (msg ∷ queue) =
    let ih = batch_more_shrinks available (buf ++ serialize msg) (seen ++ msg ∷ []) queue in
    elim (Bool-cases (leb max_to_batch (length (buf ++ serialize msg)))) [
      | inl full ↦ rw full (omega arith)
      | inr room ↦ rw room (omega arith)
    ]

write_outbound_ends :
    (schedule : List ℕ) (queue : List NetworkValue)
    → length queue ≤ length schedule
    → (serialize_and_write_outbound schedule queue).left ≡ []
unfolding serialize_and_write_outbound
write_outbound_ends [] [] h = refl
write_outbound_ends [] (msg ∷ queue) h = absurd (omega arith)
write_outbound_ends (available ∷ schedule) [] h = refl
write_outbound_ends (available ∷ schedule) (msg ∷ queue) h =
    let shrinks = batch_more_shrinks available (serialize msg) (msg ∷ []) queue in
    write_outbound_ends schedule ((batch_more available (serialize msg) (msg ∷ []) queue).queue)
      (omega (arith, shrinks))

-- After as many passes as there are messages the channel is empty, the hook has seen every message
-- in the order of the channel, and the buffers written are the bytes of all of them in that order.
pub write_outbound_empties :
    (schedule : List ℕ) (queue : List NetworkValue)
    → length queue ≤ length schedule
    → let w = serialize_and_write_outbound schedule queue in
      (w.left ≡ []) × (w.hooked ≡ queue) × (flatten w.buffers ≡ serialize_all queue)
write_outbound_empties schedule queue h =
    let w = serialize_and_write_outbound schedule queue in
    let all = write_outbound_lem schedule queue in
    let ends = write_outbound_ends schedule queue h in
    let hooked : w.hooked ≡ queue =
      sym (append-nil w.hooked) ∙ ap (λ t. w.hooked ++ t) (sym ends) ∙ all.kept in
    (ends, hooked, all.written ∙ ap serialize_all hooked)
