-- ===== src/Messages/Order.antt =====
-- What one end queues and what the other end reads.
use ampc_common.Base.{
  ℕ, zero, suc, ◌≤◌, ◌≡◌, refl, ap, ap₂, subst, sym, ◌∙◌, arith, List, [], ◌∷◌, ◌++◌, map, length,
  leb, length-append, append_assoc, append-nil, inl, inr, Bool-cases,
}
use ampc_common.Messages.{NetworkValue, serialize}
use ampc_common.Messages.Stream.{
  read_single_message, read_and_parse_inbound, Written, Batch, batch_more, max_to_batch,
  serialize_and_write_outbound,
}
use ampc_common.Messages.RoundTrip.{IsValid, received, read_single_message-serialize}

abbrev pub AreValid : List NetworkValue → Type 0
AreValid [] = Unit {0}
AreValid (v ∷ vs) = IsValid v × AreValid vs

abbrev pub serialize_all : List NetworkValue → List ℕ
serialize_all [] = []
serialize_all (v ∷ vs) = serialize v ++ serialize_all vs

-- The bytes of buffers written one after another.
abbrev pub flatten : List (List ℕ) → List ℕ
flatten [] = []
flatten (b ∷ bs) = b ++ flatten bs

serialize_all-append :
    (us vs : List NetworkValue) → serialize_all (us ++ vs) ≡ serialize_all us ++ serialize_all vs
serialize_all-append [] vs = refl
serialize_all-append (u ∷ us) vs =
    ap (λ t. serialize u ++ t) (serialize_all-append us vs)
    ∙ sym (append_assoc (serialize u) (serialize_all us) (serialize_all vs))

-- The stream of all bytes of a list of messages is read as those messages.
read_all :
    (fuel : ℕ) (vs : List NetworkValue)
    → AreValid vs
    → length vs ≤ fuel
    → read_and_parse_inbound fuel (serialize_all vs) ≡ map received vs
unfolding read_and_parse_inbound read_single_message
read_all zero [] h enough = refl
read_all zero (v ∷ vs) h enough = absurd (omega arith)
read_all (suc fuel) [] h enough = refl
read_all (suc fuel) (v ∷ vs) h enough =
    rw (read_and_parse_inbound, read_single_message-serialize v (serialize_all vs) h.0)
      (ap (λ t. received v ∷ t) (read_all fuel vs h.1 (omega arith)))

-- The inner loop puts the bytes of the messages that it takes from the channel behind the buffer.
record IsBatched (taken : List NetworkValue) (b : Batch) : Type 0 where
  bytes_of : b.buf ≡ serialize_all b.seen
  order : b.seen ++ b.queue ≡ taken

one_more :
    (msg : NetworkValue) (buf : List ℕ) (seen : List NetworkValue)
    → buf ≡ serialize_all seen
    → buf ++ serialize msg ≡ serialize_all (seen ++ msg ∷ [])
one_more msg buf seen h =
    ap₂ (λ a b. a ++ b) h (sym (append-nil (serialize msg)))
    ∙ sym (serialize_all-append seen (msg ∷ []))

batch_more_lem :
    (available : ℕ) (buf : List ℕ) (seen queue : List NetworkValue)
    → buf ≡ serialize_all seen
    → IsBatched (seen ++ queue) (batch_more available buf seen queue)
unfolding batch_more
batch_more_lem zero buf seen queue h = record { bytes_of = h; order = refl }
batch_more_lem (suc available) buf seen [] h = record { bytes_of = h; order = refl }
batch_more_lem (suc available) buf seen (msg ∷ queue) h =
    let next = one_more msg buf seen h in
    let moved : (seen ++ msg ∷ []) ++ queue ≡ seen ++ (msg ∷ queue) =
      append_assoc seen (msg ∷ []) queue in
    let ih = batch_more_lem available (buf ++ serialize msg) (seen ++ msg ∷ []) queue next in
    elim (Bool-cases (leb max_to_batch (length (buf ++ serialize msg)))) [
      | inl full ↦ rw full (record { bytes_of = next; order = moved })
      | inr room ↦ rw room (record { bytes_of = ih.bytes_of; order = ih.order ∙ moved })
    ]

-- The hook sees the messages in the order of the channel, and the buffers are their bytes, in
-- whatever way the messages were put together.
pub record IsWritten (queue : List NetworkValue) (w : Written) : Type 0 where
  pub written : flatten w.buffers ≡ serialize_all w.hooked
  pub kept : w.hooked ++ w.left ≡ queue

pub write_outbound_lem :
    (schedule : List ℕ) (queue : List NetworkValue)
    → IsWritten queue (serialize_and_write_outbound schedule queue)
unfolding serialize_and_write_outbound
write_outbound_lem [] queue = record { written = refl; kept = refl }
write_outbound_lem (available ∷ schedule) [] = record { written = refl; kept = refl }
write_outbound_lem (available ∷ schedule) (msg ∷ queue) =
    let b = batch_more available (serialize msg) (msg ∷ []) queue in
    let step =
      batch_more_lem available (serialize msg) (msg ∷ []) queue
        (sym (append-nil (serialize msg))) in
    let ih = write_outbound_lem schedule b.queue in
    let rest = serialize_and_write_outbound schedule b.queue in
    record {
      written =
          ap₂ (λ x y. x ++ y) step.bytes_of ih.written
          ∙ sym (serialize_all-append b.seen rest.hooked);
      kept = append_assoc b.seen rest.hooked rest.left ∙ ap (λ t. b.seen ++ t) ih.kept ∙ step.order;
    }

AreValid-append : (us vs : List NetworkValue) → AreValid (us ++ vs) → AreValid us
AreValid-append [] vs h = tt
AreValid-append (u ∷ us) vs h = (h.0, AreValid-append us vs h.1)

-- The messages that were taken from a channel of valid messages are read at the other end, all of
-- them and in their order, whatever the buffers they were written in; those that are not read are
-- still in the channel.
pub read_and_parse_inbound-serialize_and_write_outbound :
    (fuel : ℕ) (schedule : List ℕ) (queue : List NetworkValue)
    → AreValid queue
    → length queue ≤ fuel
    → let w = serialize_and_write_outbound schedule queue in
      (read_and_parse_inbound fuel (flatten w.buffers) ≡ map received w.hooked)
      × (w.hooked ++ w.left ≡ queue)
read_and_parse_inbound-serialize_and_write_outbound fuel schedule queue h enough =
    let w = serialize_and_write_outbound schedule queue in
    let all = write_outbound_lem schedule queue in
    let valid = AreValid-append w.hooked w.left (subst AreValid (sym all.kept) h) in
    let count = length-append w.hooked w.left ∙ refl in
    (
      rw (all.written)
          (read_all fuel w.hooked valid (omega (arith, count, ap (λ t. length t) all.kept))),
      all.kept,
    )
