-- ===== src/Protocol.antt =====
-- ampc-actor-utils/src/protocol/prf.rs and ops.rs: the rounds of the replicated protocol. What a
-- party does before it sends and what it does with what it receives are functions; the network
-- hands every message on unchanged. The random generator is a parameter: `fill k n` draws `n`
-- elements of `k` bits, and `from_seed` expands and sows a seed.
pub mod Reshare
pub mod Mux
pub mod Open
mod Tests
use ampc_common.Base.{
  ℕ, zero, suc, ◌+◌, ◌*◌, ◌/◌, ◌%◌, ◌==◌, ltb, not, Option, none, some, List, [], ◌∷◌, bit_xor,
  length, get_elem?,
}
use ampc_common.Base.Options.{◌>>=◌, ◌>>◌, assert}
use ampc_common.Ring
use ampc_common.Ring.{zip_with}
use ampc_common.Share.{Share, new}
use ampc_common.Share

pub record Prf (Rng : Type 0) : Type 0 where
  pub my_prf : Rng
  pub prev_prf : Rng

-- The zipped and enumerated map of `reshare_products`, from the index `i` on.
unfoldable pub mask_products : ℕ → ℕ → (ℕ → ℕ) → List ℕ → List ℕ → List ℕ
mask_products k i expr (my ∷ mine) (prev ∷ prevs) =
    Ring.add k (Ring.sub k my prev) (expr i) ∷ mask_products k (i + 1) expr mine prevs
mask_products k i expr _ _ = []

-- The map of `galois_ring_to_rep3_components`.
unfoldable pub mask_items : ℕ → List ℕ → List ℕ → List ℕ → List ℕ
mask_items k (x ∷ items) (my ∷ mine) (prev ∷ prevs) =
    Ring.add k (Ring.sub k my prev) x ∷ mask_items k items mine prevs
mask_items k _ _ _ = []

module _ {Rng : Type 0} (fill : ℕ → ℕ → Rng → List ℕ × Rng) where
  unfoldable pub gen_rands_mine : ℕ → ℕ → Prf Rng → List ℕ × Prf Rng
  gen_rands_mine k len prf =
      let drawn = fill k len prf.my_prf in (drawn.0, record prf { my_prf = drawn.1 })

  unfoldable pub gen_rands_prev : ℕ → ℕ → Prf Rng → List ℕ × Prf Rng
  gen_rands_prev k len prf =
      let drawn = fill k len prf.prev_prf in (drawn.0, record prf { prev_prf = drawn.1 })

  unfoldable pub gen_rands_batch : ℕ → ℕ → Prf Rng → (List ℕ × List ℕ) × Prf Rng
  gen_rands_batch k len prf =
      let mine = gen_rands_mine k len prf in
      let prev = gen_rands_prev k len mine.1 in ((mine.0, prev.0), prev.1)

  -- `reshare_products` up to the send: the message to the next party and the new generators.
  unfoldable pub reshare_send : ℕ → ℕ → (ℕ → ℕ) → Prf Rng → List ℕ × Prf Rng
  reshare_send k n expr prf =
      let rands = gen_rands_batch k n prf in (mask_products k 0 expr rands.0.0 rands.0.1, rands.1)

  -- `galois_ring_to_rep3_components` up to the send, on items of 16 bits.
  unfoldable pub galois_ring_to_rep3_send : List ℕ → Prf Rng → List ℕ × Prf Rng
  galois_ring_to_rep3_send items prf =
      let rands = gen_rands_batch 16 (length items) prf in
      (mask_items 16 items rands.0.0 rands.0.1, rands.1)

-- `reshare_products` from the receipt on, with the own message and that of the previous party.
unfoldable pub reshare_receive : List ℕ → List ℕ → List Share
reshare_receive = zip_with new

-- `galois_ring_to_rep3` from the receipt on.
unfoldable pub galois_ring_to_rep3_receive : List ℕ → List ℕ → List Share
galois_ring_to_rep3_receive = zip_with new

-- `setup_replicated_prf`, with the seed received from the previous party.
unfoldable pub setup_replicated_prf : {Rng : Type 0} → (List ℕ → Rng) → List ℕ → List ℕ → Prf Rng
setup_replicated_prf from_seed my_seed other_seed = record {
  my_prf = from_seed my_seed;
  prev_prf = from_seed other_seed;
}

-- `setup_shared_seed`, with the seeds received from the previous and from the next party.
unfoldable pub setup_shared_seed : List ℕ → List ℕ → List ℕ → List ℕ
setup_shared_seed my_seed prev_seed next_seed =
    zip_with bit_xor (zip_with bit_xor my_seed prev_seed) next_seed

-- `sub_pub`, with the index of the role; `none` is `unreachable!`.
unfoldable pub sub_pub : ℕ → Share → ℕ → ℕ → Option Share
sub_pub k share rhs zero = some (record share { a = Ring.sub k share.a rhs })
sub_pub k share rhs (suc zero) = some (record share { b = Ring.sub k share.b rhs })
sub_pub k share rhs (suc (suc zero)) = some share
sub_pub k share rhs (suc (suc (suc n))) = none

-- What `open_ring` sends to the next party, and what it returns on the message received.
unfoldable pub open_ring_send : List Share → List ℕ
open_ring_send [] = []
open_ring_send (s ∷ shares) = s.b ∷ open_ring_send shares

unfoldable pub open_ring : ℕ → List Share → List ℕ → List ℕ
open_ring k = zip_with (λ s c. Ring.add k (Ring.add k s.a s.b) c)

-- `open_ring_element_broadcast`, with the messages of the previous and of the next party.
unfoldable pub open_ring_element_broadcast : ℕ → List ℕ → List ℕ → List ℕ → List ℕ
open_ring_element_broadcast k shares b c = zip_with (Ring.add k) (zip_with (Ring.add k) shares b) c

-- The closure of `reshare_mux` for one field.
unfoldable pub mux_product : ℕ → Share → Share → Share → ℕ
mux_product k c left right =
    let diff = Share.sub k left right in
    Ring.add k
      (Ring.add k (Ring.add k (Ring.mul k c.a diff.a) (Ring.mul k c.b diff.a))
        (Ring.mul k c.a diff.b))
      right.a

-- `control_bits[j]` and the fields at one index: `none` is an index out of range, which the check
-- of the length of `control_bits` excludes.
unfoldable pub mux_at : ℕ → Option Share → Share × Share → ℕ
mux_at k none field = 0
mux_at k (some c) field = mux_product k c field.0 field.1

unfoldable pub mux_expr : ℕ → ℕ → List Share → (ℕ → ℕ → Share × Share) → ℕ → ℕ
mux_expr k fields_per_element control_bits get_field i =
    mux_at k (get_elem? control_bits (i / fields_per_element))
      (get_field (i / fields_per_element) (i % fields_per_element))

-- `reshare_mux` up to the send; `none` is one of its two errors.
unfoldable pub reshare_mux_send :
    {Rng : Type 0}
    → (ℕ → ℕ → Rng → List ℕ × Rng)
    → ℕ
    → ℕ
    → ℕ
    → List Share
    → (ℕ → ℕ → Share × Share)
    → Prf Rng
    → Option (List ℕ × Prf Rng)
reshare_mux_send fill k n_elements fields_per_element control_bits get_field prf = do
  assert (not (fields_per_element == 0))
  assert (not (ltb (length control_bits) n_elements))
  some (
      reshare_send fill k (n_elements * fields_per_element)
        (mux_expr k fields_per_element control_bits get_field) prf)
