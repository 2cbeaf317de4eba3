-- ===== src/Binary.antt =====
-- ampc-actor-utils/src/protocol/binary.rs: the injection of shared bits into a ring and the AND of
-- shared words. As in `Protocol`, what a party does before it sends and what it does with what it
-- receives are functions, and `fill` is the random generator. A bit is 0 or 1.
pub mod Inject
pub mod And
pub mod Open
pub mod Split
mod Tests
use ampc_common.Base.{
  ℕ, zero, suc, ◌+◌, ◌%◌, ◌==◌, Option, none, some, List, [], ◌∷◌, length, if◌then◌else◌, bit_xor,
}
use ampc_common.Base.Options.{◌>>=◌, ◌>>◌, assert}
use ampc_common.Base.Bytes
use ampc_common.Base.Bytes.{Read, ok, ensure}
use ampc_common.Wire.{NetworkValue, ring_element_bit}
use ampc_common.Wire.Bits.{pack_bits, unpack_bits}
use ampc_common.Ring
use ampc_common.Ring.{zip_with, vec_mul, vec_sub}
use ampc_common.Bit
use ampc_common.Share
use ampc_common.Share.{Share, new, sub, add, zero_share}
use ampc_common.Protocol.{Prf, gen_rands_mine, gen_rands_prev, gen_rands_batch}

-- `a2b_pre`: the three parts of a shared value as shares of their own, at the party of the role;
-- `none` is the error for a role outside of 0, 1, 2.
unfoldable pub a2b_pre : ℕ → Share → Option (Share × Share × Share)
a2b_pre zero x = some (new x.a 0, zero_share, new 0 x.b)
a2b_pre (suc zero) x = some (new 0 x.b, new x.a 0, zero_share)
a2b_pre (suc (suc zero)) x = some (zero_share, new 0 x.b, new x.a 0)
a2b_pre (suc (suc (suc n))) x = none

unfoldable pub transposed_pack_xor : List (List Share) → List (List Share) → List (List Share)
transposed_pack_xor = zip_with (zip_with Share.bitxor)

-- The role of a party in a session.
unfoldable pub role_index : ℕ → ℕ → ℕ
role_index own_role session_id = (own_role + session_id) % 3

-- A bit as an element of the ring.
unfoldable pub ring_bit : ℕ → ℕ
ring_bit bit = if Bit.convert bit then 1 else 0

unfoldable pub second_bits : List Share → List ℕ
second_bits [] = []
second_bits (s ∷ input) = ring_bit s.b ∷ second_bits input

unfoldable pub first_bits : List Share → List ℕ
first_bits [] = []
first_bits (s ∷ input) = ring_bit s.a ∷ first_bits input

-- The map of party 1, on the bits and the mask.
unfoldable pub mask_xors : ℕ → List Share → List ℕ → List ℕ
mask_xors k (s ∷ input) (r ∷ masks) =
    Ring.sub k (ring_bit (Bit.bitxor s.a s.b)) r ∷ mask_xors k input masks
mask_xors k _ _ = []

-- The last steps of the parties: `s1`, `s2`, `s3` and `s4` are the shares that the source names so.
unfoldable pub finish_0 : ℕ → (r_01 b2 y r_02 z : List ℕ) → List Share
finish_0 k (s1a ∷ r_01) (s2b ∷ b2) (s3a ∷ y) (s3b ∷ r_02) (s4b ∷ z) =
    let sum12 = add k (new s1a 0) (new 0 s2b) in
    let sum34 = add k (new s3a s3b) (new 0 s4b) in
    sub k (sub k sum12 sum34) sum34 ∷ finish_0 k r_01 b2 y r_02 z
finish_0 k _ _ _ _ _ = []

unfoldable pub finish_1 : ℕ → (x r_01 y r_12 : List ℕ) → List Share
finish_1 k (s1a ∷ x) (s1b ∷ r_01) (s3b ∷ y) (s4a ∷ r_12) =
    let sum34 = add k (new 0 s3b) (new s4a 0) in
    sub k (sub k (new s1a s1b) sum34) sum34 ∷ finish_1 k x r_01 y r_12
finish_1 k _ _ _ _ = []

unfoldable pub finish_2 : ℕ → (x b2 r_02 z r_12 : List ℕ) → List Share
finish_2 k (s1b ∷ x) (s2a ∷ b2) (s3a ∷ r_02) (s4a ∷ z) (s4b ∷ r_12) =
    let sum12 = add k (new 0 s1b) (new s2a 0) in
    let sum34 = add k (new s3a 0) (new s4a s4b) in
    sub k (sub k sum12 sum34) sum34 ∷ finish_2 k x b2 r_02 z r_12
finish_2 k _ _ _ _ _ = []

module _ {Rng : Type 0} (fill : ℕ → ℕ → Rng → List ℕ × Rng) where
  -- Party 0 up to the send: the message to party 1, the masks, and the new generators.
  unfoldable pub bit_inject_party0_send :
      ℕ → List Share → Prf Rng → Option (List ℕ × (List ℕ × List ℕ) × Prf Rng)
  bit_inject_party0_send k input prf =
      let masks = gen_rands_batch fill k (length input) prf in
      do
        product ← vec_mul k masks.0.0 (second_bits input)
        y ← vec_sub k product masks.0.1
        some (y, masks.0, masks.1)

  -- Party 1 up to the send: the message to party 2 and its mask.
  unfoldable pub bit_inject_party1_send : ℕ → List Share → Prf Rng → List ℕ × List ℕ × Prf Rng
  bit_inject_party1_send k input prf =
      let r_01 = gen_rands_prev fill k (length input) prf in
      (mask_xors k input r_01.0, r_01.0, r_01.1)

  -- Party 2 from the receipt on: the message to party 0, its shares and the new generators.
  unfoldable pub bit_inject_party2 :
      ℕ → List Share → Prf Rng → List ℕ → Option (List ℕ × List Share × Prf Rng)
  bit_inject_party2 k input prf x =
      let r_02 = gen_rands_mine fill k (length input) prf in
      let r_12 = gen_rands_prev fill k (length input) r_02.1 in
      do
        product ← vec_mul k x (first_bits input)
        z ← vec_sub k product r_12.0
        some (z, finish_2 k x (first_bits input) r_02.0 z r_12.0, r_12.1)

  -- Party 1 from the receipt on.
  unfoldable pub bit_inject_party1_receive :
      ℕ → List Share → (x r_01 : List ℕ) → Prf Rng → List ℕ → List Share × Prf Rng
  bit_inject_party1_receive k input x r_01 prf y =
      let r_12 = gen_rands_mine fill k (length input) prf in (finish_1 k x r_01 y r_12.0, r_12.1)

-- Party 0 from the receipt on.
unfoldable pub bit_inject_party0_receive :
    ℕ → List Share → (y : List ℕ) → (List ℕ × List ℕ) → List ℕ → List Share
bit_inject_party0_receive k input y masks z = finish_0 k masks.0 (second_bits input) y masks.1 z

-- The zipped map of `and_many_send`.
unfoldable pub mask_ands : (a b : List Share) → (mine prevs : List ℕ) → List ℕ
mask_ands (s ∷ a) (t ∷ b) (my ∷ mine) (prev ∷ prevs) =
    bit_xor (Share.bitand s t) (bit_xor my prev) ∷ mask_ands a b mine prevs
mask_ands _ _ _ _ = []

module _ {Rng : Type 0} (fill : ℕ → ℕ → Rng → List ℕ × Rng) where
  -- `and_many_send`: the message to the next party; different lengths are an error.
  unfoldable pub and_many_send : ℕ → (a b : List Share) → Prf Rng → Option (List ℕ × Prf Rng)
  and_many_send k a b prf =
      let rands = gen_rands_batch fill k (length a) prf in
      do assert (length a == length b); some (mask_ands a b rands.0.0 rands.0.1, rands.1)

-- `and_many` from the receipt on.
unfoldable pub and_many_receive : List ℕ → List ℕ → List Share
and_many_receive = zip_with new

-- What `open_bin` sends to the next party: one bit alone, or the packed bits.
unfoldable pub shares_b : List Share → List ℕ
shares_b [] = []
shares_b (s ∷ shares) = s.b ∷ shares_b shares

unfoldable pub open_bin_send : List Share → NetworkValue
open_bin_send (s ∷ []) = ring_element_bit s.b
open_bin_send shares = pack_bits (shares_b shares)

unfoldable pub open_bits : List Share → List ℕ → List ℕ
open_bits (s ∷ shares) (prev_b ∷ received) =
    Bit.bitxor (Bit.bitxor s.a s.b) prev_b ∷ open_bits shares received
open_bits _ _ = []

-- `open_bin` from the receipt on.
unfoldable pub open_bin : List Share → NetworkValue → Read (List ℕ)
open_bin shares message = Bytes.◌>>=◌ (unpack_bits message) λ b_from_previous.
    Bytes.◌>>◌ (ensure (length b_from_previous == length shares))
      (ok (open_bits shares b_from_previous))
