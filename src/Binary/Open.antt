-- ===== src/Binary/Open.antt =====
-- The opening of bits that are shared by exclusive or.
use ampc_common.Base.{
  ℕ, suc, ◌<◌, ◌≡◌, refl, ap, ap₂, length-map, sym, ◌∙◌, arith, List, [], ◌∷◌, length, bit_xor,
  ◌==◌, true,
}
use ampc_common.Base.Bits.{xor_comm, xor_assoc}
use ampc_common.Base.Bytes.{ok}
use ampc_common.Bit
use ampc_common.Share.{Share}
use ampc_common.Share.Local.{Shared}
use ampc_common.Wire.{ring_element_bit}
use ampc_common.Wire.Bits.{AreBits, unpack_bits-pack_bits, unpack_bits, unpack_read}
use ampc_common.Binary.{shares_b, open_bin_send, open_bits, open_bin}
use ampc_common.Binary.And.{at_0, at_1, at_2, AreReplicated, values}

-- The parts that every party holds are bits.
abbrev pub AreSharedBits : List Shared → Type 0
AreSharedBits [] = Unit {0}
AreSharedBits (s ∷ ss) = (s.p0.b < 2) × (s.p1.b < 2) × (s.p2.b < 2) × AreSharedBits ss

unpack_one : (b : ℕ) → unpack_bits (ring_element_bit b) ≡ ok (b ∷ [])
unfolding unpack_bits unpack_read
unpack_one b = refl

unpack_bits-open_bin_send :
    (shares : List Share)
    → AreBits (shares_b shares)
    → unpack_bits (open_bin_send shares) ≡ ok (shares_b shares)
unfolding open_bin_send shares_b
unpack_bits-open_bin_send [] h = unpack_bits-pack_bits [] tt
unpack_bits-open_bin_send (s ∷ []) h = unpack_one s.b
unpack_bits-open_bin_send (s ∷ t ∷ shares) h = unpack_bits-pack_bits (s.b ∷ t.b ∷ shares_b shares) h

length-shares_b : (shares : List Share) → length (shares_b shares) ≡ length shares
unfolding shares_b
length-shares_b [] = refl
length-shares_b (s ∷ shares) = ap suc (length-shares_b shares)

-- A party and its predecessor, on bits.
open_bin_lem :
    (shares prevs : List Share)
    → length prevs ≡ length shares
    → AreBits (shares_b prevs)
    → open_bin shares (open_bin_send prevs) ≡ ok (open_bits shares (shares_b prevs))
unfolding open_bin
open_bin_lem shares prevs l h =
    let len = length-shares_b prevs in
    let same : (length (shares_b prevs) == length shares) ≡ true = ground (arith, len) in
    rw (unpack_bits-open_bin_send prevs h, same) refl

rotate : (a b c : ℕ) → bit_xor (bit_xor a c) b ≡ bit_xor (bit_xor a b) c
rotate a b c = xor_assoc a c b ∙ ap (bit_xor a) (xor_comm c b) ∙ sym (xor_assoc a b c)

bits_0 :
    (ss : List Shared) → AreReplicated ss → open_bits (at_0 ss) (shares_b (at_2 ss)) ≡ values ss
unfolding open_bits shares_b Bit.bitxor
bits_0 [] r = refl
bits_0 (s ∷ ss) r =
    rw (r.0.holds0, r.0.holds2) (ap₂ (λ x xs. x ∷ xs) (rotate s.p0.a s.p1.a s.p2.a) (bits_0 ss r.1))

bits_1 :
    (ss : List Shared) → AreReplicated ss → open_bits (at_1 ss) (shares_b (at_0 ss)) ≡ values ss
unfolding open_bits shares_b Bit.bitxor
bits_1 [] r = refl
bits_1 (s ∷ ss) r =
    rw (r.0.holds1, r.0.holds0)
      (ap₂ (λ x xs. x ∷ xs) (ap (λ t. bit_xor t s.p2.a) (xor_comm s.p1.a s.p0.a)) (bits_1 ss r.1))

bits_2 :
    (ss : List Shared) → AreReplicated ss → open_bits (at_2 ss) (shares_b (at_1 ss)) ≡ values ss
unfolding open_bits shares_b Bit.bitxor
bits_2 [] r = refl
bits_2 (s ∷ ss) r =
    rw (r.0.holds2, r.0.holds1)
      (ap₂ (λ x xs. x ∷ xs)
        (rotate s.p2.a s.p0.a s.p1.a
          ∙ ap (λ t. bit_xor t s.p1.a) (xor_comm s.p2.a s.p0.a)
          ∙ rotate s.p0.a s.p1.a s.p2.a)
        (bits_2 ss r.1))

AreBits-at_0 : (ss : List Shared) → AreSharedBits ss → AreBits (shares_b (at_0 ss))
unfolding shares_b
AreBits-at_0 [] h = tt
AreBits-at_0 (s ∷ ss) h = (h.0, AreBits-at_0 ss h.3)

AreBits-at_1 : (ss : List Shared) → AreSharedBits ss → AreBits (shares_b (at_1 ss))
unfolding shares_b
AreBits-at_1 [] h = tt
AreBits-at_1 (s ∷ ss) h = (h.1, AreBits-at_1 ss h.3)

AreBits-at_2 : (ss : List Shared) → AreSharedBits ss → AreBits (shares_b (at_2 ss))
unfolding shares_b
AreBits-at_2 [] h = tt
AreBits-at_2 (s ∷ ss) h = (h.2, AreBits-at_2 ss h.3)

-- When the parties hold replicated shares of bits by exclusive or, every party opens the bits
-- without an error from its shares and the packed message of its predecessor, and all three the
-- same.
pub open_bin_shared :
    (ss : List Shared)
    → AreReplicated ss
    → AreSharedBits ss
    → (open_bin (at_0 ss) (open_bin_send (at_2 ss)) ≡ ok (values ss))
      × (open_bin (at_1 ss) (open_bin_send (at_0 ss)) ≡ ok (values ss))
      × (open_bin (at_2 ss) (open_bin_send (at_1 ss)) ≡ ok (values ss))
open_bin_shared ss r h =
    let l0 = length-map ss (λ x. x.p0) in
    let l1 = length-map ss (λ x. x.p1) in
    let l2 = length-map ss (λ x. x.p2) in
    (
      open_bin_lem (at_0 ss) (at_2 ss) (l2 ∙ sym l0) (AreBits-at_2 ss h) ∙ ap ok (bits_0 ss r),
      open_bin_lem (at_1 ss) (at_0 ss) (l0 ∙ sym l1) (AreBits-at_0 ss h) ∙ ap ok (bits_1 ss r),
      open_bin_lem (at_2 ss) (at_1 ss) (l1 ∙ sym l2) (AreBits-at_1 ss h) ∙ ap ok (bits_2 ss r),
    )
