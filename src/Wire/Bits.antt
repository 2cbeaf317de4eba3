-- ===== src/Wire/Bits.antt =====
-- `pack_bits` and `unpack_bits` of ampc-actor-utils/src/network/mpc/value.rs: eight bits to a byte,
-- lowest first.
use ampc_common.Base.{
  ℕ, zero, suc, ◌+◌, ◌-◌, ◌*◌, ◌/◌, ◌%◌, ◌^◌, ◌<◌, ◌≤◌, ◌≡◌, refl, ap, ap₂, subst, sym, ◌∙◌, arith,
  List, [], ◌∷◌, ◌++◌, length, ◌==◌, ltb, Bool, true, false, bit_or, bit_and, if◌then◌else◌, ◌&&◌,
  dec_lt, every_below, every_below-true,
}
use ampc_common.Base.Bits.{and-one}
use ampc_common.Base.Mod.{pow-pos}
use native.Mathlib.Nat.{add-mul-div_left, lt_of_lt_of_le, pow-le-pow_right, div-eq_of_lt, pow-suc}
use ampc_common.Base.Bytes.{
  Read, ok, bail, ◌>>=◌, take, drop, length-take, take_short, append-take-drop, length-drop,
}
use ampc_common.Wire.{NetworkValue, vec_ring_bit, ring_element_bit, pre_framed}
use ampc_common.Wire.Decode.{deserialize}

-- The bits of a chunk are put into a byte, the first of them at `index`.
unfoldable pub pack_byte : ℕ → ℕ → List ℕ → ℕ
pack_byte index byte [] = byte
pack_byte index byte (bit ∷ bits) = pack_byte (suc index) (bit_or byte (bit * 2 ^ index % 256)) bits

-- The chunks of eight bits, and what is left over as a last byte. As much fuel as there are bits is
-- enough.
unfoldable pub pack_chunks : ℕ → List ℕ → List ℕ
pack_chunks fuel [] = []
pack_chunks zero (bit ∷ bits) = []
pack_chunks (suc fuel) (bit ∷ bits) =
    pack_byte 0 0 (take 8 (bit ∷ bits)) ∷ pack_chunks fuel (drop 8 (bit ∷ bits))

unfoldable pub pack_bits : List ℕ → NetworkValue
pack_bits bits = vec_ring_bit (pack_chunks (length bits) bits) (length bits)

unfoldable pub unpack_byte : ℕ → ℕ → ℕ → List ℕ
unpack_byte bit_index zero byte = []
unpack_byte bit_index (suc left) byte =
    (if bit_and (byte / 2 ^ bit_index) 1 == 1 then 1 else 0) ∷ unpack_byte (suc bit_index) left byte

-- The loop over the bytes, where `left` bits are still wanted.
unfoldable pub unpack_bytes : ℕ → List ℕ → Read (List ℕ)
unpack_bytes zero [] = ok []
unpack_bytes (suc left) [] = bail
unpack_bytes left (byte ∷ packed) =
    let rest = unpack_bytes (left - 8) packed in
    if ltb left 8
    then ok (unpack_byte 0 left byte)
    else (do bits ← rest; ok (unpack_byte 0 8 byte ++ bits))

-- A message that is framed already is read first, and what is read is never framed.
unfoldable pub unpack_read : NetworkValue → Read (List ℕ)
unpack_read (vec_ring_bit packed bit_count) = unpack_bytes bit_count packed
unpack_read (ring_element_bit bit) = ok (bit ∷ [])
unpack_read _ = bail

unfoldable pub unpack_bits : NetworkValue → Read (List ℕ)
unpack_bits (pre_framed framed) = deserialize framed >>= unpack_read
unpack_bits v = unpack_read v

or_row : ℕ → ℕ → Bool
or_row index byte =
    if ltb byte (2 ^ index)
    then (bit_or byte (2 ^ index % 256) == byte + 2 ^ index) && (bit_or byte 0 == byte)
    else true

or_rows : every_below (λ index. every_below (or_row index) 128) 8 ≡ true
unfolding every_below or_row
or_rows = refl

or_row_lem :
    (index byte bit : ℕ)
    → byte < 2 ^ index
    → bit < 2
    → or_row index byte ≡ true
    → bit_or byte (bit * 2 ^ index % 256) ≡ byte + bit * 2 ^ index
unfolding or_row
or_row_lem index byte zero hb h2 row = ground arith
or_row_lem index byte (suc zero) hb h2 row = ground arith
or_row_lem index byte (suc (suc bit)) hb h2 row = absurd (omega arith)

or_lem :
    (index byte bit : ℕ)
    → index < 8
    → byte < 2 ^ index
    → bit < 2
    → bit_or byte (bit * 2 ^ index % 256) ≡ byte + bit * 2 ^ index
or_lem index byte bit hi hb h2 =
    let small : byte < 128 =
      lt_of_lt_of_le hb
        (pow-le-pow_right {n = 2} (omega arith) {i = index} {j = 7} (omega arith)) in
    let row =
      every_below-true (or_row index) 128 byte small
        (every_below-true (λ i. every_below (or_row i) 128) 8 index hi or_rows) in
    or_row_lem index byte bit hb h2 row

-- The number whose lowest binary digits are the bits.
abbrev number : List ℕ → ℕ
number [] = 0
number (bit ∷ bits) = bit + 2 * number bits

abbrev pub AreBits : List ℕ → Type 0
AreBits [] = Unit {0}
AreBits (bit ∷ bits) = (bit < 2) × AreBits bits

bit_scaled : (bit n : ℕ) → bit < 2 → bit * n ≤ n
bit_scaled zero n h = omega arith
bit_scaled (suc zero) n h = omega arith
bit_scaled (suc (suc bit)) n h = absurd (omega arith)

pack_byte_lem :
    (index byte : ℕ) (bits : List ℕ)
    → byte < 2 ^ index
    → index + length bits ≤ 8
    → AreBits bits
    → pack_byte index byte bits ≡ byte + 2 ^ index * number bits
unfolding pack_byte
pack_byte_lem index byte [] lt fits h = omega arith
pack_byte_lem index byte (bit ∷ bits) lt fits h =
    let next = or_lem index byte bit (omega arith) lt h.0 in
    let grown : byte + bit * 2 ^ index < 2 ^ suc index =
      omega (arith, pow-suc 2 index, bit_scaled bit (2 ^ index) h.0) in
    let rest = pack_byte_lem (suc index) (byte + bit * 2 ^ index) bits grown (omega arith) h.1 in
    rw (next, rest) (omega (arith, pow-suc 2 index, ap (λ t. t * number bits) (pow-suc 2 index)))

head_bit : (bit rest : ℕ) → bit < 2 → (if (bit + 2 * rest) % 2 == 1 then 1 else 0) ≡ bit
head_bit bit rest h = ground arith

unpack_byte_lem :
    (index byte : ℕ) (bits : List ℕ)
    → byte < 2 ^ index
    → AreBits bits
    → unpack_byte index (length bits) (byte + 2 ^ index * number bits) ≡ bits
unfolding unpack_byte
unpack_byte_lem index byte [] lt h = refl
unpack_byte_lem index byte (bit ∷ bits) lt h =
    let scale = pow-suc 2 index in
    let shifted : byte + 2 ^ index * (bit + 2 * number bits)
        ≡ byte + bit * 2 ^ index + 2 ^ suc index * number bits =
      omega (arith, ap (λ t. t * number bits) scale) in
    let halved : (byte + 2 ^ index * (bit + 2 * number bits)) / 2 ^ index ≡ bit + 2 * number bits =
      add-mul-div_left byte (bit + 2 * number bits) (pow-pos index)
      ∙ ap (λ t. t + (bit + 2 * number bits)) (div-eq_of_lt lt)
      ∙ omega arith in
    let grown : byte + bit * 2 ^ index < 2 ^ suc index =
      omega (arith, scale, bit_scaled bit (2 ^ index) h.0) in
    ap₂ (λ a b. a ∷ b)
      (rw (halved, and-one (bit + 2 * number bits)) (head_bit bit (number bits) h.0))
      (rw shifted (unpack_byte_lem (suc index) (byte + bit * 2 ^ index) bits grown h.1))

AreBits-take : (n : ℕ) (bits : List ℕ) → AreBits bits → AreBits (take n bits)
unfolding take
AreBits-take zero bits h = tt
AreBits-take (suc n) [] h = tt
AreBits-take (suc n) (bit ∷ bits) h = (h.0, AreBits-take n bits h.1)

AreBits-drop : (n : ℕ) (bits : List ℕ) → AreBits bits → AreBits (drop n bits)
unfolding drop
AreBits-drop zero bits h = h
AreBits-drop (suc n) [] h = tt
AreBits-drop (suc n) (bit ∷ bits) h = AreBits-drop n bits h.1

-- One byte gives back its chunk.
chunk_lem :
    (bits : List ℕ)
    → length bits ≤ 8
    → AreBits bits
    → unpack_byte 0 (length bits) (pack_byte 0 0 bits) ≡ bits
chunk_lem bits short h =
    rw (pack_byte_lem 0 0 bits (omega arith) (omega arith) h)
      (unpack_byte_lem 0 0 bits (omega arith) h)

unpack_bytes-pack_chunks :
    (fuel : ℕ) (bits : List ℕ)
    → length bits ≤ fuel
    → AreBits bits
    → unpack_bytes (length bits) (pack_chunks fuel bits) ≡ ok bits
unfolding unpack_bytes pack_chunks
unpack_bytes-pack_chunks fuel [] enough h = refl
unpack_bytes-pack_chunks zero (bit ∷ bits) enough h = absurd (omega arith)
unpack_bytes-pack_chunks (suc fuel) (bit ∷ bits) enough h =
    let all : List ℕ = bit ∷ bits in
    let ih =
      unpack_bytes-pack_chunks fuel (drop 8 all) (omega (arith, length-drop 8 all))
        (AreBits-drop 8 all h) in
    elim (dec_lt (length all) 8) [
      | yes few ↦
          let test : ltb (length all) 8 ≡ true = ground arith in
          rw (test, take_short 8 all (omega arith), chunk_lem all (omega arith) h) refl
      | no many ↦
          let test : ltb (length all) 8 ≡ false = ground arith in
          let eight = length-take 8 all (omega arith) in
          let chunk =
            subst (λ n. unpack_byte 0 n (pack_byte 0 0 (take 8 all)) ≡ take 8 all) eight
              (chunk_lem (take 8 all) (omega (arith, eight)) (AreBits-take 8 all h)) in
          rw (test, sym (length-drop 8 all), ih, chunk) (ap ok (append-take-drop 8 all))
    ]

-- Bits that are packed are unpacked again, in the same order and number.
pub unpack_bits-pack_bits : (bits : List ℕ) → AreBits bits → unpack_bits (pack_bits bits) ≡ ok bits
unfolding pack_bits unpack_bits unpack_read
unpack_bits-pack_bits bits h = unpack_bytes-pack_chunks (length bits) bits (omega arith) h
