-- ===== src/Wire/Decode.antt =====
-- The readers of ampc-actor-utils/src/network/mpc/value.rs.
use ampc_common.Base.{
  ℕ, zero, suc, ◌+◌, ◌-◌, ◌*◌, ◌/◌, ◌%◌, List, [], ◌∷◌, length, ◌==◌, leb, if◌then◌else◌,
}
use ampc_common.Base.Bytes.{
  Read, ok, bail, panic, ◌>>=◌, ◌>>◌, ensure, in_range, take, drop, from_le_bytes, elems_from_bytes,
}
use ampc_common.Wire.{
  DescriptorByte, prf_key_byte, ring_element_bit1_byte, ring_element_bit0_byte,
  ring_element_16_byte, ring_element_32_byte, ring_element_64_byte, vec_ring_16_byte,
  vec_ring_32_byte, vec_ring_64_byte, state_checksum_byte, network_vec_byte, prf_check_byte,
  bytes_byte, ring_element_48_byte, vec_ring_48_byte, vec_ring_bit_byte, to_byte, NetworkValue,
  prf_key, ring_element_bit, ring_element_16, ring_element_32, ring_element_64, vec_ring_16,
  vec_ring_32, vec_ring_64, ring_element_48, vec_ring_48, state_checksum, network_vec, prf_check,
  bytes, vec_ring_bit, NetworkValues, no_values, value,
}

abbrev descriptors : List DescriptorByte
descriptors =
    prf_key_byte ∷ ring_element_bit1_byte ∷ ring_element_bit0_byte ∷ ring_element_16_byte
    ∷ ring_element_32_byte ∷ ring_element_64_byte ∷ vec_ring_16_byte ∷ vec_ring_32_byte
    ∷ vec_ring_64_byte ∷ state_checksum_byte ∷ network_vec_byte ∷ prf_check_byte ∷ bytes_byte
    ∷ ring_element_48_byte ∷ vec_ring_48_byte ∷ vec_ring_bit_byte ∷ []

unfoldable pub find_descriptor : ℕ → List DescriptorByte → Read DescriptorByte
find_descriptor byte [] = bail
find_descriptor byte (d ∷ ds) = if to_byte d == byte then ok d else find_descriptor byte ds

-- `DescriptorByte::try_from`.
unfoldable pub try_from : ℕ → Read DescriptorByte
unfolding find_descriptor
try_from byte = find_descriptor byte descriptors

-- `serialized[from..to]` inside the buffer.
abbrev pub slice : List ℕ → ℕ → ℕ → List ℕ
slice serialized from to = take (to - from) (drop from serialized)

unfoldable pub div_ceil_8 : ℕ → ℕ
div_ceil_8 n = (n + 7) / 8

-- `deserialize_vec_ring` once the length has been read.
unfoldable pub vec_ring_of_len : ℕ → List ℕ → ℕ → Read (List ℕ)
vec_ring_of_len wire_bytes serialized len = do
  ensure (length serialized == 5 + len)
  ensure (len % wire_bytes == 0)
  ok (elems_from_bytes wire_bytes (len / wire_bytes) (drop 5 serialized))

unfoldable pub deserialize_vec_ring : ℕ → List ℕ → Read (List ℕ)
unfolding vec_ring_of_len
deserialize_vec_ring wire_bytes serialized = do
  ensure (leb 5 (length serialized))
  vec_ring_of_len wire_bytes serialized (from_le_bytes (slice serialized 1 5))

unfoldable pub bytes_of_len : List ℕ → ℕ → Read NetworkValue
bytes_of_len serialized len = do
  ensure (length serialized == 5 + len)
  ok (bytes (slice serialized 5 (5 + len)))

unfoldable pub bits_of_count : List ℕ → ℕ → Read NetworkValue
unfolding div_ceil_8
bits_of_count serialized bit_count = do
  ensure (length serialized == 5 + div_ceil_8 bit_count)
  ok (vec_ring_bit (slice serialized 5 (5 + div_ceil_8 bit_count)) bit_count)

-- The cases of `deserialize_internal`.
unfoldable pub parse : DescriptorByte → List ℕ → Read NetworkValue
unfolding bytes_of_len bits_of_count
parse prf_key_byte serialized = do
  ensure (length serialized == 1 + 16)
  ok (prf_key (slice serialized 1 (1 + 16)))
parse prf_check_byte serialized = do
  ensure (length serialized == 1 + 16)
  ok (prf_check (from_le_bytes (slice serialized 1 (1 + 16))))
parse ring_element_bit1_byte serialized = do
  ensure (length serialized == 1)
  ok (ring_element_bit 1)
parse ring_element_bit0_byte serialized = do
  ensure (length serialized == 1)
  ok (ring_element_bit 0)
parse ring_element_16_byte serialized = do
  ensure (length serialized == 3)
  ok (ring_element_16 (from_le_bytes (slice serialized 1 3)))
parse ring_element_32_byte serialized = do
  ensure (length serialized == 5)
  ok (ring_element_32 (from_le_bytes (slice serialized 1 5)))
parse ring_element_64_byte serialized = do
  ensure (length serialized == 9)
  ok (ring_element_64 (from_le_bytes (slice serialized 1 9)))
parse vec_ring_16_byte serialized = do v ← deserialize_vec_ring 2 serialized; ok (vec_ring_16 v)
parse vec_ring_32_byte serialized = do v ← deserialize_vec_ring 4 serialized; ok (vec_ring_32 v)
parse vec_ring_64_byte serialized = do v ← deserialize_vec_ring 8 serialized; ok (vec_ring_64 v)
parse ring_element_48_byte serialized = do
  ensure (length serialized == 1 + 6)
  ok (ring_element_48 (from_le_bytes (slice serialized 1 (1 + 6))))
parse vec_ring_48_byte serialized = do v ← deserialize_vec_ring 6 serialized; ok (vec_ring_48 v)
parse state_checksum_byte serialized = do
  ensure (length serialized == 1 + 8 * 2)
  ok (state_checksum (from_le_bytes (slice serialized 1 9)) (from_le_bytes (slice serialized 9 17)))
parse bytes_byte serialized = do
  ensure (leb 5 (length serialized))
  bytes_of_len serialized (from_le_bytes (slice serialized 1 5))
parse vec_ring_bit_byte serialized = do
  ensure (leb 5 (length serialized))
  bits_of_count serialized (from_le_bytes (slice serialized 1 5))
parse network_vec_byte serialized = bail

unfoldable pub deserialize_internal : List ℕ → Read NetworkValue
unfolding parse
deserialize_internal [] = bail
deserialize_internal (descriptor ∷ rest) = do
  descriptor_byte ← try_from descriptor
  parse descriptor_byte (descriptor ∷ rest)

-- `value_len` in the loop of `deserialize_vec`, on the bytes from `idx` to the end.
unfoldable pub value_len_of : DescriptorByte → List ℕ → Read ℕ
unfolding div_ceil_8
value_len_of ring_element_bit0_byte rest = ok 1
value_len_of ring_element_bit1_byte rest = ok 1
value_len_of ring_element_16_byte rest = ok 3
value_len_of ring_element_32_byte rest = ok 5
value_len_of ring_element_64_byte rest = ok 9
value_len_of ring_element_48_byte rest = ok (1 + 6)
value_len_of vec_ring_16_byte rest = do
  ensure (leb 5 (length rest))
  ok (5 + from_le_bytes (slice rest 1 5))
value_len_of vec_ring_32_byte rest = do
  ensure (leb 5 (length rest))
  ok (5 + from_le_bytes (slice rest 1 5))
value_len_of vec_ring_64_byte rest = do
  ensure (leb 5 (length rest))
  ok (5 + from_le_bytes (slice rest 1 5))
value_len_of vec_ring_48_byte rest = do
  ensure (leb 5 (length rest))
  ok (5 + from_le_bytes (slice rest 1 5))
value_len_of bytes_byte rest = do
  ensure (leb 5 (length rest))
  ok (5 + from_le_bytes (slice rest 1 5))
value_len_of vec_ring_bit_byte rest = do
  ensure (leb 5 (length rest))
  ok (5 + div_ceil_8 (from_le_bytes (slice rest 1 5)))
value_len_of prf_key_byte rest = bail
value_len_of prf_check_byte rest = bail
value_len_of state_checksum_byte rest = bail
value_len_of network_vec_byte rest = bail

-- The loop, on the bytes that are left; the slice of one value panics when they are too few. A
-- value takes at least a byte, so as much fuel as there are bytes is enough; `unfinished` is what a
-- run without fuel gives.
unfoldable pub parse_values : Read NetworkValues → ℕ → List ℕ → Read NetworkValues
parse_values unfinished fuel [] = ok no_values
parse_values unfinished zero (b ∷ bs) = unfinished
parse_values unfinished (suc fuel) (b ∷ bs) = do
  descriptor_byte ← try_from b
  value_len ← value_len_of descriptor_byte (b ∷ bs)
  in_range (leb value_len (length (b ∷ bs)))
  v ← deserialize_internal (take value_len (b ∷ bs))
  vs ← parse_values unfinished fuel (drop value_len (b ∷ bs))
  ok (value v vs)

-- `deserialize_vec` once the length has been read.
unfoldable pub values_of_len : List ℕ → ℕ → Read NetworkValues
unfolding parse_values value_len_of
values_of_len serialized payload_len = do
  ensure (length serialized == 5 + payload_len)
  parse_values panic payload_len (drop 5 serialized)

unfoldable pub deserialize_vec : List ℕ → Read NetworkValues
unfolding values_of_len
deserialize_vec [] = bail
deserialize_vec (b ∷ bs) = do
  ensure (leb 5 (length (b ∷ bs)))
  ensure (b == to_byte network_vec_byte)
  values_of_len (b ∷ bs) (from_le_bytes (slice (b ∷ bs) 1 5))

unfoldable pub deserialize : List ℕ → Read NetworkValue
deserialize [] = deserialize_internal []
deserialize (b ∷ bs) =
    if b == to_byte network_vec_byte
    then (do vs ← deserialize_vec (b ∷ bs); ok (network_vec vs))
    else deserialize_internal (b ∷ bs)
