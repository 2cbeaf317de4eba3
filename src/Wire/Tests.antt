-- ===== src/Wire/Tests.antt =====
-- Runs.
use ampc_common.Base.{length, arith, ◌≡◌, refl, [], ◌∷◌}
use ampc_common.Base.Bytes.{◌>>=◌, bail, panic, ok, from_le_bytes, take, drop}
use ampc_common.Wire.{
  NetworkValue, serialize, base_len, vec_ring_bit, vec_ring_48, ring_element_16, network_vec, value,
  no_values,
}
use ampc_common.Wire.Decode.{
  deserialize, parse_values, deserialize_vec, try_from, deserialize_internal,
}
use ampc_common.Wire.Valid.{IsValid, byte_len}
use ampc_common.Wire.RoundTrip.{deserialize-serialize}
use ampc_common.Wire.Length.{length-serialize, parse_values_enough}
use ampc_common.Wire.Bits.{pack_bits, unpack_bits, unpack_bits-pack_bits}

truncated_vec : deserialize (0x0A ∷ 1 ∷ 0 ∷ 0 ∷ 0 ∷ 0x05 ∷ []) ≡ panic
unfolding deserialize deserialize_vec try_from deserialize_internal take drop from_le_bytes
truncated_vec = refl

one_16 :
    deserialize (0x0A ∷ 3 ∷ 0 ∷ 0 ∷ 0 ∷ 0x03 ∷ 1 ∷ 2 ∷ [])
    ≡ ok (network_vec (value (ring_element_16 513) no_values))
unfolding deserialize deserialize_vec try_from deserialize_internal take drop from_le_bytes
one_16 = refl

-- A vector of a number, of bits, and of a list of 48-bit numbers.
abbrev mixed : NetworkValue
mixed = network_vec (
    value (ring_element_16 513)
      (value (vec_ring_bit (5 ∷ []) 3) (value (vec_ring_48 (7 ∷ 8 ∷ [])) no_values)))

mixed-IsValid : IsValid mixed
unfolding byte_len base_len
mixed-IsValid = (
  (
    tt,
    omega arith,
    (tt, (omega arith, refl), (tt, (omega arith, (omega arith, (omega arith, tt))), tt)),
  ),
  omega arith,
)

deserialize-serialize_example : (serialize mixed >>= deserialize) ≡ ok mixed
deserialize-serialize_example = deserialize-serialize mixed mixed-IsValid

length-serialize_example : (serialize mixed >>= λ bs. ok (length bs)) ≡ ok (byte_len mixed)
length-serialize_example = length-serialize mixed mixed-IsValid

parse_values_enough_example :
    parse_values panic 9 (0x05 ∷ 0 ∷ []) ≡ parse_values bail 2 (0x05 ∷ 0 ∷ [])
parse_values_enough_example =
    parse_values_enough 9 2 panic bail (0x05 ∷ 0 ∷ []) (omega arith) (omega arith)

unpack_bits-pack_bits_example :
    unpack_bits (pack_bits (1 ∷ 0 ∷ 1 ∷ 1 ∷ 0 ∷ 0 ∷ 0 ∷ 1 ∷ 1 ∷ []))
    ≡ ok (1 ∷ 0 ∷ 1 ∷ 1 ∷ 0 ∷ 0 ∷ 0 ∷ 1 ∷ 1 ∷ [])
unpack_bits-pack_bits_example = unpack_bits-pack_bits (1 ∷ 0 ∷ 1 ∷ 1 ∷ 0 ∷ 0 ∷ 0 ∷ 1 ∷ 1 ∷ []) (
  omega arith,
  (
    omega arith,
    (
      omega arith,
      (omega arith, (omega arith, (omega arith, (omega arith, (omega arith, (omega arith, tt)))))),
    ),
  ),
)
