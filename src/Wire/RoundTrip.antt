-- ===== src/Wire/RoundTrip.antt =====
-- What is serialized is read back, and takes the length that `byte_len` says.
use ampc_common.Base.{
  ℕ, zero, suc, ◌^◌, ◌<◌, ◌≤◌, ◌≡◌, refl, inl, inr, arith, List, [], ◌∷◌, ◌++◌, length, ◌==◌, leb,
  true, false, length-append,
}
use ampc_common.Base.Bytes.{panic, ok, ◌>>=◌, drop, to_le_bytes, take-append, drop-append}
use ampc_common.Wire.{
  to_byte, NetworkValue, prf_key, ring_element_bit, ring_element_16, ring_element_32,
  ring_element_64, vec_ring_16, vec_ring_32, vec_ring_64, ring_element_48, vec_ring_48,
  state_checksum, network_vec, prf_check, bytes, vec_ring_bit, pre_framed, NetworkValues, no_values,
  value, serialize, serialize_values, serialize_vec,
}
use ampc_common.Wire.Decode.{
  deserialize_internal, deserialize_vec, deserialize, parse_values, values_of_len,
}
use ampc_common.Wire.Valid.{byte_len, byte_len_all, IsSingle, AreElements, IsValid}
use ampc_common.Wire.Frame.{desc_of, frame, try_from-to_byte, serialize_internal_lem, bit_cases}
use ampc_common.Wire.Single.{
  parse-frame, length-frame, value_len_of-frame, prefixed_enough, prefixed_len, prefixed_exact,
  prefixed_body,
}

-- The bytes of one value after another.
abbrev pub frames : NetworkValues → List ℕ
frames no_values = []
frames (value v vs) = frame v ++ frames vs

deserialize_internal-frame : (v : NetworkValue) → IsSingle v → deserialize_internal (frame v) ≡ ok v
unfolding deserialize_internal
deserialize_internal-frame v h = rw (try_from-to_byte (desc_of v), parse-frame v h) refl

serialize_values_lem : (vs : NetworkValues) → AreElements vs → serialize_values vs ≡ ok (frames vs)
unfolding serialize_values
serialize_values_lem no_values h = refl
serialize_values_lem (value v vs) h =
    rw (serialize_internal_lem v h.1, serialize_values_lem vs h.2) refl

pub length-frames : (vs : NetworkValues) → AreElements vs → length (frames vs) ≡ byte_len_all vs
unfolding byte_len_all
length-frames no_values h = refl
length-frames (value v vs) h =
    omega (arith, length-append (frame v) (frames vs), length-frame v h.1, length-frames vs h.2)

parse_values-frames :
    (n : ℕ) (vs : NetworkValues)
    → AreElements vs
    → length (frames vs) ≤ n
    → parse_values panic n (frames vs) ≡ ok vs
unfolding parse_values
parse_values-frames n no_values e fuel = refl
parse_values-frames zero (value v vs) e fuel = absurd (omega arith)
parse_values-frames (suc n) (value v vs) e fuel =
    let single = e.1 in
    let len = length-frame v single in
    let total = length-append (frame v) (frames vs) in
    let inside : leb (byte_len v) (length (frame v ++ frames vs)) ≡ true =
      ground (arith, len, total) in
    rw
      (
        try_from-to_byte (desc_of v),
        value_len_of-frame v (frames vs) e.0 single,
        inside,
        take-append (byte_len v) (frame v) (frames vs) len,
        drop-append (byte_len v) (frame v) (frames vs) len,
        deserialize_internal-frame v single,
        parse_values-frames n vs e.2 (omega (arith, total)),
      )
      refl

-- No single value starts with the byte of a vector of values.
desc_of_single : (v : NetworkValue) → IsSingle v → (to_byte (desc_of v) == 0x0A) ≡ false
desc_of_single (prf_key key) h = refl
desc_of_single (ring_element_bit b) h = elim (bit_cases b h) [
  | inl e ↦ rw e refl
  | inr e ↦ rw e refl
]
desc_of_single (ring_element_16 x) h = refl
desc_of_single (ring_element_32 x) h = refl
desc_of_single (ring_element_64 x) h = refl
desc_of_single (vec_ring_16 v) h = refl
desc_of_single (vec_ring_32 v) h = refl
desc_of_single (vec_ring_64 v) h = refl
desc_of_single (ring_element_48 x) h = refl
desc_of_single (vec_ring_48 v) h = refl
desc_of_single (state_checksum irises graph) h = refl
desc_of_single (network_vec vs) h = absurd h
desc_of_single (prf_check x) h = refl
desc_of_single (bytes v) h = refl
desc_of_single (vec_ring_bit packed bit_count) h = refl
desc_of_single (pre_framed framed) h = absurd h

-- All the bytes of a valid value.
abbrev pub encoding : NetworkValue → List ℕ
encoding (network_vec vs) = 0x0A ∷ to_le_bytes 4 (length (frames vs)) ++ frames vs
encoding v = frame v

pub serialize_lem : (v : NetworkValue) → IsValid v → serialize v ≡ ok (encoding v)
unfolding serialize serialize_vec
serialize_lem (network_vec vs) h = rw (serialize_values_lem vs h.0) refl
serialize_lem (prf_key key) h = serialize_internal_lem (prf_key key) h
serialize_lem (ring_element_bit b) h = serialize_internal_lem (ring_element_bit b) h
serialize_lem (ring_element_16 x) h = serialize_internal_lem (ring_element_16 x) h
serialize_lem (ring_element_32 x) h = serialize_internal_lem (ring_element_32 x) h
serialize_lem (ring_element_64 x) h = serialize_internal_lem (ring_element_64 x) h
serialize_lem (vec_ring_16 v) h = serialize_internal_lem (vec_ring_16 v) h
serialize_lem (vec_ring_32 v) h = serialize_internal_lem (vec_ring_32 v) h
serialize_lem (vec_ring_64 v) h = serialize_internal_lem (vec_ring_64 v) h
serialize_lem (ring_element_48 x) h = serialize_internal_lem (ring_element_48 x) h
serialize_lem (vec_ring_48 v) h = serialize_internal_lem (vec_ring_48 v) h
serialize_lem (state_checksum i g) h = serialize_internal_lem (state_checksum i g) h
serialize_lem (prf_check x) h = serialize_internal_lem (prf_check x) h
serialize_lem (bytes v) h = serialize_internal_lem (bytes v) h
serialize_lem (vec_ring_bit packed n) h = serialize_internal_lem (vec_ring_bit packed n) h
serialize_lem (pre_framed framed) h = absurd h

deserialize-frame : (v : NetworkValue) → IsSingle v → deserialize (frame v) ≡ ok v
unfolding deserialize
deserialize-frame v h = rw (desc_of_single v h, deserialize_internal-frame v h) refl

deserialize_vec-encoding :
    (vs : NetworkValues)
    → AreElements vs
    → byte_len_all vs < 256 ^ 4
    → deserialize_vec (encoding (network_vec vs)) ≡ ok vs
unfolding deserialize_vec values_of_len drop
deserialize_vec-encoding vs e short =
    let body : List ℕ = frames vs in
    let fits : length body < 256 ^ 4 = omega (arith, length-frames vs e) in
    rw
      (
        prefixed_enough (length body) body fits,
        prefixed_len (length body) body fits,
        prefixed_exact (length body) body fits refl,
        prefixed_body (length body) body fits,
        parse_values-frames (length body) vs e (omega arith),
      )
      refl

deserialize-encoding : (v : NetworkValue) → IsValid v → deserialize (encoding v) ≡ ok v
unfolding deserialize
deserialize-encoding (network_vec vs) h = rw (deserialize_vec-encoding vs h.0 h.1) refl
deserialize-encoding (prf_key key) h = deserialize-frame (prf_key key) h
deserialize-encoding (ring_element_bit b) h = deserialize-frame (ring_element_bit b) h
deserialize-encoding (ring_element_16 x) h = deserialize-frame (ring_element_16 x) h
deserialize-encoding (ring_element_32 x) h = deserialize-frame (ring_element_32 x) h
deserialize-encoding (ring_element_64 x) h = deserialize-frame (ring_element_64 x) h
deserialize-encoding (vec_ring_16 v) h = deserialize-frame (vec_ring_16 v) h
deserialize-encoding (vec_ring_32 v) h = deserialize-frame (vec_ring_32 v) h
deserialize-encoding (vec_ring_64 v) h = deserialize-frame (vec_ring_64 v) h
deserialize-encoding (ring_element_48 x) h = deserialize-frame (ring_element_48 x) h
deserialize-encoding (vec_ring_48 v) h = deserialize-frame (vec_ring_48 v) h
deserialize-encoding (state_checksum i g) h = deserialize-frame (state_checksum i g) h
deserialize-encoding (prf_check x) h = deserialize-frame (prf_check x) h
deserialize-encoding (bytes v) h = deserialize-frame (bytes v) h
deserialize-encoding (vec_ring_bit packed n) h = deserialize-frame (vec_ring_bit packed n) h
deserialize-encoding (pre_framed framed) h = absurd h

-- Every valid value is serialized without an error, and the bytes are read back as the value.
pub deserialize-serialize : (v : NetworkValue) → IsValid v → (serialize v >>= deserialize) ≡ ok v
deserialize-serialize v h = rw (serialize_lem v h) (deserialize-encoding v h)
