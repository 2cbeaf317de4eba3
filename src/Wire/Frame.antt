-- ===== src/Wire/Frame.antt =====
-- The bytes of one value: a descriptor and a body.
use ampc_common.Base.{
  ℕ, zero, suc, ◌<◌, ◌≡◌, refl, ◌⊎◌, inl, inr, if◌then◌else◌, arith, List, [], ◌∷◌, ◌++◌, length,
  ◌==◌,
}
use ampc_common.Base.Bytes.{ok, to_le_bytes}
use ampc_common.Wire.{
  DescriptorByte, to_byte, prf_key_byte, ring_element_bit1_byte, ring_element_bit0_byte,
  ring_element_16_byte, ring_element_32_byte, ring_element_64_byte, vec_ring_16_byte,
  vec_ring_32_byte, vec_ring_64_byte, state_checksum_byte, network_vec_byte, prf_check_byte,
  bytes_byte, ring_element_48_byte, vec_ring_48_byte, vec_ring_bit_byte, NetworkValue, prf_key,
  ring_element_bit, ring_element_16, ring_element_32, ring_element_64, vec_ring_16, vec_ring_32,
  vec_ring_64, ring_element_48, vec_ring_48, state_checksum, network_vec, prf_check, bytes,
  vec_ring_bit, pre_framed, serialize_internal, serialize_vec_ring, serialize_body,
  get_descriptor_byte, after_descriptor,
}
use ampc_common.Wire.Decode.{try_from}
use ampc_common.Wire.Valid.{IsSingle}

-- The descriptor of a single value and the bytes after it.
abbrev pub desc_of : NetworkValue → DescriptorByte
desc_of (prf_key key) = prf_key_byte
desc_of (ring_element_bit b) = if b == 1 then ring_element_bit1_byte else ring_element_bit0_byte
desc_of (ring_element_16 x) = ring_element_16_byte
desc_of (ring_element_32 x) = ring_element_32_byte
desc_of (ring_element_64 x) = ring_element_64_byte
desc_of (vec_ring_16 v) = vec_ring_16_byte
desc_of (vec_ring_32 v) = vec_ring_32_byte
desc_of (vec_ring_64 v) = vec_ring_64_byte
desc_of (ring_element_48 x) = ring_element_48_byte
desc_of (vec_ring_48 v) = vec_ring_48_byte
desc_of (state_checksum irises graph) = state_checksum_byte
desc_of (network_vec vs) = network_vec_byte
desc_of (prf_check x) = prf_check_byte
desc_of (bytes v) = bytes_byte
desc_of (vec_ring_bit packed bit_count) = vec_ring_bit_byte
desc_of (pre_framed framed) = bytes_byte

abbrev pub body_of : NetworkValue → List ℕ
body_of (prf_key key) = key
body_of (ring_element_bit b) = []
body_of (ring_element_16 x) = to_le_bytes 2 x
body_of (ring_element_32 x) = to_le_bytes 4 x
body_of (ring_element_64 x) = to_le_bytes 8 x
body_of (vec_ring_16 v) = serialize_vec_ring 2 v
body_of (vec_ring_32 v) = serialize_vec_ring 4 v
body_of (vec_ring_64 v) = serialize_vec_ring 8 v
body_of (ring_element_48 x) = to_le_bytes 6 x
body_of (vec_ring_48 v) = serialize_vec_ring 6 v
body_of (state_checksum irises graph) = to_le_bytes 8 irises ++ to_le_bytes 8 graph
body_of (network_vec vs) = []
body_of (prf_check x) = to_le_bytes 16 x
body_of (bytes v) = to_le_bytes 4 (length v) ++ v
body_of (vec_ring_bit packed bit_count) = to_le_bytes 4 bit_count ++ packed
body_of (pre_framed framed) = []

abbrev pub frame : NetworkValue → List ℕ
frame v = to_byte (desc_of v) ∷ body_of v

pub try_from-to_byte : (d : DescriptorByte) → try_from (to_byte d) ≡ ok d
unfolding try_from
try_from-to_byte prf_key_byte = refl
try_from-to_byte ring_element_bit1_byte = refl
try_from-to_byte ring_element_bit0_byte = refl
try_from-to_byte ring_element_16_byte = refl
try_from-to_byte ring_element_32_byte = refl
try_from-to_byte ring_element_64_byte = refl
try_from-to_byte vec_ring_16_byte = refl
try_from-to_byte vec_ring_32_byte = refl
try_from-to_byte vec_ring_64_byte = refl
try_from-to_byte state_checksum_byte = refl
try_from-to_byte network_vec_byte = refl
try_from-to_byte prf_check_byte = refl
try_from-to_byte bytes_byte = refl
try_from-to_byte ring_element_48_byte = refl
try_from-to_byte vec_ring_48_byte = refl
try_from-to_byte vec_ring_bit_byte = refl

pub bit_cases : (b : ℕ) → b < 2 → (b ≡ 0) ⊎ (b ≡ 1)
bit_cases zero h = inl refl
bit_cases (suc zero) h = inr refl
bit_cases (suc (suc b)) h = absurd (omega arith)

pub serialize_internal_lem : (v : NetworkValue) → IsSingle v → serialize_internal v ≡ ok (frame v)
unfolding serialize_internal get_descriptor_byte serialize_body after_descriptor
serialize_internal_lem (prf_key key) h = refl
serialize_internal_lem (ring_element_bit b) h = elim (bit_cases b h) [
  | inl e ↦ rw e refl
  | inr e ↦ rw e refl
]
serialize_internal_lem (ring_element_16 x) h = refl
serialize_internal_lem (ring_element_32 x) h = refl
serialize_internal_lem (ring_element_64 x) h = refl
serialize_internal_lem (vec_ring_16 v) h = refl
serialize_internal_lem (vec_ring_32 v) h = refl
serialize_internal_lem (vec_ring_64 v) h = refl
serialize_internal_lem (ring_element_48 x) h = refl
serialize_internal_lem (vec_ring_48 v) h = refl
serialize_internal_lem (state_checksum irises graph) h = refl
serialize_internal_lem (network_vec vs) h = absurd h
serialize_internal_lem (prf_check x) h = refl
serialize_internal_lem (bytes v) h = refl
serialize_internal_lem (vec_ring_bit packed bit_count) h = refl
serialize_internal_lem (pre_framed framed) h = absurd h
