-- ===== src/Wire.antt =====
-- ampc-actor-utils/src/network/mpc/value.rs: the messages of the parties and their bytes. A buffer
-- is the list of its bytes, on a little-endian machine; `bail` is an error that is returned,
-- `panic` a panic. A vector inside a vector is a value of the type that cannot be serialized.
pub mod Decode
pub mod Valid
pub mod Frame
pub mod Single
pub mod RoundTrip
pub mod Length
pub mod Bits
mod Tests
use ampc_common.Base.{
  ℕ, zero, suc, ◌+◌, ◌-◌, ◌*◌, ◌/◌, ◌%◌, List, [], ◌∷◌, ◌++◌, length, ◌==◌, if◌then◌else◌, Bool,
  true, false,
}
use ampc_common.Base.Bytes.{Read, ok, bail, panic, ◌>>=◌, ◌>>◌, to_le_bytes, elems_to_bytes}

pub data DescriptorByte : Type 0 where
  prf_key_byte ring_element_bit1_byte ring_element_bit0_byte : DescriptorByte
  ring_element_16_byte ring_element_32_byte ring_element_64_byte : DescriptorByte
  vec_ring_16_byte vec_ring_32_byte vec_ring_64_byte : DescriptorByte
  state_checksum_byte network_vec_byte prf_check_byte bytes_byte : DescriptorByte
  ring_element_48_byte vec_ring_48_byte vec_ring_bit_byte : DescriptorByte

abbrev pub to_byte : DescriptorByte → ℕ
to_byte prf_key_byte = 0x01
to_byte ring_element_bit1_byte = 0x12
to_byte ring_element_bit0_byte = 0x02
to_byte ring_element_16_byte = 0x03
to_byte ring_element_32_byte = 0x04
to_byte ring_element_64_byte = 0x05
to_byte vec_ring_16_byte = 0x06
to_byte vec_ring_32_byte = 0x07
to_byte vec_ring_64_byte = 0x08
to_byte state_checksum_byte = 0x09
to_byte network_vec_byte = 0x0A
to_byte prf_check_byte = 0x0B
to_byte bytes_byte = 0x0C
to_byte ring_element_48_byte = 0x0D
to_byte vec_ring_48_byte = 0x0E
to_byte vec_ring_bit_byte = 0x0F

unfoldable pub base_len : DescriptorByte → ℕ
base_len prf_key_byte = 1 + 16
base_len ring_element_bit1_byte = 1
base_len ring_element_bit0_byte = 1
base_len ring_element_16_byte = 3
base_len ring_element_32_byte = 5
base_len ring_element_64_byte = 9
base_len ring_element_48_byte = 7
base_len vec_ring_16_byte = 5
base_len vec_ring_32_byte = 5
base_len vec_ring_64_byte = 5
base_len vec_ring_48_byte = 5
base_len state_checksum_byte = 1 + 8 + 8
base_len network_vec_byte = 5
base_len prf_check_byte = 1 + 16
base_len bytes_byte = 5
base_len vec_ring_bit_byte = 5

mutual
  pub data NetworkValue : Type 0 where
    prf_key : List ℕ → NetworkValue
    ring_element_bit : ℕ → NetworkValue
    ring_element_16 : ℕ → NetworkValue
    ring_element_32 : ℕ → NetworkValue
    ring_element_64 : ℕ → NetworkValue
    vec_ring_16 : List ℕ → NetworkValue
    vec_ring_32 : List ℕ → NetworkValue
    vec_ring_64 : List ℕ → NetworkValue
    ring_element_48 : ℕ → NetworkValue
    vec_ring_48 : List ℕ → NetworkValue
    state_checksum : ℕ → ℕ → NetworkValue
    network_vec : NetworkValues → NetworkValue
    prf_check : ℕ → NetworkValue
    bytes : List ℕ → NetworkValue
    vec_ring_bit : List ℕ → ℕ → NetworkValue
    pre_framed : List ℕ → NetworkValue

  pub data NetworkValues : Type 0 where
    no_values : NetworkValues
    value : NetworkValue → NetworkValues → NetworkValues

-- `get_descriptor_byte`; an empty message that is framed already is a panic.
unfoldable pub get_descriptor_byte : NetworkValue → Read ℕ
get_descriptor_byte (prf_key key) = ok (to_byte prf_key_byte)
get_descriptor_byte (ring_element_bit b) =
    ok (if b == 1 then to_byte ring_element_bit1_byte else to_byte ring_element_bit0_byte)
get_descriptor_byte (ring_element_16 x) = ok (to_byte ring_element_16_byte)
get_descriptor_byte (ring_element_32 x) = ok (to_byte ring_element_32_byte)
get_descriptor_byte (ring_element_64 x) = ok (to_byte ring_element_64_byte)
get_descriptor_byte (vec_ring_16 v) = ok (to_byte vec_ring_16_byte)
get_descriptor_byte (vec_ring_32 v) = ok (to_byte vec_ring_32_byte)
get_descriptor_byte (vec_ring_64 v) = ok (to_byte vec_ring_64_byte)
get_descriptor_byte (ring_element_48 x) = ok (to_byte ring_element_48_byte)
get_descriptor_byte (vec_ring_48 v) = ok (to_byte vec_ring_48_byte)
get_descriptor_byte (state_checksum irises graph) = ok (to_byte state_checksum_byte)
get_descriptor_byte (network_vec vs) = ok (to_byte network_vec_byte)
get_descriptor_byte (prf_check x) = ok (to_byte prf_check_byte)
get_descriptor_byte (bytes v) = ok (to_byte bytes_byte)
get_descriptor_byte (vec_ring_bit packed bit_count) = ok (to_byte vec_ring_bit_byte)
get_descriptor_byte (pre_framed []) = panic
get_descriptor_byte (pre_framed (b ∷ bs)) = ok b

-- The length is written in four bytes, and wraps.
unfoldable pub serialize_vec_ring : ℕ → List ℕ → List ℕ
serialize_vec_ring wire_bytes v =
    to_le_bytes 4 (length v * wire_bytes) ++ elems_to_bytes wire_bytes v

-- What `serialize_internal` writes after the descriptor byte.
unfoldable pub serialize_body : NetworkValue → Read (List ℕ)
serialize_body (prf_key key) = ok key
serialize_body (ring_element_bit b) = ok []
serialize_body (ring_element_16 x) = ok (to_le_bytes 2 x)
serialize_body (ring_element_32 x) = ok (to_le_bytes 4 x)
serialize_body (ring_element_64 x) = ok (to_le_bytes 8 x)
serialize_body (vec_ring_16 v) = ok (serialize_vec_ring 2 v)
serialize_body (vec_ring_32 v) = ok (serialize_vec_ring 4 v)
serialize_body (vec_ring_64 v) = ok (serialize_vec_ring 8 v)
serialize_body (ring_element_48 x) = ok (to_le_bytes 6 x)
serialize_body (vec_ring_48 v) = ok (serialize_vec_ring 6 v)
serialize_body (state_checksum irises graph) = ok (to_le_bytes 8 irises ++ to_le_bytes 8 graph)
serialize_body (network_vec vs) = panic
serialize_body (prf_check x) = ok (to_le_bytes 16 x)
serialize_body (bytes v) = ok (to_le_bytes 4 (length v) ++ v)
serialize_body (vec_ring_bit packed bit_count) = ok (to_le_bytes 4 bit_count ++ packed)
serialize_body (pre_framed framed) = ok framed

-- A framed message replaces the descriptor byte by its own bytes.
unfoldable pub after_descriptor : NetworkValue → ℕ → List ℕ → List ℕ
after_descriptor (pre_framed framed) descriptor body = body
after_descriptor v descriptor body = descriptor ∷ body

unfoldable pub serialize_internal : NetworkValue → Read (List ℕ)
serialize_internal v = do
  descriptor ← get_descriptor_byte v
  body ← serialize_body v
  ok (after_descriptor v descriptor body)

unfoldable pub serialize_values : NetworkValues → Read (List ℕ)
serialize_values no_values = ok []
serialize_values (value v vs) = do
  first ← serialize_internal v
  rest ← serialize_values vs
  ok (first ++ rest)

unfoldable pub serialize_vec : NetworkValues → Read (List ℕ)
serialize_vec vs = do
  body ← serialize_values vs
  ok (to_byte network_vec_byte ∷ to_le_bytes 4 (length body) ++ body)

-- `serialize`, and `to_network`.
unfoldable pub serialize : NetworkValue → Read (List ℕ)
serialize (network_vec vs) = serialize_vec vs
serialize (pre_framed framed) = ok framed
serialize v = serialize_internal v
