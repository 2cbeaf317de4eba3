-- ===== src/Wire/Valid.antt =====
-- The messages that a party can send and read, and their lengths.
use ampc_common.Base.{ℕ, ◌+◌, ◌*◌, ◌/◌, ◌^◌, ◌<◌, ◌≡◌, length}
use ampc_common.Base.Bytes.{FitBytes}
use ampc_common.Wire.{
  NetworkValue, prf_key, ring_element_bit, ring_element_16, ring_element_32, ring_element_64,
  vec_ring_16, vec_ring_32, vec_ring_64, ring_element_48, vec_ring_48, state_checksum, network_vec,
  prf_check, bytes, vec_ring_bit, pre_framed, NetworkValues, no_values, value, base_len,
  prf_key_byte, ring_element_bit0_byte, ring_element_16_byte, ring_element_32_byte,
  ring_element_64_byte, vec_ring_16_byte, vec_ring_32_byte, vec_ring_64_byte, state_checksum_byte,
  network_vec_byte, prf_check_byte, bytes_byte, ring_element_48_byte, vec_ring_48_byte,
  vec_ring_bit_byte,
}

-- `byte_len`, where the base length of a bit is one for both of its descriptors.
unfoldable mutual
  pub byte_len : NetworkValue → ℕ
  byte_len (prf_key key) = base_len prf_key_byte
  byte_len (ring_element_bit b) = base_len ring_element_bit0_byte
  byte_len (ring_element_16 x) = base_len ring_element_16_byte
  byte_len (ring_element_32 x) = base_len ring_element_32_byte
  byte_len (ring_element_64 x) = base_len ring_element_64_byte
  byte_len (vec_ring_16 v) = base_len vec_ring_16_byte + 2 * length v
  byte_len (vec_ring_32 v) = base_len vec_ring_32_byte + 4 * length v
  byte_len (vec_ring_64 v) = base_len vec_ring_64_byte + 8 * length v
  byte_len (ring_element_48 x) = base_len ring_element_48_byte
  byte_len (vec_ring_48 v) = base_len vec_ring_48_byte + 6 * length v
  byte_len (state_checksum irises graph) = base_len state_checksum_byte
  byte_len (network_vec vs) = base_len network_vec_byte + byte_len_all vs
  byte_len (prf_check x) = base_len prf_check_byte
  byte_len (bytes v) = base_len bytes_byte + length v
  byte_len (vec_ring_bit packed bit_count) = base_len vec_ring_bit_byte + length packed
  byte_len (pre_framed framed) = length framed

  pub byte_len_all : NetworkValues → ℕ
  byte_len_all no_values = 0
  byte_len_all (value v vs) = byte_len v + byte_len_all vs

-- A value that is no vector of values, whose numbers fit their types and whose lengths fit the four
-- bytes of a length. A message that is framed already is read as the value that it frames.
abbrev pub IsSingle : NetworkValue → Type 0
IsSingle (prf_key key) = length key ≡ 16
IsSingle (ring_element_bit b) = b < 2
IsSingle (ring_element_16 x) = x < 256 ^ 2
IsSingle (ring_element_32 x) = x < 256 ^ 4
IsSingle (ring_element_64 x) = x < 256 ^ 8
IsSingle (vec_ring_16 v) = (length v * 2 < 256 ^ 4) × FitBytes 2 v
IsSingle (vec_ring_32 v) = (length v * 4 < 256 ^ 4) × FitBytes 4 v
IsSingle (vec_ring_64 v) = (length v * 8 < 256 ^ 4) × FitBytes 8 v
IsSingle (ring_element_48 x) = x < 256 ^ 6
IsSingle (vec_ring_48 v) = (length v * 6 < 256 ^ 4) × FitBytes 6 v
IsSingle (state_checksum irises graph) = (irises < 256 ^ 8) × (graph < 256 ^ 8)
IsSingle (network_vec vs) = ⊥
IsSingle (prf_check x) = x < 256 ^ 16
IsSingle (bytes v) = length v < 256 ^ 4
IsSingle (vec_ring_bit packed bit_count) =
    (bit_count < 256 ^ 4) × (length packed ≡ (bit_count + 7) / 8)
IsSingle (pre_framed framed) = ⊥

-- The kinds of values that a vector of values may hold.
abbrev pub IsElement : NetworkValue → Type 0
IsElement (prf_key key) = ⊥
IsElement (state_checksum irises graph) = ⊥
IsElement (network_vec vs) = ⊥
IsElement (prf_check x) = ⊥
IsElement (pre_framed framed) = ⊥
IsElement _ = Unit {0}

abbrev pub AreElements : NetworkValues → Type 0
AreElements no_values = Unit {0}
AreElements (value v vs) = IsElement v × IsSingle v × AreElements vs

-- A single value, or a vector of values whose bytes can be counted in four bytes.
abbrev pub IsValid : NetworkValue → Type 0
IsValid (network_vec vs) = AreElements vs × (byte_len_all vs < 256 ^ 4)
IsValid v = IsSingle v
