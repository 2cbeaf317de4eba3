-- ===== src/Wire/Single.antt =====
-- One value is read back from its bytes, alone or in front of more bytes.
use ampc_common.Base.{
  ℕ, suc, ◌+◌, ◌-◌, ◌*◌, ◌/◌, ◌%◌, ◌^◌, ◌<◌, ◌≡◌, refl, inl, inr, ap, arith, List, ◌∷◌, ◌++◌,
  length, ◌==◌, leb, true, length-append, append_assoc,
}
use native.Mathlib.Nat.{mul-mod_left, mul-div_left}
use ampc_common.Base.Bytes.{
  ok, take, drop, to_le_bytes, from_le_bytes, elems_to_bytes, FitBytes, take-append, drop-append,
  take_all, length-to_le_bytes, from_le_bytes-to_le_bytes, length-elems_to_bytes,
  elems_from_bytes-elems_to_bytes,
}
use ampc_common.Wire.{
  base_len, NetworkValue, prf_key, ring_element_bit, ring_element_16, ring_element_32,
  ring_element_64, vec_ring_16, vec_ring_32, vec_ring_64, ring_element_48, vec_ring_48,
  state_checksum, network_vec, prf_check, bytes, vec_ring_bit, pre_framed, serialize_vec_ring,
}
use ampc_common.Wire.Decode.{
  deserialize_vec_ring, parse, value_len_of, bytes_of_len, bits_of_count, div_ceil_8,
}
use ampc_common.Wire.Valid.{byte_len, IsSingle, IsElement}
use ampc_common.Wire.Frame.{desc_of, frame, bit_cases}

-- A length in four bytes in front of a body.
module _ (n : ℕ) (body : List ℕ) (fits : n < 256 ^ 4) where
  abbrev pub prefixed : List ℕ
  prefixed = to_le_bytes 4 n ++ body

  pub prefixed_len : from_le_bytes (take 4 prefixed) ≡ n
  prefixed_len =
      rw (take-append 4 (to_le_bytes 4 n) body (length-to_le_bytes 4 n))
        (from_le_bytes-to_le_bytes 4 n fits)

  pub prefixed_body : drop 4 prefixed ≡ body
  prefixed_body = drop-append 4 (to_le_bytes 4 n) body (length-to_le_bytes 4 n)

  length-prefixed : length prefixed ≡ 4 + length body
  length-prefixed = omega (arith, length-append (to_le_bytes 4 n) body, length-to_le_bytes 4 n)

  pub prefixed_enough : leb 5 (suc (length prefixed)) ≡ true
  prefixed_enough = ground (arith, length-prefixed)

  pub prefixed_exact : {m : ℕ} → length body ≡ m → (suc (length prefixed) == 5 + m) ≡ true
  prefixed_exact h = ground (arith, length-prefixed)

vec_ring_lem :
    (w d : ℕ) (v : List ℕ)
    → 0 < w
    → length v * w < 256 ^ 4
    → FitBytes w v
    → deserialize_vec_ring w (d ∷ serialize_vec_ring w v) ≡ ok v
unfolding deserialize_vec_ring serialize_vec_ring drop
vec_ring_lem w d v pos fits each =
    let body : List ℕ = elems_to_bytes w v in
    let n : ℕ = length v * w in
    let enough = prefixed_enough n body fits in
    let exact = prefixed_exact n body fits (length-elems_to_bytes w v) in
    let whole : (n % w == 0) ≡ true = ground (arith, mul-mod_left (length v) w) in
    let count : n / w ≡ length v = mul-div_left (length v) pos in
    rw (enough, prefixed_len n body fits, exact, whole, count, prefixed_body n body fits)
      (ap ok (elems_from_bytes-elems_to_bytes w v each))

vec_ring_len :
    (w : ℕ) (v : List ℕ)
    → length v * w < 256 ^ 4
    → suc (length (serialize_vec_ring w v)) ≡ 5 + w * length v
unfolding serialize_vec_ring
vec_ring_len w v fits =
    omega
      (arith, length-prefixed (length v * w) (elems_to_bytes w v) fits, length-elems_to_bytes w v)

-- The length that stands in front of a body, with more bytes behind it.
module _ (n : ℕ) (body rest : List ℕ) (fits : n < 256 ^ 4) where
  assoc : (to_le_bytes 4 n ++ body) ++ rest ≡ to_le_bytes 4 n ++ (body ++ rest)
  assoc = append_assoc (to_le_bytes 4 n) body rest

  inner_enough : leb 5 (suc (length ((to_le_bytes 4 n ++ body) ++ rest))) ≡ true
  inner_enough = rw assoc (prefixed_enough n (body ++ rest) fits)

  inner_len : from_le_bytes (take 4 ((to_le_bytes 4 n ++ body) ++ rest)) ≡ n
  inner_len = rw assoc (prefixed_len n (body ++ rest) fits)

vec_enough :
    (w : ℕ) (v rest : List ℕ)
    → length v * w < 256 ^ 4
    → leb 5 (suc (length (serialize_vec_ring w v ++ rest))) ≡ true
unfolding serialize_vec_ring
vec_enough w v rest fits = inner_enough (length v * w) (elems_to_bytes w v) rest fits

vec_len :
    (w : ℕ) (v rest : List ℕ)
    → length v * w < 256 ^ 4
    → from_le_bytes (take 4 (serialize_vec_ring w v ++ rest)) ≡ length v * w
unfolding serialize_vec_ring
vec_len w v rest fits = inner_len (length v * w) (elems_to_bytes w v) rest fits

num_lem : (w d x : ℕ) → x < 256 ^ w → from_le_bytes (take w (drop 1 (d ∷ to_le_bytes w x))) ≡ x
unfolding drop
num_lem w d x h =
    rw (take_all w (to_le_bytes w x) (length-to_le_bytes w x)) (from_le_bytes-to_le_bytes w x h)

pub parse-frame : (v : NetworkValue) → IsSingle v → parse (desc_of v) (frame v) ≡ ok v
unfolding parse bytes_of_len bits_of_count div_ceil_8 drop
parse-frame (prf_key key) h = rw (h, take_all 16 key h) refl
parse-frame (ring_element_bit b) h = elim (bit_cases b h) [ inl e ↦ rw e refl | inr e ↦ rw e refl ]
parse-frame (ring_element_16 x) h = rw (length-to_le_bytes 2 x, num_lem 2 0x03 x h) refl
parse-frame (ring_element_32 x) h = rw (length-to_le_bytes 4 x, num_lem 4 0x04 x h) refl
parse-frame (ring_element_64 x) h = rw (length-to_le_bytes 8 x, num_lem 8 0x05 x h) refl
parse-frame (vec_ring_16 v) h = rw (vec_ring_lem 2 0x06 v (omega arith) h.0 h.1) refl
parse-frame (vec_ring_32 v) h = rw (vec_ring_lem 4 0x07 v (omega arith) h.0 h.1) refl
parse-frame (vec_ring_64 v) h = rw (vec_ring_lem 8 0x08 v (omega arith) h.0 h.1) refl
parse-frame (ring_element_48 x) h = rw (length-to_le_bytes 6 x, num_lem 6 0x0D x h) refl
parse-frame (vec_ring_48 v) h = rw (vec_ring_lem 6 0x0E v (omega arith) h.0 h.1) refl
parse-frame (state_checksum irises graph) h =
    let long : (suc (length (to_le_bytes 8 irises ++ to_le_bytes 8 graph)) == 17) ≡ true = ground (
      arith,
      length-append (to_le_bytes 8 irises) (to_le_bytes 8 graph),
      length-to_le_bytes 8 irises,
      length-to_le_bytes 8 graph,
    ) in
    rw
      (
        long,
        take-append 8 (to_le_bytes 8 irises) (to_le_bytes 8 graph) (length-to_le_bytes 8 irises),
        drop-append 8 (to_le_bytes 8 irises) (to_le_bytes 8 graph) (length-to_le_bytes 8 irises),
        take_all 8 (to_le_bytes 8 graph) (length-to_le_bytes 8 graph),
        from_le_bytes-to_le_bytes 8 irises h.0,
        from_le_bytes-to_le_bytes 8 graph h.1,
      )
      refl
parse-frame (network_vec vs) h = absurd h
parse-frame (prf_check x) h = rw (length-to_le_bytes 16 x, num_lem 16 0x0B x h) refl
parse-frame (bytes v) h =
    let n : ℕ = length v in
    rw
      (
        prefixed_enough n v h,
        prefixed_len n v h,
        prefixed_exact n v h refl,
        prefixed_body n v h,
        take_all (5 + n - 5) v (omega arith),
      )
      refl
parse-frame (vec_ring_bit packed bit_count) h =
    rw
      (
        prefixed_enough bit_count packed h.0,
        prefixed_len bit_count packed h.0,
        prefixed_exact bit_count packed h.0 h.1,
        prefixed_body bit_count packed h.0,
        take_all (5 + (bit_count + 7) / 8 - 5) packed (omega (arith, h.1)),
      )
      refl
parse-frame (pre_framed framed) h = absurd h

pub length-frame : (v : NetworkValue) → IsSingle v → length (frame v) ≡ byte_len v
unfolding byte_len base_len serialize_vec_ring
length-frame (prf_key key) h = ap suc h
length-frame (ring_element_bit b) h = refl
length-frame (ring_element_16 x) h = ap suc (length-to_le_bytes 2 x)
length-frame (ring_element_32 x) h = ap suc (length-to_le_bytes 4 x)
length-frame (ring_element_64 x) h = ap suc (length-to_le_bytes 8 x)
length-frame (vec_ring_16 v) h = vec_ring_len 2 v h.0
length-frame (vec_ring_32 v) h = vec_ring_len 4 v h.0
length-frame (vec_ring_64 v) h = vec_ring_len 8 v h.0
length-frame (ring_element_48 x) h = ap suc (length-to_le_bytes 6 x)
length-frame (vec_ring_48 v) h = vec_ring_len 6 v h.0
length-frame (state_checksum irises graph) h = omega (
  arith,
  length-append (to_le_bytes 8 irises) (to_le_bytes 8 graph),
  length-to_le_bytes 8 irises,
  length-to_le_bytes 8 graph,
)
length-frame (network_vec vs) h = absurd h
length-frame (prf_check x) h = ap suc (length-to_le_bytes 16 x)
length-frame (bytes v) h = omega (arith, length-prefixed (length v) v h)
length-frame (vec_ring_bit packed bit_count) h = omega (arith, length-prefixed bit_count packed h.0)
length-frame (pre_framed framed) h = absurd h

pub value_len_of-frame :
    (v : NetworkValue) (rest : List ℕ)
    → IsElement v
    → IsSingle v
    → value_len_of (desc_of v) (frame v ++ rest) ≡ ok (byte_len v)
unfolding byte_len base_len serialize_vec_ring value_len_of drop div_ceil_8
value_len_of-frame (prf_key key) rest e h = absurd e
value_len_of-frame (ring_element_bit b) rest e h = elim (bit_cases b h) [
  | inl q ↦ rw q refl
  | inr q ↦ rw q refl
]
value_len_of-frame (ring_element_16 x) rest e h = refl
value_len_of-frame (ring_element_32 x) rest e h = refl
value_len_of-frame (ring_element_64 x) rest e h = refl
value_len_of-frame (vec_ring_16 v) rest e h =
    rw (vec_enough 2 v rest h.0, vec_len 2 v rest h.0) (ap ok (omega arith))
value_len_of-frame (vec_ring_32 v) rest e h =
    rw (vec_enough 4 v rest h.0, vec_len 4 v rest h.0) (ap ok (omega arith))
value_len_of-frame (vec_ring_64 v) rest e h =
    rw (vec_enough 8 v rest h.0, vec_len 8 v rest h.0) (ap ok (omega arith))
value_len_of-frame (ring_element_48 x) rest e h = refl
value_len_of-frame (vec_ring_48 v) rest e h =
    rw (vec_enough 6 v rest h.0, vec_len 6 v rest h.0) (ap ok (omega arith))
value_len_of-frame (state_checksum irises graph) rest e h = absurd e
value_len_of-frame (network_vec vs) rest e h = absurd e
value_len_of-frame (prf_check x) rest e h = absurd e
value_len_of-frame (bytes v) rest e h =
    rw (inner_enough (length v) v rest h, inner_len (length v) v rest h) refl
value_len_of-frame (vec_ring_bit packed bit_count) rest e h =
    rw (inner_enough bit_count packed rest h.0, inner_len bit_count packed rest h.0, h.1) refl
value_len_of-frame (pre_framed framed) rest e h = absurd e
