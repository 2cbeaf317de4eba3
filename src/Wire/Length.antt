-- ===== src/Wire/Length.antt =====
-- The lengths of serialized values, and that the reader of a vector stops.
use ampc_common.Base.{
  ℕ, zero, suc, ◌+◌, ◌<◌, ◌≤◌, ◌≡◌, refl, ap, subst, arith, List, [], ◌∷◌, length, leb, Bool, true,
  false, length-append,
}
use ampc_common.Base.Bytes.{
  Read, ok, length-drop, bail, panic, ◌>>=◌, ◌>>◌, in_range, take, drop, to_le_bytes,
  length-to_le_bytes, ensure,
}
use ampc_common.Wire.{
  DescriptorByte, base_len, prf_key_byte, ring_element_bit1_byte, ring_element_bit0_byte,
  ring_element_16_byte, ring_element_32_byte, ring_element_64_byte, vec_ring_16_byte,
  vec_ring_32_byte, vec_ring_64_byte, state_checksum_byte, network_vec_byte, prf_check_byte,
  bytes_byte, ring_element_48_byte, vec_ring_48_byte, vec_ring_bit_byte, NetworkValue, prf_key,
  ring_element_bit, ring_element_16, ring_element_32, ring_element_64, vec_ring_16, vec_ring_32,
  vec_ring_64, ring_element_48, vec_ring_48, state_checksum, network_vec, prf_check, bytes,
  vec_ring_bit, pre_framed, NetworkValues, value, serialize,
}
use ampc_common.Wire.Decode.{try_from, deserialize_internal, value_len_of, parse_values}
use ampc_common.Wire.Valid.{byte_len, IsValid}
use ampc_common.Wire.Single.{length-frame}
use ampc_common.Wire.RoundTrip.{encoding, frames, length-frames, serialize_lem}

length-encoding : (v : NetworkValue) → IsValid v → length (encoding v) ≡ byte_len v
unfolding byte_len base_len
length-encoding (network_vec vs) h = omega (
  arith,
  length-append (to_le_bytes 4 (length (frames vs))) (frames vs),
  length-to_le_bytes 4 (length (frames vs)),
  length-frames vs h.0,
)
length-encoding (prf_key key) h = length-frame (prf_key key) h
length-encoding (ring_element_bit b) h = length-frame (ring_element_bit b) h
length-encoding (ring_element_16 x) h = length-frame (ring_element_16 x) h
length-encoding (ring_element_32 x) h = length-frame (ring_element_32 x) h
length-encoding (ring_element_64 x) h = length-frame (ring_element_64 x) h
length-encoding (vec_ring_16 v) h = length-frame (vec_ring_16 v) h
length-encoding (vec_ring_32 v) h = length-frame (vec_ring_32 v) h
length-encoding (vec_ring_64 v) h = length-frame (vec_ring_64 v) h
length-encoding (ring_element_48 x) h = length-frame (ring_element_48 x) h
length-encoding (vec_ring_48 v) h = length-frame (vec_ring_48 v) h
length-encoding (state_checksum i g) h = length-frame (state_checksum i g) h
length-encoding (prf_check x) h = length-frame (prf_check x) h
length-encoding (bytes v) h = length-frame (bytes v) h
length-encoding (vec_ring_bit packed n) h = length-frame (vec_ring_bit packed n) h
length-encoding (pre_framed framed) h = absurd h

-- The bytes of a valid value are as many as `byte_len` says.
pub length-serialize :
    (v : NetworkValue) → IsValid v → (serialize v >>= λ bs. ok (length bs)) ≡ ok (byte_len v)
length-serialize v h = rw (serialize_lem v h) (ap ok (length-encoding v h))

-- Every length that the loop of `deserialize_vec` reads is positive.
abbrev IsPosRead : Read ℕ → Type 0
IsPosRead (ok len) = 0 < len
IsPosRead bail = Unit {0}
IsPosRead panic = Unit {0}

ensure_pos : (b : Bool) (n : ℕ) → IsPosRead (ensure b >>= λ _. ok (5 + n))
ensure_pos true n = omega arith
ensure_pos false n = tt

value_len_pos : (d : DescriptorByte) (rest : List ℕ) → IsPosRead (value_len_of d rest)
unfolding value_len_of
value_len_pos prf_key_byte rest = tt
value_len_pos ring_element_bit1_byte rest = omega arith
value_len_pos ring_element_bit0_byte rest = omega arith
value_len_pos ring_element_16_byte rest = omega arith
value_len_pos ring_element_32_byte rest = omega arith
value_len_pos ring_element_64_byte rest = omega arith
value_len_pos ring_element_48_byte rest = omega arith
value_len_pos vec_ring_16_byte rest = ensure_pos _ _
value_len_pos vec_ring_32_byte rest = ensure_pos _ _
value_len_pos vec_ring_64_byte rest = ensure_pos _ _
value_len_pos vec_ring_48_byte rest = ensure_pos _ _
value_len_pos bytes_byte rest = ensure_pos _ _
value_len_pos vec_ring_bit_byte rest = ensure_pos _ _
value_len_pos state_checksum_byte rest = tt
value_len_pos network_vec_byte rest = tt
value_len_pos prf_check_byte rest = tt

bind_cong {ℓ κ} :
    {A : Type ℓ} {B : Type κ} (m : Read A) (f g : A → Read B)
    → ((a : A) → m ≡ ok a → f a ≡ g a)
    → (m >>= f) ≡ (m >>= g)
bind_cong (ok a) f g h = h a refl
bind_cong bail f g h = refl
bind_cong panic f g h = refl

-- One value of a vector, and then what the rest of the buffer gives.
abbrev after_len : List ℕ → ℕ → Read NetworkValues → Read NetworkValues
after_len bs len rest = do
  in_range (leb len (length bs))
  v ← deserialize_internal (take len bs)
  vs ← rest
  ok (value v vs)

-- The loop that reads a vector of values ends on every buffer before a fuel of at least the number
-- of bytes runs out: the result depends neither on the fuel nor on what a run without fuel gives.
pub parse_values_enough :
    (n m : ℕ) (out out' : Read NetworkValues) (bs : List ℕ)
    → length bs ≤ n
    → length bs ≤ m
    → parse_values out n bs ≡ parse_values out' m bs
unfolding parse_values
parse_values_enough n m out out' [] hn hm = refl
parse_values_enough zero m out out' (b ∷ bs) hn hm = absurd (omega arith)
parse_values_enough (suc n) zero out out' (b ∷ bs) hn hm = absurd (omega arith)
parse_values_enough (suc n) (suc m) out out' (b ∷ bs) hn hm =
    let all : List ℕ = b ∷ bs in
    bind_cong (try_from b)
      (λ d. value_len_of d all >>= λ len. after_len all len (parse_values out n (drop len all)))
      (λ d. value_len_of d all >>= λ len. after_len all len (parse_values out' m (drop len all)))
      λ d _.
        bind_cong (value_len_of d all)
          (λ len. after_len all len (parse_values out n (drop len all)))
          (λ len. after_len all len (parse_values out' m (drop len all)))
          λ len e.
            let pos : 0 < len = subst IsPosRead e (value_len_pos d all) in
            let left = length-drop len all in
            ap (after_len all len) (
              parse_values_enough n m out out' (drop len all) (omega (arith, left))
                (omega (arith, left)))
