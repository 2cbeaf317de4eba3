-- ===== src/Shamir.antt =====
-- ampc-secret-sharing/src/galois.rs: Shamir sharing over the Galois ring. The random elements that
-- the encoders draw are arguments, in the order in which they are drawn; `none` is a panic.
pub mod Poly
pub mod Lagrange
pub mod Interpolation
pub mod Encode
pub mod Product
mod Tests
use ampc_common.Base.{
  ℕ, zero, suc, ◌+◌, ◌-◌, ◌==◌, ltb, ◌&&◌, if◌then◌else◌, List, [], ◌∷◌, Option, none, some,
  get_elem?, length,
}
use ampc_common.Base.Options.{◌>>=◌, ◌>>◌, assert}
use ampc_common.Galois
use ampc_common.Galois.{GaloisRingElement, from_coefs, exceptional_sequence, ◌⊕◌}

pub record ShamirGaloisRingShare : Type 0 where
  pub id : ℕ
  pub y : GaloisRingElement

-- The operators assert that both shares are those of one party.
same_id :
    (GaloisRingElement → GaloisRingElement → GaloisRingElement)
    → ShamirGaloisRingShare
    → ShamirGaloisRingShare
    → Option ShamirGaloisRingShare
same_id f s t = if s.id == t.id then some (record { id = s.id; y = f s.y t.y }) else none

unfoldable pub add : ShamirGaloisRingShare → ShamirGaloisRingShare → Option ShamirGaloisRingShare
unfolding same_id
add = same_id Galois.add

unfoldable pub mul : ShamirGaloisRingShare → ShamirGaloisRingShare → Option ShamirGaloisRingShare
unfolding same_id
mul = same_id Galois.mul

unfoldable pub sub : ShamirGaloisRingShare → ShamirGaloisRingShare → Option ShamirGaloisRingShare
unfolding same_id
sub = same_id Galois.sub

-- The closure of `encode_3` at one index.
encode_3_at : GaloisRingElement → GaloisRingElement → ℕ → Option ShamirGaloisRingShare
encode_3_at input r i = do
  element ← get_elem? exceptional_sequence i
  some (record { id = i; y = Galois.add input (Galois.mul r element) })

unfoldable pub encode_3 :
    GaloisRingElement → GaloisRingElement → Option (List ShamirGaloisRingShare)
unfolding encode_3_at
encode_3 input r = do
  s1 ← encode_3_at input r 1
  s2 ← encode_3_at input r 2
  s3 ← encode_3_at input r 3
  some (s1 ∷ s2 ∷ s3 ∷ [])

-- The closure of `encode_5` at one index.
encode_5_at :
    GaloisRingElement → GaloisRingElement → GaloisRingElement → ℕ → Option ShamirGaloisRingShare
encode_5_at input r t index = do
  z ← get_elem? exceptional_sequence (index + 1)
  some (record {
    id = index + 1;
    y = Galois.add input (Galois.mul (Galois.add r (Galois.mul t z)) z);
  })

unfoldable pub encode_5 :
    GaloisRingElement → GaloisRingElement → GaloisRingElement → Option (List ShamirGaloisRingShare)
unfolding encode_5_at
encode_5 input r t = do
  s1 ← encode_5_at input r t 0
  s2 ← encode_5_at input r t 1
  s3 ← encode_5_at input r t 2
  s4 ← encode_5_at input r t 3
  s5 ← encode_5_at input r t 4
  some (s1 ∷ s2 ∷ s3 ∷ s4 ∷ s5 ∷ [])

-- The closure `mul_x` of `encode_5_mat`.
unfoldable pub mul_x : GaloisRingElement → GaloisRingElement
mul_x a = from_coefs a.c3 (a.c0 ⊕ a.c3) a.c1 a.c2

unfoldable pub encode_5_mat :
    GaloisRingElement → GaloisRingElement → GaloisRingElement → List ShamirGaloisRingShare
unfolding mul_x
encode_5_mat s r t =
    let q = Galois.add r t in
    let tx = mul_x t in
    let txx = mul_x tx in
    let y1 = Galois.add s q in
    let y2 = Galois.add s (mul_x (Galois.add r tx)) in
    let y4 = Galois.add s (mul_x (mul_x (Galois.add r txx))) in
    let dx = Galois.add tx tx in
    let dxx = mul_x dx in
    let y3 = Galois.add (Galois.add y2 q) dx in
    let y5 = Galois.add (Galois.add y4 q) dxx in
    record { id = 1; y = y1 }
    ∷ record { id = 2; y = y2 }
    ∷ record { id = 3; y = y3 }
    ∷ record { id = 4; y = y4 }
    ∷ record { id = 5; y = y5 }
    ∷ []

-- The eight numbers of `invec` are the coefficients of the input and those of `r`.
unfoldable pub encode_3_mat : GaloisRingElement → GaloisRingElement → List ShamirGaloisRingShare
encode_3_mat input r =
    let share1 =
      from_coefs (input.c0 ⊕ r.c0) (input.c1 ⊕ r.c1) (input.c2 ⊕ r.c2) (input.c3 ⊕ r.c3) in
    let share2 =
      from_coefs (input.c0 ⊕ r.c3) (input.c1 ⊕ r.c0 ⊕ r.c3) (input.c2 ⊕ r.c1) (input.c3 ⊕ r.c2) in
    let share3 =
      from_coefs (share2.c0 ⊕ r.c0) (share2.c1 ⊕ r.c1) (share2.c2 ⊕ r.c2) (share2.c3 ⊕ r.c3) in
    record { id = 1; y = share1 }
    ∷ record { id = 2; y = share2 }
    ∷ record { id = 3; y = share3 }
    ∷ []

-- The factor for the pair of points `i` and `j`, `-j / (i - j)`, onto `res`.
lagrange_factor : ℕ → ℕ → GaloisRingElement → Option GaloisRingElement
lagrange_factor i j res = do
  ei ← get_elem? exceptional_sequence i
  ej ← get_elem? exceptional_sequence j
  inv ← Galois.inverse (Galois.sub ei ej)
  some (Galois.mul (Galois.mul res (Galois.neg ej)) inv)

-- `deg_1_lagrange_polys_at_zero`, with the party identifiers as numbers.
unfoldable pub deg_1_lagrange_polys_at_zero : ℕ → ℕ → Option GaloisRingElement
unfolding lagrange_factor
deg_1_lagrange_polys_at_zero my_id other_id = lagrange_factor (my_id + 1) (other_id + 1) Galois.one

unfoldable pub deg_1_lagrange_poly_at_v : ℕ → ℕ → ℕ → Option GaloisRingElement
deg_1_lagrange_poly_at_v my_id other_id v = do
  assert (ltb my_id 15)
  assert (ltb other_id 15)
  assert (ltb v 15)
  ei ← get_elem? exceptional_sequence (my_id + 1)
  ej ← get_elem? exceptional_sequence (other_id + 1)
  ev ← get_elem? exceptional_sequence (v + 1)
  inv ← Galois.inverse (Galois.sub ei ej)
  some (Galois.mul (Galois.sub ev ej) inv)

-- The inner loop of `deg_k_lagrange_polys_at_zero` for the entry `i - 1`, at `j`.
lagrange_loop : ℕ → ℕ → ℕ → GaloisRingElement → Option GaloisRingElement
lagrange_loop zero i j res = some res
lagrange_loop (suc left) i j res = do
  res' ← if j == i then some res else lagrange_factor i j res
  lagrange_loop left i (j + 1) res'

-- The outer loop, from `i` on, over `n` points.
lagrange_rows : ℕ → ℕ → ℕ → Option (List GaloisRingElement)
unfolding lagrange_loop
lagrange_rows n zero i = some []
lagrange_rows n (suc left) i = do
  row ← lagrange_loop n i 1 Galois.one
  rows ← lagrange_rows n left (i + 1)
  some (row ∷ rows)

unfoldable pub deg_k_lagrange_polys_at_zero : ℕ → Option (List GaloisRingElement)
unfolding lagrange_rows lagrange_factor lagrange_loop
deg_k_lagrange_polys_at_zero n = do
  assert (ltb 0 n && ltb n (length exceptional_sequence))
  lagrange_rows n n 1

unfoldable pub deg_2_lagrange_polys_at_zero : Option (List GaloisRingElement)
deg_2_lagrange_polys_at_zero = deg_k_lagrange_polys_at_zero 3

unfoldable pub deg_4_lagrange_polys_at_zero : Option (List GaloisRingElement)
deg_4_lagrange_polys_at_zero = deg_k_lagrange_polys_at_zero 5

-- `s.y * lagrange_polys_at_zero[s.id - 1]`, where the identifier 0 is an index out of range.
weigh : List GaloisRingElement → ℕ → GaloisRingElement → Option GaloisRingElement
weigh polys zero y = none
weigh polys (suc index) y = do poly ← get_elem? polys index; some (Galois.mul y poly)

-- `map` and `reduce` over the shares from the second on, onto the sum so far.
weighted_sum :
    List GaloisRingElement
    → GaloisRingElement
    → List ShamirGaloisRingShare
    → Option GaloisRingElement
weighted_sum polys sum [] = some sum
weighted_sum polys sum (s ∷ ss) = do
  w ← weigh polys s.id s.y
  weighted_sum polys (Galois.add sum w) ss

-- The `unwrap` panics on no shares.
reconstruct : List GaloisRingElement → List ShamirGaloisRingShare → Option GaloisRingElement
unfolding weigh weighted_sum
reconstruct polys [] = none
reconstruct polys (s ∷ ss) = do w ← weigh polys s.id s.y; weighted_sum polys w ss

unfoldable pub reconstruct_deg_2_shares : List ShamirGaloisRingShare → Option GaloisRingElement
unfolding reconstruct
reconstruct_deg_2_shares shares = do polys ← deg_2_lagrange_polys_at_zero; reconstruct polys shares

unfoldable pub reconstruct_deg_4_shares : List ShamirGaloisRingShare → Option GaloisRingElement
unfolding reconstruct
reconstruct_deg_4_shares shares = do polys ← deg_4_lagrange_polys_at_zero; reconstruct polys shares
