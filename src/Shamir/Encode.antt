-- ===== src/Shamir/Encode.antt =====
-- The matrix forms of the encoders compute the same shares as the polynomial forms.
use ampc_common.Base.{ℕ, ◌≡◌, refl, ap, ap₂, arith, ◌∷◌, some}
use ampc_common.Galois
use ampc_common.Galois.{GaloisRingElement, from_coefs, ◌⊕◌}
use ampc_common.Galois.Laws.{u16_mod, element_ext}
use ampc_common.Shamir.{ShamirGaloisRingShare, encode_3, encode_3_mat, encode_5, encode_5_mat}

abbrev pub share : ℕ → GaloisRingElement → ShamirGaloisRingShare
share id y = record { id = id; y = y }

share_path : (id : ℕ) {x y : GaloisRingElement} → x ≡ y → share id x ≡ share id y
share_path id p = ap (share id) p

-- On the same random element, `encode_3_mat` gives the shares of `encode_3`.
pub encode_3-eq-encode_3_mat :
    (input r : GaloisRingElement) → encode_3 input r ≡ some (encode_3_mat input r)
unfolding encode_3 encode_3_mat Galois.add Galois.mul
encode_3-eq-encode_3_mat input r = ap some (
    ap₂ ◌∷◌ (share_path 1 (element_ext (simp u16_mod (omega arith)))) (
      ap₂ ◌∷◌ (share_path 2 (element_ext (simp u16_mod (omega arith))))
        (ap₂ ◌∷◌ (share_path 3 (element_ext (simp u16_mod (omega arith)))) refl)))

-- On the same two random elements, `encode_5_mat`, which multiplies by additions only, gives the
-- shares of `encode_5`.
pub encode_5-eq-encode_5_mat :
    (s r t : GaloisRingElement) → encode_5 s r t ≡ some (encode_5_mat s r t)
unfolding encode_5 encode_5_mat Galois.add Galois.mul
encode_5-eq-encode_5_mat s r t = ap some (
    ap₂ ◌∷◌ (share_path 1 (element_ext (simp u16_mod (omega arith)))) (
      ap₂ ◌∷◌ (share_path 2 (element_ext (simp u16_mod (omega arith)))) (
        ap₂ ◌∷◌ (share_path 3 (element_ext (simp u16_mod (omega arith)))) (
          ap₂ ◌∷◌ (share_path 4 (element_ext (simp u16_mod (omega arith))))
            (ap₂ ◌∷◌ (share_path 5 (element_ext (simp u16_mod (omega arith)))) refl)))))
