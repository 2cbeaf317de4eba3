-- ===== src/Protocol/Mux.antt =====
-- The batch of conditional selections of `reshare_mux`.
use ampc_common.Base.{
  ℕ, zero, suc, ◌+◌, ◌*◌, ◌/◌, ◌%◌, ◌≤◌, ◌<◌, ◌≡◌, refl, arith, List, [], ◌∷◌, length, ap₂, Bool,
  false, if◌then◌else◌, Option, none, some, get_elem?, ltb, ◌==◌,
}
use native.Mathlib.Nat.{mod-eq_of_lt}
use ampc_common.Base.Mod.{pow-pos}
use ampc_common.Ring
use ampc_common.Ring.Laws.{one_mod}
use ampc_common.Share.{Share}
use ampc_common.Share.Local.{Shared, IsReplicated, reconstruct}
use ampc_common.Protocol.{Prf, mux_at, mux_expr, reshare_send, reshare_receive, reshare_mux_send}
use ampc_common.Protocol.Reshare.{
  AreSharesOf, IsInSync, product_sums, reshare_products_shared, mux_product_selects,
}

-- The control bits as ring elements.
abbrev pub bit_values : List Bool → List ℕ
bit_values [] = []
bit_values (b ∷ bs) = (if b then 1 else 0) ∷ bit_values bs

-- The value selected by a control bit, if there is one.
abbrev pub select : ℕ → Option Bool → Shared → Shared → ℕ
select k none l r = 0
select k (some b) l r = if b then reconstruct k l else reconstruct k r

-- The selected values of `n` fields from the index `i` on, `d` fields for each control bit.
abbrev pub selected : ℕ → ℕ → List Bool → (left right : ℕ → ℕ → Shared) → ℕ → ℕ → List ℕ
selected k d bits left right i zero = []
selected k d bits left right i (suc n) =
    select k (get_elem? bits (i / d)) (left (i / d) (i % d)) (right (i / d) (i % d))
    ∷ selected k d bits left right (i + 1) n

-- The fields of one party.
abbrev pub fields : (Shared → Share) → (left right : ℕ → ℕ → Shared) → ℕ → ℕ → Share × Share
fields p left right j f = (p (left j f), p (right j f))

zeros : (k : ℕ) → Ring.add k (Ring.add k 0 0) 0 ≡ 0
zeros k = simp one_mod (mod-eq_of_lt (pow-pos k))

mux_at-select :
    (k j : ℕ) (bits : List Bool) (c0 c1 c2 : List Share) (l r : Shared)
    → AreSharesOf k (bit_values bits) c0 c1 c2
    → IsReplicated l
    → IsReplicated r
    → Ring.add k
        (Ring.add k
          (mux_at k (get_elem? c0 j) (l.p0, r.p0))
          (mux_at k (get_elem? c1 j) (l.p1, r.p1)))
        (mux_at k (get_elem? c2 j) (l.p2, r.p2))
      ≡ select k (get_elem? bits j) l r
unfolding mux_at
mux_at-select k j [] [] [] [] l r h p q = zeros k
mux_at-select k j [] [] [] (u ∷ c2) l r h p q = absurd h
mux_at-select k j [] [] (t ∷ c1) c2 l r h p q = absurd h
mux_at-select k j [] (s ∷ c0) c1 c2 l r h p q = absurd h
mux_at-select k j (b ∷ bits) [] c1 c2 l r h p q = absurd h
mux_at-select k j (b ∷ bits) (s ∷ c0) [] c2 l r h p q = absurd h
mux_at-select k j (b ∷ bits) (s ∷ c0) (t ∷ c1) [] l r h p q = absurd h
mux_at-select k zero (b ∷ bits) (s ∷ c0) (t ∷ c1) (u ∷ c2) l r h p q =
    mux_product_selects k b (record { p0 = s; p1 = t; p2 = u }) l r h.0 p q h.1
mux_at-select k (suc j) (b ∷ bits) (s ∷ c0) (t ∷ c1) (u ∷ c2) l r h p q =
    mux_at-select k j bits c0 c1 c2 l r h.2 p q

product_sums-selected :
    (k d i n : ℕ) (bits : List Bool) (c0 c1 c2 : List Share) (left right : ℕ → ℕ → Shared)
    → AreSharesOf k (bit_values bits) c0 c1 c2
    → ((j f : ℕ) → IsReplicated (left j f))
    → ((j f : ℕ) → IsReplicated (right j f))
    → product_sums k i n
        (mux_expr k d c0 (fields (λ s. s.p0) left right))
        (mux_expr k d c1 (fields (λ s. s.p1) left right))
        (mux_expr k d c2 (fields (λ s. s.p2) left right))
      ≡ selected k d bits left right i n
unfolding mux_expr
product_sums-selected k d i zero bits c0 c1 c2 left right h p q = refl
product_sums-selected k d i (suc n) bits c0 c1 c2 left right h p q =
    ap₂ ◌∷◌
      (mux_at-select k (i / d) bits c0 c1 c2 (left (i / d) (i % d)) (right (i / d) (i % d)) h
        (p (i / d) (i % d)) (q (i / d) (i % d)))
      (product_sums-selected k d (i + 1) n bits c0 c1 c2 left right h p q)

length-shares :
    (k : ℕ) (bits : List Bool) (c0 c1 c2 : List Share)
    → AreSharesOf k (bit_values bits) c0 c1 c2
    → (length c0 ≡ length bits) × (length c1 ≡ length bits) × (length c2 ≡ length bits)
length-shares k [] [] [] [] h = (refl, refl, refl)
length-shares k [] [] [] (u ∷ c2) h = absurd h
length-shares k [] [] (t ∷ c1) c2 h = absurd h
length-shares k [] (s ∷ c0) c1 c2 h = absurd h
length-shares k (b ∷ bits) [] c1 c2 h = absurd h
length-shares k (b ∷ bits) (s ∷ c0) [] c2 h = absurd h
length-shares k (b ∷ bits) (s ∷ c0) (t ∷ c1) [] h = absurd h
length-shares k (b ∷ bits) (s ∷ c0) (t ∷ c1) (u ∷ c2) h =
    let rest = length-shares k bits c0 c1 c2 h.2 in omega (arith, rest)

-- Both checks of `reshare_mux` pass and it sends what `reshare_products` does.
reshare_mux_sends :
    {Rng : Type 0} (fill : ℕ → ℕ → Rng → List ℕ × Rng) (k n d : ℕ) (c : List Share)
    (get_field : ℕ → ℕ → Share × Share) (prf : Prf Rng)
    → 0 < d
    → n ≤ length c
    → reshare_mux_send fill k n d c get_field prf
      ≡ some (reshare_send fill k (n * d) (mux_expr k d c get_field) prf)
unfolding reshare_mux_send
reshare_mux_sends fill k n d c get_field prf p q =
    let e : (d == 0) ≡ false = ground arith in
    let e' : ltb (length c) n ≡ false = ground arith in rw (e, e')

-- With at least one field for each element and a control bit for each of the `n` elements, and
-- generators in step: `reshare_mux` passes its checks at the three parties, and after the round
-- they hold replicated shares of the selected fields, the left one where the control bit of the
-- element is 1 and the right one where it is 0.
pub reshare_mux_shared :
    {Rng : Type 0} (fill : ℕ → ℕ → Rng → List ℕ × Rng)
    (fills : (k n : ℕ) (rng : Rng) → length (fill k n rng).0 ≡ n) (k n d : ℕ) (bits : List Bool)
    (c0 c1 c2 : List Share) (left right : ℕ → ℕ → Shared) (p0 p1 p2 : Prf Rng)
    → 0 < d
    → n ≤ length bits
    → AreSharesOf k (bit_values bits) c0 c1 c2
    → ((j f : ℕ) → IsReplicated (left j f))
    → ((j f : ℕ) → IsReplicated (right j f))
    → IsInSync p0 p1 p2
    → (m0 : List ℕ × Prf Rng) × (m1 : List ℕ × Prf Rng) × (m2 : List ℕ × Prf Rng)
      × (reshare_mux_send fill k n d c0 (fields (λ s. s.p0) left right) p0 ≡ some m0)
      × (reshare_mux_send fill k n d c1 (fields (λ s. s.p1) left right) p1 ≡ some m1)
      × (reshare_mux_send fill k n d c2 (fields (λ s. s.p2) left right) p2 ≡ some m2)
      × AreSharesOf k
          (selected k d bits left right 0 (n * d))
          (reshare_receive m0.0 m2.0)
          (reshare_receive m1.0 m0.0)
          (reshare_receive m2.0 m1.0)
      × IsInSync m0.1 m1.1 m2.1
reshare_mux_shared fill fills k n d bits c0 c1 c2 left right p0 p1 p2 pos enough h p q s =
    let lengths = length-shares k bits c0 c1 c2 h in
    let round =
      reshare_products_shared fill fills k (n * d) (mux_expr k d c0 (fields (λ s. s.p0) left right))
        (mux_expr k d c1 (fields (λ s. s.p1) left right))
        (mux_expr k d c2 (fields (λ s. s.p2) left right)) p0 p1 p2 s in
    (
      _,
      _,
      _,
      reshare_mux_sends fill k n d c0 (fields (λ s. s.p0) left right) p0 pos
          (omega (arith, lengths)),
      reshare_mux_sends fill k n d c1 (fields (λ s. s.p1) left right) p1 pos
          (omega (arith, lengths)),
      reshare_mux_sends fill k n d c2 (fields (λ s. s.p2) left right) p2 pos
          (omega (arith, lengths)),
      rw (product_sums-selected k d 0 (n * d) bits c0 c1 c2 left right h p q) at round.0,
      round.1,
    )
