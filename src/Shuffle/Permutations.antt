-- ===== src/Shuffle/Permutations.antt =====
-- The permutations that the parties generate are permutations, and each is known to two of them.
use ampc_common.Base.{
  ℕ, zero, suc, ◌+◌, ◌-◌, ◌≤◌, ◌<◌, ◌≡◌, refl, ap, ◌∙◌, arith, some, List, [], ◌∷◌, ltb, leb, ◌&&◌,
  ◌==◌, length, get_elem?, dec_lt, if◌then◌else◌,
}
use ampc_common.Protocol.{Prf}
use ampc_common.Protocol.Reshare.{IsInSync}
use ampc_common.Shuffle.{set, swap, range, gen_u32_mod, gen_u32_mod_both, permute, gen_permutation}
use ampc_common.Shuffle.Triplets.{AreBelow}
use ampc_common.Shuffle.Sampling.{IsAccepted, gen_u32_mod-lt}

-- How often a number occurs.
abbrev pub count : ℕ → List ℕ → ℕ
count v [] = 0
count v (x ∷ xs) = (if v == x then 1 else 0) + count v xs

length-set : (xs : List ℕ) (i y : ℕ) → length (set xs i y) ≡ length xs
unfolding set
length-set [] i y = refl
length-set (x ∷ xs) zero y = refl
length-set (x ∷ xs) (suc i) y = ap suc (length-set xs i y)

get_elem?-lt : (xs : List ℕ) (i : ℕ) → i < length xs → (x : ℕ) × (get_elem? xs i ≡ some x)
get_elem?-lt [] i h = absurd (omega arith)
get_elem?-lt (x ∷ xs) zero h = (x, refl)
get_elem?-lt (x ∷ xs) (suc i) h = get_elem?-lt xs i (omega arith)

-- The place `j` of a list whose place `i` is set, when `i` holds `x`.
get_elem?-set :
    (xs : List ℕ) (i j x y : ℕ)
    → get_elem? xs i ≡ some x
    → get_elem? xs j ≡ some y
    → get_elem? (set xs i y) j ≡ some y
unfolding set
get_elem?-set [] i j x y h h' = h'
get_elem?-set (z ∷ xs) zero zero x y h h' = refl
get_elem?-set (z ∷ xs) zero (suc j) x y h h' = h'
get_elem?-set (z ∷ xs) (suc i) zero x y h h' = h'
get_elem?-set (z ∷ xs) (suc i) (suc j) x y h h' = get_elem?-set xs i j x y h h'

count-set :
    (v : ℕ) (xs : List ℕ) (i x y : ℕ)
    → get_elem? xs i ≡ some x
    → count v (set xs i y) + (if v == x then 1 else 0) ≡ count v xs + (if v == y then 1 else 0)
unfolding set
count-set v [] i x y h = grind arith
count-set v (z ∷ xs) zero x y h = grind arith
count-set v (z ∷ xs) (suc i) x y h = omega (arith, count-set v xs i x y h)

-- Swapping two places within a list succeeds, and keeps its length and its elements.
swap_lem :
    (xs : List ℕ) (i j : ℕ)
    → i < length xs
    → j < length xs
    → (ys : List ℕ) × (swap xs i j ≡ some ys)
      × (length ys ≡ length xs)
      × ((v : ℕ) → count v ys ≡ count v xs)
unfolding swap
swap_lem xs i j hi hj =
    let x = get_elem?-lt xs i hi in
    let y = get_elem?-lt xs j hj in
    (
      set (set xs i y.0) j x.0,
      rw (x.1, y.1) refl,
      length-set (set xs i y.0) j x.0 ∙ length-set xs i y.0,
      λ v. omega (
        arith,
        count-set v xs i x.0 y.0 x.1,
        count-set v (set xs i y.0) j y.0 x.0 (get_elem?-set xs i j x.0 y.0 x.1 y.1),
      ),
    )

-- The rounds of one of the two generators, with its permutation before and after.
abbrev Rounds :
    {Rng : Type 0} → (Rng → ℕ × Rng) → ℕ → (n i : ℕ) → (xs : List ℕ) → Rng → List ℕ → Rng → Type 0
Rounds {Rng = Rng} gen fuel zero i xs rng ys last = (ys ≡ xs) × (last ≡ rng)
Rounds {Rng = Rng} gen fuel (suc n) i xs rng ys last =
    (j : ℕ × Rng) × (zs : List ℕ) × (gen_u32_mod gen fuel (i + 1) rng ≡ some j)
    × (swap xs i j.0 ≡ some zs)
    × Rounds gen fuel n (i + 1) zs j.1 ys last

permute-Rounds :
    {Rng : Type 0} (gen : Rng → ℕ × Rng) (fuel n i : ℕ) (xs ws : List ℕ) (mine prev : Rng)
    (cs ds : List ℕ) (mine_last prev_last : Rng)
    → Rounds gen fuel n i xs mine cs mine_last
    → Rounds gen fuel n i ws prev ds prev_last
    → permute gen fuel n i xs ws (record { my_prf = mine; prev_prf = prev })
      ≡ some ((cs, ds), record { my_prf = mine_last; prev_prf = prev_last })
unfolding permute gen_u32_mod_both
permute-Rounds gen fuel zero i xs ws mine prev cs ds mine_last prev_last (e, f) (g, h) = cc
permute-Rounds gen fuel (suc n) i xs ws mine prev cs ds mine_last prev_last (j, zs, e, f, more)
      (k, us, g, h, rest) =
    rw (e, g, f, h)
      (permute-Rounds gen fuel n (i + 1) zs us j.1 k.1 cs ds mine_last prev_last more rest)

-- For every modulus that a permutation of `size` numbers needs, one of `fuel` draws is accepted.
abbrev pub AreAccepted : {Rng : Type 0} → (Rng → ℕ × Rng) → ℕ → ℕ → Type 0
AreAccepted {Rng = Rng} gen fuel size =
    (modulus : ℕ) (rng : Rng) → 0 < modulus → modulus ≤ size → IsAccepted gen fuel modulus rng

rounds :
    {Rng : Type 0} (gen : Rng → ℕ × Rng) (fuel size n i : ℕ) (xs : List ℕ) (rng : Rng)
    → AreAccepted gen fuel size
    → length xs ≡ size
    → (0 < n → i + n ≤ size)
    → (ys : List ℕ) × (last : Rng) × Rounds gen fuel n i xs rng ys last
      × (length ys ≡ size)
      × ((v : ℕ) → count v ys ≡ count v xs)
rounds gen fuel size zero i xs rng often l h = (xs, rng, (refl, refl), l, λ v. refl)
rounds gen fuel size (suc n) i xs rng often l h =
    let fits = h (omega arith) in
    let j =
      gen_u32_mod-lt gen fuel (i + 1) rng (omega arith)
        (often (i + 1) rng (omega arith) (omega arith)) in
    let zs = swap_lem xs i j.0.0 (omega arith) (omega (arith, j.2)) in
    let more = rounds gen fuel size n (i + 1) zs.0 j.0.1 often (zs.2 ∙ l) (λ pos. omega arith) in
    (more.0, more.1, (j.0, zs.0, j.1, zs.1, more.2), more.3, λ v. more.4 v ∙ zs.3 v)

length-range : (i n : ℕ) → length (range i n) ≡ n
unfolding range
length-range i zero = refl
length-range i (suc n) = ap suc (length-range (i + 1) n)

count-range : (v i n : ℕ) → count v (range i n) ≡ (if leb i v && ltb v (i + n) then 1 else 0)
unfolding range
count-range v i zero = grind arith
count-range v i (suc n) = let rest = count-range v (i + 1) n in grind (arith, rest)

-- A list of the size in which each number below the size occurs once and no other does.
abbrev pub IsPermutation : ℕ → List ℕ → Type 0
IsPermutation size xs = (length xs ≡ size) × ((v : ℕ) → count v xs ≡ (if ltb v size then 1 else 0))

stream :
    {Rng : Type 0} (gen : Rng → ℕ × Rng) (fuel size : ℕ) (rng : Rng)
    → AreAccepted gen fuel size
    → (ys : List ℕ) × (last : Rng) × Rounds gen fuel (size - 1) 1 (range 0 size) rng ys last
      × IsPermutation size ys
stream gen fuel size rng often =
    let found =
      rounds gen fuel size (size - 1) 1 (range 0 size) rng often (length-range 0 size)
        (λ pos. omega arith) in
    (
      found.0,
      found.1,
      found.2,
      (
        found.3,
        λ v. let start = count-range v 0 size in let kept = found.4 v in grind (arith, start, kept),
      ),
    )

-- For generators in step, and when every modulus has one accepted draw among `fuel`: every party
-- generates its two permutations without an error, each list is a permutation of the numbers below
-- the size, each is generated by two parties, and the generators are in step afterwards.
pub gen_permutation_shared :
    {Rng : Type 0} (gen : Rng → ℕ × Rng) (fuel size : ℕ) (p0 p1 p2 : Prf Rng)
    → AreAccepted gen fuel size
    → IsInSync p0 p1 p2
    → (pi_01 : List ℕ) × (pi_12 : List ℕ) × (pi_20 : List ℕ) × (q0 : Prf Rng) × (q1 : Prf Rng)
      × (q2 : Prf Rng) × (gen_permutation gen fuel size p0 ≡ some ((pi_01, pi_20), q0))
      × (gen_permutation gen fuel size p1 ≡ some ((pi_12, pi_01), q1))
      × (gen_permutation gen fuel size p2 ≡ some ((pi_20, pi_12), q2))
      × IsPermutation size pi_01
      × IsPermutation size pi_12
      × IsPermutation size pi_20
      × IsInSync q0 q1 q2
unfolding gen_permutation
gen_permutation_shared gen fuel size p0 p1 p2 often s =
    let a = stream gen fuel size p0.my_prf often in
    let b = stream gen fuel size p1.my_prf often in
    let c = stream gen fuel size p2.my_prf often in
    let xs = range 0 size in
    (
      a.0,
      b.0,
      c.0,
      record { my_prf = a.1; prev_prf = c.1 },
      record { my_prf = b.1; prev_prf = a.1 },
      record { my_prf = c.1; prev_prf = b.1 },
      rw s.shared0
          (permute-Rounds gen fuel (size - 1) 1 xs xs p0.my_prf p2.my_prf a.0 c.0 a.1 c.1 a.2 c.2),
      rw s.shared1
          (permute-Rounds gen fuel (size - 1) 1 xs xs p1.my_prf p0.my_prf b.0 a.0 b.1 a.1 b.2 a.2),
      rw s.shared2
          (permute-Rounds gen fuel (size - 1) 1 xs xs p2.my_prf p1.my_prf c.0 b.0 c.1 b.1 c.2 b.2),
      a.3,
      b.3,
      c.3,
      record { shared0 = refl; shared1 = refl; shared2 = refl },
    )

AreBelow-count : (n : ℕ) (xs : List ℕ) → ((v : ℕ) → n ≤ v → count v xs ≡ 0) → AreBelow n xs
AreBelow-count n [] h = tt
AreBelow-count n (x ∷ xs) h = (
  elim (dec_lt x n) [
    | yes less ↦ less
    | no large ↦ let here = h x (omega arith) in absurd (grind arith)
  ],
  AreBelow-count n xs (λ v le. omega (arith, h v le)),
)

pub IsPermutation-AreBelow : (n : ℕ) (xs : List ℕ) → IsPermutation n xs → AreBelow n xs
IsPermutation-AreBelow n xs h = AreBelow-count n xs (λ v le. let c = h.1 v in grind arith)
