-- ===== src/Share.antt =====
-- ampc-secret-sharing/src/shares/share.rs: replicated shares of a value of `k` bits among three
-- parties. Party `i` holds `a`, its own summand, and `b`, the summand of party `i - 1`.
pub mod Local
pub mod Boolean
pub mod Vectors
mod Tests
use ampc_common.Base.{
  ℕ, zero, suc, Option, none, some, List, [], ◌∷◌, Bool, ◌&&◌, ◌==◌, bit_and, bit_xor,
}
use ampc_common.Ring
use ampc_common.Ring.{zip_with}

pub record Share : Type 0 where
  pub a : ℕ
  pub b : ℕ

unfoldable pub new : ℕ → ℕ → Share
new a b = record { a = a; b = b }

unfoldable pub get_ab : Share → ℕ × ℕ
get_ab s = (s.a, s.b)

unfoldable pub zero_share : Share
zero_share = record { a = 0; b = 0 }

unfoldable pub is_zero : Share → Bool
is_zero s = s.a == 0 && s.b == 0

-- `add_assign_const_role`, with the index of the role; `none` is `unimplemented!`.
unfoldable pub add_assign_const_role : ℕ → Share → ℕ → ℕ → Option Share
add_assign_const_role k s other zero = some (record s { a = Ring.add k s.a other })
add_assign_const_role k s other (suc zero) = some (record s { b = Ring.add k s.b other })
add_assign_const_role k s other (suc (suc zero)) = some s
add_assign_const_role k s other (suc (suc (suc n))) = none

unfoldable pub from_const : ℕ → ℕ → ℕ → Option Share
unfolding zero_share add_assign_const_role
from_const k value role = add_assign_const_role k zero_share value role

unfoldable pub add : ℕ → Share → Share → Share
add k s t = record { a = Ring.add k s.a t.a; b = Ring.add k s.b t.b }

unfoldable pub sub : ℕ → Share → Share → Share
sub k s t = record { a = Ring.sub k s.a t.a; b = Ring.sub k s.b t.b }

unfoldable pub neg : ℕ → Share → Share
neg k s = record { a = Ring.neg k s.a; b = Ring.neg k s.b }

-- `Mul` by a public ring element.
unfoldable pub scale : ℕ → Share → ℕ → Share
scale k s c = record { a = Ring.mul k s.a c; b = Ring.mul k s.b c }

-- The local part of the multiplication of two shares.
unfoldable pub mul : ℕ → Share → Share → ℕ
mul k s t = Ring.add k (Ring.add k (Ring.mul k s.a t.a) (Ring.mul k s.b t.a)) (Ring.mul k s.a t.b)

unfoldable pub bitxor : Share → Share → Share
bitxor s t = record { a = bit_xor s.a t.a; b = bit_xor s.b t.b }

-- The local part of the conjunction of two shares.
unfoldable pub bitand : Share → Share → ℕ
bitand s t = bit_xor (bit_xor (bit_and s.a t.a) (bit_and s.b t.a)) (bit_and s.a t.b)

-- `BitAnd` with a public value.
unfoldable pub mask : Share → ℕ → Share
mask s c = record { a = bit_and s.a c; b = bit_and s.b c }

unfoldable pub complement : ℕ → Share → Share
complement k s = record { a = Ring.not k s.a; b = Ring.not k s.b }

unfoldable pub shl : ℕ → Share → ℕ → Share
shl k s r = record { a = Ring.shl k s.a r; b = Ring.shl k s.b r }

unfoldable pub shr : ℕ → Share → ℕ → Share
shr k s r = record { a = Ring.shr k s.a r; b = Ring.shr k s.b r }

-- `iter_from_iter_ab`.
unfoldable pub iter_from_iter_ab : List ℕ → List ℕ → List Share
unfolding zip_with new
iter_from_iter_ab = zip_with new

pub record DistanceShare : Type 0 where
  pub code_dot : Share
  pub mask_dot : Share

unfoldable pub distance_add : ℕ → DistanceShare → DistanceShare → DistanceShare
distance_add k d e = record {
  code_dot = add k d.code_dot e.code_dot;
  mask_dot = add k d.mask_dot e.mask_dot;
}

-- `tuples` of two, which drops a last share that has no partner.
pair_up : List Share → List DistanceShare
pair_up (s ∷ t ∷ rest) = record { code_dot = s; mask_dot = t } ∷ pair_up rest
pair_up (s ∷ []) = []
pair_up [] = []

unfoldable pub reconstruct_distance_vector : List ℕ → List ℕ → List DistanceShare
unfolding iter_from_iter_ab pair_up
reconstruct_distance_vector a b = pair_up (iter_from_iter_ab a b)

-- `tuples` of three.
unfoldable pub triple_up : List Share → List (Share × DistanceShare)
triple_up (id ∷ s ∷ t ∷ rest) = (id, record { code_dot = s; mask_dot = t }) ∷ triple_up rest
triple_up (id ∷ s ∷ []) = []
triple_up (id ∷ []) = []
triple_up [] = []

unfoldable pub reconstruct_id_distance_vector : List ℕ → List ℕ → List (Share × DistanceShare)
unfolding iter_from_iter_ab triple_up
reconstruct_id_distance_vector a b = triple_up (iter_from_iter_ab a b)
