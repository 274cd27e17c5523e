-- ===== src/Samples.antt =====
-- The comparison of numbers, as a concrete `keycmpHandle`.
use common_tool.Base.{ℕ, arith, ℤ, pos, negsuc, IsOrder, IsUnit}
use Prim.Native.Nat.{compare, Ordering}

abbrev pub nat_cmp : ℕ → ℕ → ℤ
nat_cmp a b = elim (compare a b) [
  | Ordering.lt ↦ negsuc 0
  | Ordering.eq ↦ pos 0
  | Ordering.gt ↦ pos 1
]

pub nat_cmp-IsOrder : IsOrder nat_cmp
nat_cmp-IsOrder = record { flip = λ a b. ground arith; trans = λ a b c h k. ground arith }

pub nat_cmp-IsUnit : IsUnit nat_cmp
nat_cmp-IsUnit = record { minus_one = λ a b. ground arith; one = λ a b. ground arith }
