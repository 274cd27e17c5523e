-- ===== src/Base/Int.antt =====
-- `int` results of comparison functions, and the order that such a function stands for.
use mathlib.Core.Path.{◌≡◌}
use mathlib.Core.Bool.{Bool, true, false}
use Prim.Native.Nat.{ℕ, zero, suc}

-- `negsuc n` is -(n + 1).
pub data ℤ : Type 0 where
  pos : ℕ → ℤ
  negsuc : ℕ → ℤ

-- `0 > r`
abbrev pub is_neg : ℤ → Bool
is_neg (pos n) = false
is_neg (negsuc n) = true

-- `0 < r`
abbrev pub is_pos : ℤ → Bool
is_pos (pos zero) = false
is_pos (pos (suc n)) = true
is_pos (negsuc n) = false

-- `0 == r`
abbrev pub is_zero : ℤ → Bool
is_zero (pos zero) = true
is_zero (pos (suc n)) = false
is_zero (negsuc n) = false

-- `-1 == r`
abbrev pub is_minus_one : ℤ → Bool
is_minus_one (negsuc zero) = true
is_minus_one (negsuc (suc n)) = false
is_minus_one (pos n) = false

-- `1 == r`
abbrev pub is_one : ℤ → Bool
is_one (pos (suc zero)) = true
is_one (pos (suc (suc n))) = false
is_one (pos zero) = false
is_one (negsuc n) = false

-- What a `keycmpHandle` is documented to be: an order by sign, with both arguments exchanged the
-- opposite sign, and transitive.
pub record IsOrder {ℓ} {A : Type ℓ} (cmp : A → A → ℤ) : Type ℓ where
  pub flip : (a b : A) → is_neg (cmp a b) ≡ is_pos (cmp b a)
  pub trans :
      (a b c : A) → is_pos (cmp a b) ≡ false → is_pos (cmp b c) ≡ false → is_pos (cmp a c) ≡ false

-- The stricter contract of tl_type.h: the result is -1, 0 or 1.
pub record IsUnit {ℓ} {A : Type ℓ} (cmp : A → A → ℤ) : Type ℓ where
  pub minus_one : (a b : A) → is_minus_one (cmp a b) ≡ is_neg (cmp a b)
  pub one : (a b : A) → is_one (cmp a b) ≡ is_pos (cmp a b)
