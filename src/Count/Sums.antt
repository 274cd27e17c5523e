-- ===== src/Count/Sums.antt =====
-- What the loops over the limbs compute, as numbers.
use common_tool.Base.{
  ℕ, ◌+◌, ◌-◌, ◌*◌, ◌%◌, ◌^◌, ◌≡◌, ◌<◌, ◌↔◌, Bool, true, false, List, [], ◌∷◌, arith, some, suc,
  ◌⊎◌,
}
use common_tool.Lock.{on_round, off_value}
use common_tool.Lock.Exclusion.{off_value-lt}
use common_tool.Count.{Count, limb, add_loop, sub_loop, add, lock_on, locked}

-- The number that the two limbs stand for.
abbrev pub value : List ℕ → ℕ
value [] = 0
value (x ∷ xs) = x + limb * value xs

abbrev pub pair : ℕ → ℕ → List ℕ
pair x y = x ∷ y ∷ []

module _ (x0 x1 d0 d1 : ℕ) (hx0 : x0 < limb) (hx1 : x1 < limb) (hd0 : d0 < limb)
    (hd1 : d1 < limb) where
  pub add_loop-value :
      value (add_loop (pair x0 x1) (pair d0 d1)).limbs
      ≡ (value (pair x0 x1) + value (pair d0 d1)) % 2 ^ 64
  unfolding add_loop
  add_loop-value = ground arith

  pub add_loop-overflow :
      ((add_loop (pair x0 x1) (pair d0 d1)).overflow ≡ false)
      ⊎ (2 ^ 64 < suc (value (pair x0 x1) + value (pair d0 d1)))
  unfolding add_loop
  add_loop-overflow = ground arith

lock_on-free : (l : ℕ) → l < 2 ^ 31 → lock_on l ≡ some (2 ^ 31 + l)
unfolding lock_on on_round
lock_on-free l h = ground arith

-- On a free lock tl_count_add stores the sum of the two-limb numbers modulo 2^64, frees the lock
-- and returns 0; if it reports an overflow, the sum is 2^64 or more.
pub add_sums :
    (l x0 x1 d0 d1 : ℕ)
    → l < 2 ^ 31
    → x0 < limb
    → x1 < limb
    → d0 < limb
    → d1 < limb
    → (c : Count) × (overflow : Bool) × (add (record { lock = l; e = pair x0 x1 }) (pair d0 d1)
        ≡ some (c, overflow, true))
      × (value c.e ≡ (value (pair x0 x1) + value (pair d0 d1)) % 2 ^ 64)
      × (c.lock < 2 ^ 31)
      × ((overflow ≡ false) ⊎ (2 ^ 64 < suc (value (pair x0 x1) + value (pair d0 d1))))
unfolding add locked
add_sums l x0 x1 d0 d1 hl hx0 hx1 hd0 hd1 =
    let r = add_loop (pair x0 x1) (pair d0 d1) in
    (
      record { lock = off_value (2 ^ 31 + l); e = r.limbs },
      r.overflow,
      rw (lock_on-free l hl, locked),
      add_loop-value x0 x1 d0 d1 hx0 hx1 hd0 hd1,
      off_value-lt (2 ^ 31 + l),
      add_loop-overflow x0 x1 d0 d1 hx0 hx1 hd0 hd1,
    )

-- Taking a number of one limb from a counter gives the difference modulo 2^64 exactly when that
-- number is zero or equals the counter's low limb.
pub sub_exact_iff :
    (x0 x1 d : ℕ)
    → x0 < limb
    → x1 < limb
    → d < limb
    → (value (sub_loop (pair x0 x1) (pair d 0)).limbs ≡ (value (pair x0 x1) + 2 ^ 64 - d) % 2 ^ 64)
      ↔ ((d ≡ 0) ⊎ (d ≡ x0))
unfolding sub_loop
sub_exact_iff x0 x1 d hx0 hx1 hd = (λ h. ground arith, λ h. ground arith)
