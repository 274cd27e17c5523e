-- ===== src/Count/Tests.antt =====
-- Sums of trunk/src/tl_count.c at concrete limbs.
use common_tool.Base.{
  ℕ, suc, ◌+◌, ◌-◌, ◌^◌, ◌%◌, ◌≡◌, ◌<◌, ◌↔◌, ◌⊎◌, Bool, true, false, arith, some,
}
use common_tool.Count.{Count, add, sub_loop}
use common_tool.Count.Sums.{value, pair, add_sums, sub_exact_iff}

-- The low limb overflows into the high one.
add_sums_example :
    (c : Count) × (overflow : Bool) × (add (record { lock = 5; e = pair (2 ^ 32 - 1) 7 }) (pair 1 2)
      ≡ some (c, overflow, true))
    × (value c.e ≡ (value (pair (2 ^ 32 - 1) 7) + value (pair 1 2)) % 2 ^ 64)
    × (c.lock < 2 ^ 31)
    × ((overflow ≡ false) ⊎ (2 ^ 64 < suc (value (pair (2 ^ 32 - 1) 7) + value (pair 1 2))))
add_sums_example =
    add_sums 5 (2 ^ 32 - 1) 7 1 2 (omega arith) (omega arith) (omega arith) (omega arith)
      (omega arith)

sub_exact_iff_example :
    (value (sub_loop (pair 5 1) (pair 3 0)).limbs ≡ (value (pair 5 1) + 2 ^ 64 - 3) % 2 ^ 64)
    ↔ ((◌≡◌ {A = ℕ} 3 0) ⊎ (◌≡◌ {A = ℕ} 3 5))
sub_exact_iff_example = sub_exact_iff 5 1 3 (omega arith) (omega arith) (omega arith)
