-- ===== src/Sort/Swap.antt =====
-- `swap` of trunk/src/tl_sort.c on the bytes of two entries that do not overlap, from the two
-- pointers on. `intptr` and `int` are `sizeof(intptr_t)` and `sizeof(int)`. The three `^=` of
-- `type_swap` exchange what the pointers point at.
use common_tool.Base.{
  ℕ, zero, suc, ◌+◌, ◌-◌, ◌*◌, ◌/◌, ◌%◌, ◌≤◌, ◌<◌, ◌≡◌, refl, List, [], ◌∷◌, ◌++◌, arith, leb,
  if◌then◌else◌, length, take, drop, length-drop, Bool-cases, inl, inr, Run, ok, fault, out_of_fuel,
  ◌>>=◌,
}

-- The bytes that `swap` exchanges with pointers of 8 bytes and an `int` of 4.
abbrev pub reach : ℕ → ℕ
reach size = 4 * (size / 8) + size % 8

module _ {ℓ} {B : Type ℓ} where
  -- `n` bytes that are exchanged, one after the other, before the rest.
  pub trade :
      ℕ → (List B → List B → Run (List B × List B)) → List B → List B → Run (List B × List B)
  trade zero rest a b = rest a b
  trade (suc n) rest (x ∷ a) (y ∷ b) = trade n rest a b >>= λ r. ok (y ∷ r.0, x ∷ r.1)
  trade (suc n) rest [] b = fault
  trade (suc n) rest a [] = fault

  -- The two loops of `swap`, with `left` bytes to go.
  pub swap_loop : (intptr int : ℕ) → ℕ → ℕ → List B → List B → Run (List B × List B)
  swap_loop intptr int zero left a b = out_of_fuel
  swap_loop intptr int (suc f) left a b =
      let word = trade int (swap_loop intptr int f (left - intptr)) a b in
      let bytes = trade left (λ a b. ok (a, b)) a b in if leb intptr left then word else bytes

  -- `swap(ptr1, ptr2, size)` on different pointers.
  pub swap : (intptr int : ℕ) → ℕ → List B → List B → Run (List B × List B)
  swap intptr int size a b = swap_loop intptr int (size + 1) size a b

  -- The first `n` bytes are exchanged and the others are not.
  abbrev pub traded : ℕ → List B → List B → List B × List B
  traded n a b = (take n b ++ drop n a, take n a ++ drop n b)

  trade-traded :
      (n k : ℕ) (rest : List B → List B → Run (List B × List B)) (a b : List B)
      → n ≤ length a
      → n ≤ length b
      → rest (drop n a) (drop n b) ≡ ok (traded k (drop n a) (drop n b))
      → trade n rest a b ≡ ok (traded (n + k) a b)
  unfolding trade
  trade-traded zero k rest a b h p e = let same : 0 + k ≡ k = omega arith in rw same e
  trade-traded (suc n) k rest [] b h p e = absurd (omega arith)
  trade-traded (suc n) k rest (x ∷ a) [] h p e = absurd (omega arith)
  trade-traded (suc n) k rest (x ∷ a) (y ∷ b) h p e =
      let next : suc n + k ≡ suc (n + k) = omega arith in
      rw (next, trade-traded n k rest a b (omega arith) (omega arith) e)

  swap_loop-traded :
      (f left : ℕ) (a b : List B)
      → left < f
      → left ≤ length a
      → left ≤ length b
      → swap_loop 8 4 f left a b ≡ ok (traded (reach left) a b)
  unfolding swap_loop
  swap_loop-traded zero left a b h p q = absurd (omega arith)
  swap_loop-traded (suc f) left a b h p q = elim (Bool-cases (leb 8 left)) [
    | inl e ↦
        let more : reach left ≡ 4 + reach (left - 8) = ground arith in
        rw (e, more)
          (trade-traded 4 (reach (left - 8)) (swap_loop 8 4 f (left - 8)) a b (ground arith)
            (ground arith)
            (swap_loop-traded f (left - 8) (drop 4 a) (drop 4 b) (ground arith)
              (ground (arith, length-drop 4 a)) (ground (arith, length-drop 4 b))))
    | inr e ↦
        let all : reach left ≡ left + 0 = ground arith in
        rw (e, all) (trade-traded left 0 (λ a b. ok (a, b)) a b p q refl)
  ]

  -- With pointers of 8 bytes and an `int` of 4, `swap` on two entries of `size` bytes returns and
  -- exchanges only their first 4 (size / 8) + size % 8 bytes.
  pub swap-reach :
      (size : ℕ) (a b : List B)
      → length a ≡ size
      → length b ≡ size
      → swap 8 4 size a b ≡ ok (traded (reach size) a b)
  unfolding swap
  swap-reach size a b h p =
      swap_loop-traded (size + 1) size a b (omega arith) (omega arith) (omega arith)
