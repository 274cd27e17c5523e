-- ===== src/Pool/Size.antt =====
-- The size classes of trunk/src/tl_pool.c, `tl_pool_size2idx`.
use common_tool.Base.{
  ℕ, zero, suc, ◌+◌, ◌/◌, ◌%◌, ◌^◌, ◌≤◌, ◌<◌, ◌≡◌, refl, false, arith, leb, ◌==◌, Bool-cases, inl,
  inr,
}
use common_tool.Pool.{highest, size2idx, max_index}

highest_mono : (n s t : ℕ) → s ≤ t → highest n s ≤ highest n t
unfolding highest
highest_mono zero s t h = omega arith
highest_mono (suc n) s t h = ground (arith, highest_mono n (s / 2) (t / 2) (omega arith))

-- A larger size of 32 bits has no lower class.
pub size2idx_mono : (s t : ℕ) → t < 2 ^ 32 → s ≤ t → size2idx s ≤ size2idx t
unfolding size2idx
size2idx_mono s t k h =
    let low_s : s % 2 ^ 32 ≡ s = omega arith in
    let low_t : t % 2 ^ 32 ≡ t = omega arith in
    rw (low_s, low_t) (ground (arith, highest_mono 31 s t h))

-- A tag of a higher class is large enough.
pub size2idx_fits : (s t : ℕ) → s < 2 ^ 32 → size2idx s < size2idx t → s < t
size2idx_fits s t k h = elim (Bool-cases (leb t s)) [
  | inl e ↦ absurd (omega (arith, size2idx_mono t s k (ground arith)))
  | inr e ↦ ground arith
]

last_class : size2idx (2 ^ 23) ≡ 23
unfolding size2idx highest
last_class = refl

pub size2idx-small : (s : ℕ) → s ≤ 2 ^ 23 → size2idx s < max_index
size2idx-small s h = omega (arith, size2idx_mono s (2 ^ 23) (omega arith) h, last_class)

past_last_class : size2idx (2 ^ 23 + 1) ≡ 24
unfolding size2idx highest
past_last_class = refl

size2idx_bounded : (s : ℕ) → size2idx s ≤ max_index
unfolding size2idx
size2idx_bounded s = ground arith

-- The sizes of 32 bits above the classes are the large ones.
pub size2idx-small_inv : (s : ℕ) → s < 2 ^ 32 → (size2idx s == max_index) ≡ false → s ≤ 2 ^ 23
size2idx-small_inv s k h = elim (Bool-cases (leb s (2 ^ 23))) [
  | inl e ↦ ground arith
  | inr e ↦
      let past = size2idx_mono (2 ^ 23 + 1) s k (ground arith) in
      let at : size2idx s ≡ max_index = omega (arith, past, past_last_class, size2idx_bounded s) in
      absurd (ground (arith, at))
]

highest_bound : (n s : ℕ) → s < 2 ^ suc n → s < 2 ^ suc (highest n s)
unfolding highest
highest_bound zero s h = h
highest_bound (suc n) s h = elim (Bool-cases (s / 2 == 0)) [
  | inl e ↦
      let none_higher : highest (suc n) s ≡ 0 = rw (e, highest) refl in
      rw none_higher (ground arith)
  | inr e ↦
      let higher : highest (suc n) s ≡ suc (highest n (s / 2)) = rw (e, highest) (omega arith) in
      let rest = highest_bound n (s / 2) (omega arith) in rw higher (omega (arith, rest))
]

-- A tag of the size `2^idx` has room for every size of the class.
pub size2idx_room : (s : ℕ) → size2idx s < max_index → s < 2 ^ 32 → s ≤ 2 ^ size2idx s
unfolding size2idx
size2idx_room s h k =
    let low : s % 2 ^ 32 ≡ s = omega arith in
    let b = highest_bound 31 s (omega (arith, k)) in rw low (ground (arith, h, b))
