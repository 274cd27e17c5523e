-- ===== src/Pool/Alloc/Choose.antt =====
-- The sizes and the choices of `tl_pool_alloc`: how large a new block is, and from which ring a tag
-- comes.
use common_tool.Base.{
  ℕ, zero, suc, ◌+◌, ◌-◌, ◌^◌, ◌≤◌, ◌<◌, ◌≡◌, ◌⊎◌, inl, inr, refl, ap, subst, false, List, [], ◌∷◌,
  Option, none, some, arith, ltb, leb, ◌==◌, Bool-cases, List-cases, ℕ_discrete,
}
use native.Mathlib.Nat.{pow-le-pow_right}
use common_tool.Pool.{highest, thresh_index, blk_s, size2idx, max_index}
use common_tool.Pool.Size.{size2idx_mono, size2idx-small_inv}
use common_tool.Pool.Rings.{count}
use common_tool.Pool.Alloc.{scan, choose, tail, blk_size}

past_page : size2idx (2 ^ 8 + 1) ≡ 9
unfolding size2idx highest
past_page = refl

-- The sizes of the classes that fit a page.
pub page_class : (s : ℕ) → s < 2 ^ 32 → size2idx s < thresh_index → s ≤ 2 ^ 8
page_class s k h = elim (Bool-cases (leb s (2 ^ 8))) [
  | inl e ↦ ground arith
  | inr e ↦ absurd (omega (arith, size2idx_mono (2 ^ 8 + 1) s k (ground arith), past_page))
]

last_page : size2idx (2 ^ 8) ≡ 8
unfolding size2idx highest
last_page = refl

-- The size of a new block: enough for the tag, and not too large for the classes.
pub blk_size_bounds :
    (n : ℕ) → n ≤ 2 ^ 23 → (n + blk_s ≤ blk_size n) × (blk_size n ≤ 2 ^ 23 + blk_s)
unfolding blk_size
blk_size_bounds n h =
    let s = n + blk_s in
    let small : size2idx s < thresh_index → s ≤ 2 ^ 8 = page_class s (omega arith) in
    let middle : (size2idx s == max_index) ≡ false → s ≤ 2 ^ 23 =
      size2idx-small_inv s (omega arith) in
    elim (Bool-cases (ltb (size2idx s) thresh_index)) [
      | inl e ↦ rw e (omega (arith, page_class s (omega arith) (ground arith)), omega arith)
      | inr e ↦ elim (Bool-cases (ltb (size2idx s) max_index)) [
        | inl e' ↦
            let bound = size2idx-small_inv s (omega arith) (ground arith) in
            rw (e, e') (omega (arith, bound), omega (arith, bound))
        | inr e' ↦ rw (e, e') (omega arith, omega arith)
      ]
    ]

pub page_size : (idx : ℕ) → idx < thresh_index → 2 ^ idx ≤ 2 ^ 23 + blk_s
page_size idx h =
    omega (arith, pow-le-pow_right {n = 2} (omega arith) {i = idx} {j = 8} (omega arith))

-- Where the choice of a tag comes from: the ring of the index, or a later one.
abbrev pub Chosen : (ℕ → List ℕ) → ℕ → Option ℕ × ℕ → Type 0
Chosen bkt idx (none, at) = Unit
Chosen bkt idx (some a, at) =
    (j : ℕ) × (0 < count a (bkt j)) × (j < max_index) × (((j ≡ idx) × (at ≡ idx)) ⊎ (idx < j))

pub count_first : (a : ℕ) (xs : List ℕ) → 0 < count a (a ∷ xs)
count_first a xs = ground arith

scan-Later :
    (bkt : ℕ → List ℕ) (left idx at : ℕ) (a : ℕ)
    → scan bkt left idx ≡ (some a, at)
    → (j : ℕ) × (0 < count a (bkt j)) × (idx ≤ j) × (j < idx + left)
unfolding scan
scan-Later bkt zero idx at a h = absurd (ground (arith, ap (λ x. x.0) h))
scan-Later bkt (suc left) idx at a h = elim (List-cases (bkt idx)) [
  | inl e ↦
      let later : scan bkt left (idx + 1) ≡ (some a, at) = ground arith in
      let (j, in_ring, low, high) = scan-Later bkt left (idx + 1) at a later in
      (j, in_ring, omega arith, omega arith)
  | inr (x, xs, e) ↦
      let here : x ≡ a = ground arith in
      (idx, rw e (ground (arith, here)), omega arith, omega arith)
]

scan-Chosen :
    (bkt : ℕ → List ℕ) (idx : ℕ) (r : Option ℕ × ℕ)
    → bkt idx ≡ []
    → idx < max_index
    → scan bkt (max_index - idx) idx ≡ r
    → Chosen bkt idx r
scan-Chosen bkt idx (none, at) h k e = tt
scan-Chosen bkt idx (some a, at) h k e =
    let (j, in_ring, low, high) = scan-Later bkt (max_index - idx) idx at a e in
    (
      j,
      in_ring,
      omega arith,
      elim (ℕ_discrete j idx) [
        | yes q ↦ absurd (omega (arith, ap (λ i. count a (bkt i)) q, ap (count a) h))
        | no ne ↦ inr (omega (arith, ne))
      ],
    )

pub choose-Chosen :
    (bkt : ℕ → List ℕ) (idx : ℕ) (r : Option ℕ × ℕ) → choose bkt idx ≡ r → Chosen bkt idx r
unfolding choose
choose-Chosen bkt idx r h = elim (Bool-cases (leb max_index idx)) [
  | inl e ↦ let answer : (none, idx) ≡ r = ground arith in subst (Chosen bkt idx) answer tt
  | inr e ↦ elim (List-cases (bkt idx)) [
    | inl e' ↦ scan-Chosen bkt idx r e' (ground arith) (ground arith)
    | inr (x, xs, e') ↦
        let answer : (some x, idx) ≡ r = ground arith in
        let first : 0 < count x (bkt idx) = rw e' (count_first x xs) in
        subst (Chosen bkt idx) answer (idx, first, ground arith, inl (refl, refl))
  ]
]

pub tail-count : (a : ℕ) (xs : List ℕ) → 0 < count a (tail xs) → 0 < count a xs
tail-count a [] h = h
tail-count a (x ∷ xs) h = ground arith

-- A tag that is too small stands in the last ring.
pub last_ring :
    (n raw i idx at : ℕ)
    → raw < n
    → n ≤ 2 ^ 23
    → (size2idx n < idx) ⊎ (idx ≡ max_index - 1)
    → size2idx raw ≡ i
    → i < max_index
    → ((i ≡ idx) × (at ≡ idx)) ⊎ (idx < i)
    → at ≡ max_index - 1
last_ring n raw i idx at small le low class bound place =
    let ordered = size2idx_mono raw n (omega arith) (omega arith) in
    elim low [
      | inl l ↦ elim place [
        | inl (e, e') ↦ absurd (omega (arith, ordered, class))
        | inr g ↦ absurd (omega (arith, ordered, class))
      ]
      | inr l ↦ elim place [ inl (e, e') ↦ omega arith | inr g ↦ absurd (omega arith) ]
    ]
