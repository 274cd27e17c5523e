-- ===== src/Sort/Search.antt =====
-- tl_bsearch of trunk/src/tl_sort.c on an array in ascending order.
use common_tool.Base.{
  subst, ℕ, zero, suc, ◌+◌, ◌-◌, ◌/◌, ◌%◌, ◌^◌, ◌≤◌, ◌<◌, ◌≡◌, Bool, true, false, List, arith, ltb,
  leb, ◌==◌, if◌then◌else◌, length, get_or, ℤ, pos, negsuc, is_neg, is_pos, is_zero, IsOrder,
  load-ok, Returns, returns, Returns-bind, Returns-if, Bool-cases, inl, inr,
}
use common_tool.Sort.{search_loop, bsearch}

module _ {ℓ} {A : Type ℓ} (cmp : A → A → ℤ) (d : A) where
  -- `n` entries in ascending order; `d` stands for an entry out of range, which is not read.
  abbrev pub IsSorted : ℕ → List A → Type 0
  IsSorted n a = (i j : ℕ) → i < j → j < n → is_pos (cmp (get_or a i d) (get_or a j d)) ≡ false

module _ {ℓ} {A : Type ℓ} (cmp : A → A → ℤ) (ord : IsOrder cmp) (d : A) (a : List A) (key : A)
    (asc : IsSorted cmp d (length a) a) where
  -- The entries below `l` are less than the key, and those from `h` on are not.
  record Between (l h : ℕ) : Type 0 where
    within : h ≤ length a
    less : (i : ℕ) → i < l → is_neg (cmp (get_or a i d) key) ≡ true
    not_less : (i : ℕ) → h ≤ i → i < length a → is_neg (cmp (get_or a i d) key) ≡ false

  cmp_refl : (x : A) → is_pos (cmp x x) ≡ false
  cmp_refl x = ground (arith, ord.flip x x)

  ascending : (i j : ℕ) → i ≤ j → j < length a → is_pos (cmp (get_or a i d) (get_or a j d)) ≡ false
  ascending i j h k = elim (Bool-cases (i == j)) [
    | inl e ↦ let same : i ≡ j = ground arith in rw same (cmp_refl (get_or a j d))
    | inr e ↦ asc i j (ground arith) k
  ]

  left_half :
      (l h m : ℕ) → Between l h → m < h → is_neg (cmp (get_or a m d) key) ≡ false → Between l m
  left_half l h m v p e = record {
    within = omega (arith, v.within);
    less = v.less;
    not_less = λ i q r. ground (
      arith,
      ascending m i q r,
      ord.flip (get_or a m d) key,
      ord.flip (get_or a i d) key,
      ord.trans key (get_or a m d) (get_or a i d),
    );
  }

  right_half :
      (l h m : ℕ) → Between l h → m < h → is_neg (cmp (get_or a m d) key) ≡ true → Between (m + 1) h
  right_half l h m v p e = record {
    within = v.within;
    less = λ i q. ground (
      arith,
      ascending i m (omega arith) (omega (arith, v.within)),
      ord.flip (get_or a m d) key,
      ord.flip (get_or a i d) key,
      ord.trans key (get_or a i d) (get_or a m d),
    );
    not_less = v.not_less;
  }

  search_loop-Between :
      (f l h : ℕ)
      → h - l < f
      → l ≤ h
      → length a ≤ 2 ^ 30
      → Between l h
      → Returns (λ r. Between r r) (search_loop cmp f a key l h)
  unfolding search_loop
  search_loop-Between zero l h p q small v = absurd (omega arith)
  search_loop-Between (suc f) l h p q small v =
      Returns-if (l == h)
        (λ e. let same : l ≡ h = ground arith in returns (subst (λ l. Between l h) same v))
        (λ e.
          let m = (l + h - 1) / 2 in
          let inside : m < h = ground arith in
          let after : l ≤ m = ground arith in
          let no_overflow : ltb (2 ^ 31) (l + h) ≡ false = ground (arith, v.within, small) in
          rw (no_overflow, load-ok a m d (omega (arith, v.within)))
            (elim (Bool-cases (is_neg (cmp (get_or a m d) key))) [
              | inl less ↦ rw less (
                  search_loop-Between f (m + 1) h (omega arith) (omega arith) small
                    (right_half l h m v inside less))
              | inr more ↦ rw more (
                  search_loop-Between f l m (omega arith) after small
                    (left_half l h m v inside more))
            ]))

  -- What tl_bsearch answers: the first of the entries that equal the key; or that there is none, with
  -- the place where the first greater one stands, which is given away for a lower bound only.
  pub data Answer (b_lowerbound : Bool) : ℤ → Type 0 where
    present :
        (h : ℕ)
        → h < length a
        → is_zero (cmp (get_or a h d) key) ≡ true
        → ((i : ℕ) → i < h → is_neg (cmp (get_or a i d) key) ≡ true)
        → Answer b_lowerbound (pos h)
    absent :
        (h : ℕ)
        → h ≤ length a
        → ((i : ℕ) → i < h → is_neg (cmp (get_or a i d) key) ≡ true)
        → ((i : ℕ) → h ≤ i → i < length a → is_pos (cmp (get_or a i d) key) ≡ true)
        → Answer b_lowerbound (if b_lowerbound then pos h else negsuc 0)

  greater :
      (h i : ℕ)
      → Between h h
      → h ≤ i
      → i < length a
      → is_zero (cmp (get_or a h d) key) ≡ false
      → is_pos (cmp (get_or a i d) key) ≡ true
  greater h i v p q e = ground (
    arith,
    ascending h i p q,
    v.not_less h (omega arith) (omega arith),
    ord.trans (get_or a h d) (get_or a i d) key,
  )

  -- On an array of up to 2^30 entries in ascending order tl_bsearch returns the first index with the key, or else, for a
  -- lower bound, the number of the entries below the key, and -1 otherwise.
  pub bsearch_correct :
      (b_lowerbound : Bool)
      → length a ≤ 2 ^ 30
      → Returns (Answer b_lowerbound) (bsearch cmp a key b_lowerbound)
  unfolding bsearch
  bsearch_correct b_lowerbound small =
      let same : length a % 2 ^ 32 ≡ length a = omega arith in
      let whole : leb (2 ^ 31) (length a) ≡ false = ground arith in
      rw (same, whole)
        (Returns-bind
          (search_loop-Between (length a + 1) 0 (length a) (omega arith) (omega arith) small
            (record {
              within = omega arith;
              less = λ i p. absurd (omega arith);
              not_less = λ i p q. absurd (omega arith);
            }))
          λ h v.
            Returns-if (h == length a)
              (λ e. returns (absent h v.within v.less λ i p q. absurd (ground arith)))
              (λ e.
                let inside : h < length a = ground (arith, v.within) in
                rw (load-ok a h d inside) (
                  Returns-if (is_zero (cmp (get_or a h d) key))
                    (λ hit. returns (present h inside hit v.less))
                    (λ miss. returns (absent h v.within v.less λ i p q. greater h i v p q miss)))))
