-- ===== src/Sort/Halt.antt =====
-- tl_bsearch of trunk/src/tl_sort.c on any array, in order or not.
use common_tool.Base.{
  ℕ, zero, suc, ◌+◌, ◌-◌, ◌/◌, ◌%◌, ◌^◌, ◌≤◌, ◌<◌, ◌≡◌, refl, ok, Bool, true, false, List, arith,
  ltb, leb, ◌==◌, if◌then◌else◌, length, get_or, ℤ, pos, negsuc, load-ok, Returns, returns,
  Returns-bind, Returns-if,
}
use common_tool.Sort.{search_loop, bsearch, ge, eq}

-- An index up to `n`, or -1.
abbrev pub IsPlace : ℕ → ℤ → Type 0
IsPlace n (pos i) = i ≤ n
IsPlace n (negsuc i) = i ≡ 0

module _ {ℓ} {A : Type ℓ} (cmp : A → A → ℤ) (a : List A) (key : A) where
  search_loop-halts :
      (f l h : ℕ)
      → h - l < f
      → l ≤ h
      → h ≤ length a
      → length a ≤ 2 ^ 30
      → Returns (λ r. r ≤ length a) (search_loop cmp f a key l h)
  unfolding search_loop
  search_loop-halts zero l h p q r small = absurd (omega arith)
  search_loop-halts (suc f) l h p q r small =
      Returns-if (l == h) (λ e. returns r)
        (λ e.
          let m = (l + h - 1) / 2 in
          let inside : m < h = ground arith in
          let beyond : l ≤ m = ground arith in
          let no_overflow : ltb (2 ^ 31) (l + h) ≡ false = ground arith in
          rw (no_overflow, load-ok a m key (omega arith))
            (Returns-if (ge cmp (get_or a m key) key)
              (λ up. search_loop-halts f l m (omega arith) beyond (omega arith) small)
              (λ down. search_loop-halts f (m + 1) h (omega arith) (omega arith) r small)))

  nowhere :
      (h : ℕ) (b_lowerbound : Bool)
      → h ≤ length a
      → Returns (IsPlace (length a)) (ok (if b_lowerbound then pos h else negsuc 0))
  nowhere h true within = returns within
  nowhere h false within = returns refl

  -- On every array of up to 2^30 entries, key and comparison function tl_bsearch returns, within the fuel of one round for
  -- each entry and one more, and never reads outside the array; the result is an index up to the
  -- number of the entries, or -1.
  pub bsearch-IsPlace :
      (b_lowerbound : Bool)
      → length a ≤ 2 ^ 30
      → Returns (IsPlace (length a)) (bsearch cmp a key b_lowerbound)
  unfolding bsearch
  bsearch-IsPlace b_lowerbound small =
      let same : length a % 2 ^ 32 ≡ length a = omega arith in
      let whole : leb (2 ^ 31) (length a) ≡ false = ground arith in
      rw (same, whole)
        (Returns-bind
          (search_loop-halts (length a + 1) 0 (length a) (omega arith) (omega arith) (omega arith)
            small)
          λ h within.
            Returns-if (h == length a) (λ e. nowhere h b_lowerbound within)
              λ e. rw (load-ok a h key (ground arith)) (
                Returns-if (eq cmp (get_or a h key) key) (λ hit. returns within)
                  λ miss. nowhere h b_lowerbound within))
