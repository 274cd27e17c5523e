-- ===== src/Sort.antt =====
-- The searches and sorts of trunk/src/tl_sort.c over an array of `eleCnt` entries. Pointers are
-- indices. `exchange` is what `swap` leaves of two entries; Sort/Swap.antt has `swap` itself.
pub mod Swap
pub mod Search
pub mod Halt
pub mod Insertion
mod Tests
use common_tool.Base.{
  ℕ, zero, suc, ◌+◌, ◌-◌, ◌*◌, ◌/◌, ◌%◌, ◌^◌, Bool, true, false, not, ◌&&◌, ◌||◌, List, [], ◌∷◌,
  ◌++◌, ltb, leb, ◌==◌, if◌then◌else◌, length, take, drop, ℤ, pos, negsuc, is_neg, is_pos, is_zero,
  is_one, is_minus_one, Run, ok, fault, out_of_fuel, ◌>>=◌, load, store,
}

-- `parent` and `lchild`.
abbrev pub parent : ℕ → ℕ
parent i = (i - 1) / 2

abbrev pub lchild : ℕ → ℕ
lchild i = 2 * i + 1

module _ {ℓ} {A : Type ℓ} (cmp : A → A → ℤ) where
  -- `LT`, `GT`, `EQ`, `LE` and `GE`: the first two ask for -1 and 1.
  abbrev pub lt : A → A → Bool
  lt x y = is_minus_one (cmp x y)

  abbrev pub gt : A → A → Bool
  gt x y = is_one (cmp x y)

  abbrev pub eq : A → A → Bool
  eq x y = is_zero (cmp x y)

  abbrev pub le : A → A → Bool
  le x y = not (is_pos (cmp x y))

  abbrev pub ge : A → A → Bool
  ge x y = not (is_neg (cmp x y))

  -- The loop of `tl_bsearch`; `l` is the code's `l`, which begins at -1, plus 1. The sum of the two is
  -- an int, which must not overflow.
  pub search_loop : ℕ → List A → A → ℕ → ℕ → Run ℕ
  search_loop zero a key l h = out_of_fuel
  search_loop (suc f) a key l h =
      let m = (l + h - 1) / 2 in
      let round : Run ℕ = do
        x ← load a m
        if ge x key then search_loop f a key l m else search_loop f a key (m + 1) h
      in let next : Run ℕ = if ltb (2 ^ 31) (l + h) then fault else round in
        if l == h then ok h else next

  -- `tl_bsearch`. The int `h` takes the low 32 bits of `eleCnt`, with a sign: where it is negative, the
  -- first round reads before the array.
  pub bsearch : List A → A → Bool → Run ℤ
  bsearch a key b_lowerbound =
      let n = length a % 2 ^ 32 in
      let search : Run ℤ = do
        h ← search_loop (length a + 1) a key 0 n
        let absent : Run ℤ = ok (if b_lowerbound then pos h else negsuc 0)
        let test : Run ℤ = load a h >>= λ x. if eq x key then ok (pos h) else absent
        if h == length a then absent else test
      in if leb (2 ^ 31) n then fault else search

  -- The inner loop of `tl_i_sort`, at `ptr2`: the array, and where `ptr2` stops.
  pub sink : A → List A → ℕ → Run (List A × ℕ)
  sink tmp a zero = ok (a, 0)
  sink tmp a (suc p) = do
    x ← load a p
    let move : Run (List A × ℕ) = store a (suc p) x >>= λ b. sink tmp b p
    if gt tmp x then ok (a, suc p) else move

  -- One round of the outer loop.
  pub place : List A → ℕ → Run (List A)
  place a i = do tmp ← load a i; (b, p) ← sink tmp a i; if p == i then ok b else store b p tmp

  -- The outer loop, with `left` rounds to go.
  pub i_loop : ℕ → List A → ℕ → Run (List A)
  i_loop zero a i = ok a
  i_loop (suc left) a i = place a i >>= λ b. i_loop left b (i + 1)

  -- `tl_i_sort`.
  pub i_sort : List A → Run (List A)
  i_sort a = i_loop (length a - 1) a 1

module _ {ℓ} {A : Type ℓ} (exchange : A → A → A × A) where
  -- `swap` of two entries of the array.
  pub swap_at : List A → ℕ → ℕ → Run (List A)
  swap_at a i j =
      let both : Run (List A) = do
        x ← load a i
        y ← load a j
        let (x', y') = exchange x y
        b ← store a i x'
        store b j y'
      in if i == j then fault else both

module _ {ℓ} {A : Type ℓ} (cmp : A → A → ℤ) (exchange : A → A → A × A) where
  -- The two inner loops of `partition`.
  pub high_loop : ℕ → List A → ℕ → ℕ → Run ℕ
  high_loop zero a l h = out_of_fuel
  high_loop (suc f) a l h =
      let test : Run ℕ = do
        p ← load a 0
        x ← load a h
        if le cmp p x then high_loop f a l (h - 1) else ok h
      in if leb l h then test else ok h

  pub low_loop : ℕ → List A → ℕ → ℕ → Run ℕ
  low_loop zero a l h = out_of_fuel
  low_loop (suc f) a l h =
      let test : Run ℕ = do
        p ← load a 0
        x ← load a l
        if ge cmp p x then low_loop f a (l + 1) h else ok l
      in if leb l h then test else ok l

  pub part_loop : ℕ → List A → ℕ → ℕ → Run (List A × ℕ)
  part_loop zero a l h = out_of_fuel
  part_loop (suc f) a l h =
      let round : Run (List A × ℕ) = do
        h' ← high_loop (h + 1) a l h
        l' ← low_loop (h' + 1) a l h'
        b ← (if ltb l' h' then swap_at exchange a l' h' else ok a)
        part_loop f b l' h'
      in if leb l h then round else ok (a, h)

  -- `partition`: the array, and the place of the entry that was first.
  pub partition : List A → Run (List A × ℕ)
  partition a = if length a == 1 then fault else do
    (b, h) ← part_loop (length a) a 1 (length a - 1)
    c ← (if h == 0 then ok b else swap_at exchange b 0 h)
    ok (c, h)

  -- `tl_q_sort`; up to 32 entries are left to `tl_i_sort`.
  pub q_loop : ℕ → List A → Run (List A)
  q_loop zero a = out_of_fuel
  q_loop (suc f) a =
      let split : Run (List A) = do
        (b, p) ← partition a
        low ← q_loop f (take p b)
        x ← load b p
        high ← q_loop f (drop (p + 1) b)
        ok (low ++ x ∷ high)
      in if ltb 32 (length a) then split else i_sort cmp a

  pub q_sort : List A → Run (List A)
  q_sort a = q_loop (length a + 1) a

  -- The loop of `adjust`, at `cur` and its left child.
  pub adjust_loop : ℕ → List A → ℕ → ℕ → ℕ → Run (List A)
  adjust_loop zero a cur c e = out_of_fuel
  adjust_loop (suc f) a cur c e =
      let larger : Run ℕ = do x ← load a c; y ← load a (c + 1); ok (if lt cmp x y then c + 1 else c)
      in let round : Run (List A) = do
        c' ← (if ltb c (e - 1) then larger else ok c)
        x ← load a cur
        y ← load a c'
        let down : Run (List A) =
            swap_at exchange a cur c' >>= λ b. adjust_loop f b c' (lchild c') e
        if ge cmp x y then ok a else down
        in if ltb c e then round else ok a

  -- `adjust(psc, b, e)`.
  pub adjust : List A → ℕ → ℕ → Run (List A)
  adjust a b e = adjust_loop (e + 1) a b (lchild b) e

  -- The two loops of `tl_h_sort`.
  pub build : ℕ → List A → Run (List A)
  build zero a = adjust a 0 (length a)
  build (suc idx) a = adjust a (suc idx) (length a) >>= build idx

  pub drain : ℕ → List A → Run (List A)
  drain zero a = ok a
  drain (suc idx) a = do
    b ← adjust a 0 (suc idx)
    let next : Run (List A) = swap_at exchange b idx 0 >>= drain idx
    if idx == 0 then ok b else next

  -- `tl_h_sort`.
  pub h_sort : List A → Run (List A)
  h_sort a = if ltb (length a) 2 then ok a else do
    b ← build (parent (length a - 1)) a
    c ← swap_at exchange b (length b - 1) 0
    drain (length c - 1) c
