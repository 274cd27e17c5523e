-- ===== src/Heap.antt =====
-- The binary heap of trunk/src/tl_heap.c: an array in which no entry ranks below its parent, the
-- highest first (`hp_raft`) or the lowest first. The loops carry a hole down or up and write the
-- moved entry last. `get_idx` says whether a `getIndexHandle` is set; its calls are returned in
-- order, each as the entry and the index that it is told.
pub mod Order
pub mod Down
pub mod Up
pub mod Content
pub mod Adjust
pub mod Calls
mod Tests
use common_tool.Base.{
  ℕ, zero, suc, ◌+◌, ◌-◌, ◌*◌, ◌/◌, Bool, true, false, not, ◌&&◌, ◌||◌, Option, none, some, List,
  [], ◌∷◌, ◌++◌, ltb, leb, ◌==◌, if◌then◌else◌, take, drop, ℤ, is_neg, is_pos, Run, ok, fault,
  out_of_fuel, ◌>>=◌, or_fault, load, store,
}

-- `hp_lchild`, `hp_parent` and `hp_inc`.
abbrev pub lchild : ℕ → ℕ
lchild i = 2 * i + 1

abbrev pub parent : ℕ → ℕ
parent i = (i - 1) / 2

abbrev pub increment : ℕ
increment = 128

-- An array, the place of its hole, and the calls of the index handle.
pub record Sift {ℓ} (A : Type ℓ) : Type ℓ where
  pub cells : List A
  pub hole : ℕ
  pub calls : List (A × ℕ)

module _ {ℓ} {A : Type ℓ} where
  abbrev pub told : Bool → A → ℕ → List (A × ℕ) → List (A × ℕ)
  told get_idx x i calls = if get_idx then (x, i) ∷ calls else calls

  abbrev pub telling : Bool → A → ℕ → Run (Sift A) → Run (Sift A)
  telling get_idx x i r = r >>= λ s. ok (record s { calls = told get_idx x i s.calls })

  -- The write of the moved entry, if it moved.
  pub settle : Bool → ℕ → A → Sift A → Run (List A × List (A × ℕ))
  settle get_idx idx ele s =
      if idx == s.hole
      then ok (s.cells, s.calls)
      else do a ← store s.cells s.hole ele; ok (a, s.calls ++ told get_idx ele s.hole [])

module _ {ℓ} {A : Type ℓ} (kc : A → A → ℤ) (raft : Bool) where
  -- `x` ranks strictly below `y`: the test of `hp_down`, on `ret = kc(x, y)`.
  pub below : A → A → Bool
  below x y = raft && is_neg (kc x y) || not raft && is_pos (kc x y)

  -- `x` ranks strictly above `y`: the test of `hp_up`.
  pub above : A → A → Bool
  above x y = raft && is_pos (kc x y) || not raft && is_neg (kc x y)

  -- The child of the hole that may rise: the right one if it is there and the left ranks below it.
  pub pick : List A → ℕ → ℕ → Run ℕ
  pick a used c =
      if ltb c (used - 1)
      then (do x ← load a c; y ← load a (c + 1); ok (if below x y then c + 1 else c))
      else ok c

  pub down_loop : ℕ → Bool → A → ℕ → List A → ℕ → ℕ → Run (Sift A)
  down_loop zero get_idx ele used a tmp c = out_of_fuel
  down_loop (suc f) get_idx ele used a tmp c =
      let step : Run (Sift A) = do
        c' ← pick a used c
        x ← load a c'
        let sink : Run (Sift A) = do
          a' ← store a tmp x
          telling get_idx x tmp (down_loop f get_idx ele used a' c' (lchild c'))
        if below x ele then ok (record { cells = a; hole = tmp; calls = [] }) else sink
      in if ltb c used then step else ok (record { cells = a; hole = tmp; calls = [] })

  -- `hp_down` on an array of which `used` entries count.
  pub hp_down : Bool → ℕ → List A → ℕ → Run (List A × List (A × ℕ))
  hp_down get_idx used a idx = do
    ele ← load a idx
    s ← down_loop (used + 1) get_idx ele used a idx (lchild idx)
    settle get_idx idx ele s

  pub up_loop : ℕ → Bool → A → List A → ℕ → ℕ → Run (Sift A)
  up_loop zero get_idx ele a tmp p = out_of_fuel
  up_loop (suc f) get_idx ele a tmp p =
      let step : Run (Sift A) = do
        x ← load a p
        let rise : Run (Sift A) = do
          a' ← store a tmp x
          telling get_idx x tmp (up_loop f get_idx ele a' p (parent p))
        if above x ele then ok (record { cells = a; hole = tmp; calls = [] }) else rise
      in if ltb 0 tmp then step else ok (record { cells = a; hole = tmp; calls = [] })

  -- `hp_up`.
  pub hp_up : Bool → List A → ℕ → Run (List A × List (A × ℕ))
  hp_up get_idx a idx = do
    ele ← load a idx
    s ← up_loop (idx + 1) get_idx ele a idx (parent idx)
    settle get_idx idx ele s

  -- The loop of `tl_heap_adjust` over the array from `b` on, at `c` and below. The index is unsigned:
  -- below 0 it is `SIZE_MAX`, and `hp_down` reads outside the array.
  pub adjust_loop : ℕ → ℕ → List A → ℕ → Run (List A)
  adjust_loop b used a zero = do (a', _) ← hp_down false used a 0; if b == 0 then ok a' else fault
  adjust_loop b used a (suc c) = do
    (a', _) ← hp_down false used a (suc c)
    if b == suc c then ok a' else adjust_loop b used a' c

  -- `tl_heap_adjust(cont, …, b, e)`.
  pub adjust : List A → ℕ → ℕ → Run (List A)
  adjust cont b e =
      if leb e b || leb (e - b) 1
      then ok cont
      else do a ← adjust_loop b (e - b) (drop b cont) (parent (e - 1)); ok (take b cont ++ a)

  -- `tl_heap_down` and `tl_heap_up`, over an array of `s` entries of the caller's.
  pub heap_down : Bool → List A → ℕ → ℕ → Run (List A × List (A × ℕ))
  heap_down get_idx cont s idx = hp_down get_idx s cont idx

  pub heap_up : Bool → List A → ℕ → ℕ → Run (List A × List (A × ℕ))
  heap_up get_idx cont s idx = hp_up get_idx cont idx
