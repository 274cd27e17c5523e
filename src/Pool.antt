-- ===== src/Pool.antt =====
-- The memory pool of trunk/src/tl_pool.c, with pointers of 8 bytes. A block is the list of its
-- tags in the order of their addresses: a tag's foot, which holds the tag's address, is the step from
-- the right neighbour to it, and the block that a tag names is the one whose list it stands in. A
-- ring `bkt[idx]` is a list of addresses, `bkt[idx]` first. What the blocks hold for the callers is
-- left out.
pub mod Size
pub mod Free
pub mod Alloc
pub mod Layout
pub mod Rings
pub mod Invariant
pub mod Locate
pub mod Refit
pub mod Disjoint
pub mod Calls
pub mod Reach
mod Tests
use common_tool.Base.{
  add_word, sub_word, ℕ, zero, suc, ◌+◌, ◌-◌, ◌*◌, ◌/◌, ◌%◌, ◌^◌, Bool, true, false, List, [], ◌∷◌,
  ◌++◌, Option, none, some, ltb, leb, ◌==◌, if◌then◌else◌, Run, ok, fault, ◌>>=◌, max,
}

-- `sizeof(tl_pool_tag_t)`, `tl_pool_tag_tailS`, `_unuseS` and `_thresh`, `sizeof(tl_pool_blk_t)`,
-- `sizeof(tl_pool_t)` and the place of `blk` in it.
abbrev pub head_s : ℕ
head_s = 32

abbrev pub tail_s : ℕ
tail_s = 16

abbrev pub unuse_s : ℕ
unuse_s = head_s + tail_s - 8

abbrev pub thresh : ℕ
thresh = head_s + tail_s

abbrev pub blk_s : ℕ
blk_s = 24

abbrev pub pool_s : ℕ
pool_s = 312

abbrev pub blk_offset : ℕ
blk_offset = pool_s - blk_s

-- `tl_pagesize`.
abbrev pub pagesize : ℕ
pagesize = 4096

-- `TL_POOL_MAX_INDEX` and `TL_POOL_THRESH_INDEX`.
abbrev pub max_index : ℕ
max_index = 24

abbrev pub thresh_index : ℕ
thresh_index = 9

-- `tl_align(a, p)`, for a power of two `a`.
abbrev pub align : ℕ → ℕ → ℕ
align a p = add_word p (a - 1) / a * a

-- The highest bit that is set among the lowest `n + 1`, as `bsr` finds it.
pub highest : ℕ → ℕ → ℕ
highest zero s = 0
highest (suc n) s = elim (s / 2 == 0) [ true ↦ 0 | false ↦ highest n (s / 2) + 1 ]

-- `tl_pool_size2idx`; `TL_POOL_BASE_INDEX` is 0. `r` is an int, so `bsr` reads the low 32 bits of the
-- size only; where they are all zero it is taken to leave its register, with 0. The comparison is with
-- the whole size. `1 << 31` is negative, which does not matter: that index is past the last in any case.
pub size2idx : ℕ → ℕ
size2idx s =
    let r = highest 31 (s % 2 ^ 32) in
    let r' = if ltb (2 ^ r) s then r + 1 else r in if leb max_index r' then max_index else r'

-- `tl_pool_tag_t`: `use` and `size`.
pub data Tag : Type 0 where
  used unuse : ℕ → Tag

abbrev pub tag_size : Tag → ℕ
tag_size (used n) = n
tag_size (unuse n) = n

abbrev pub total : List Tag → ℕ
total [] = 0
total (t ∷ ts) = tag_size t + total ts

-- `tl_pool_blk_t`, at the address `base`.
pub record Blk : Type 0 where
  pub base : ℕ
  pub size : ℕ
  pub tags : List Tag

pub record Counters : Type 0 where
  pub cnt_alloc : ℕ
  pub cnt_inuse : ℕ
  pub cnt_blk : ℕ
  pub cnt_total_a : ℕ
  pub cnt_l_fail : ℕ
  pub cnt_s_fail_1 : ℕ
  pub cnt_s_fail_2 : ℕ
  pub cnt_l_hit : ℕ
  pub cnt_s_hit_1 : ℕ
  pub cnt_s_hit_2 : ℕ
  pub cnt_s_hit_3 : ℕ
  pub cnt_f_align : ℕ

-- `tl_pool_t`, with its own block at the address `home` and all blocks from there along `nxt`.
pub record Pool : Type 0 where
  pub cnt : Counters
  pub bkt : ℕ → List ℕ
  pub home : ℕ
  pub blks : List Blk

abbrev pub put : (ℕ → List ℕ) → ℕ → List ℕ → ℕ → List ℕ
put f i xs j = if i == j then xs else f j

-- `tl_pool_add_tag`: in front of its ring. `bkt` has `TL_POOL_MAX_INDEX` entries.
pub add_tag : Pool → ℕ → ℕ → Run Pool
add_tag p idx a =
    if ltb idx max_index then ok (record p { bkt = put p.bkt idx (a ∷ p.bkt idx) }) else fault

-- A tag taken out of its ring.
pub unlink : ℕ → List ℕ → Run (List ℕ)
unlink a [] = fault
unlink a (x ∷ xs) = let rest = unlink a xs >>= λ ys. ok (x ∷ ys) in if x == a then ok xs else rest

-- `tl_pool_rm_tag`, of the tag at `a` of the size `n`.
pub rm_tag : Pool → ℕ → ℕ → Run Pool
rm_tag p a n =
    let idx = size2idx n in
    let out : Run Pool = unlink a (p.bkt idx) >>= λ xs. ok (record p { bkt = put p.bkt idx xs }) in
    if ltb idx max_index then out else fault

-- A tag in its place: the blocks before its own, that block, the tags before it in the block, the
-- nearest first, and those after it.
pub record Spot : Type 0 where
  pub front : List Blk
  pub blk : Blk
  pub ls : List Tag
  pub tag : Tag
  pub rs : List Tag
  pub back : List Blk

abbrev pub plug : List Tag → List Tag → List Tag
plug [] ts = ts
plug (l ∷ ls) ts = plug ls (l ∷ ts)

-- The tag at the address `a` of a block, whose tags from `cur` on are given.
pub find_tag : ℕ → ℕ → List Tag → List Tag → Option (List Tag × Tag × List Tag)
find_tag a cur ls [] = none
find_tag a cur ls (t ∷ ts) =
    let rest = find_tag a (cur + tag_size t) (t ∷ ls) ts in
    if cur == a then some (ls, t, ts) else rest

-- What a pointer to a tag points at.
pub locate : ℕ → List Blk → Option Spot
locate a [] = none
locate a (b ∷ bs) = elim (find_tag a (b.base + blk_s) [] b.tags) [
  | some (ls, t, rs) ↦ some (record { front = []; blk = b; ls = ls; tag = t; rs = rs; back = bs })
  | none ↦ elim (locate a bs) [ some s ↦ some (record s { front = b ∷ s.front }) | none ↦ none ]
]

-- The blocks with the tag and those after it in its block replaced.
abbrev pub refill : Spot → List Tag → List Blk
refill s ts = s.front ++ record s.blk { tags = plug s.ls ts } ∷ s.back
