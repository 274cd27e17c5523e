-- ===== src/Pool/Alloc.antt =====
-- tl_pool_alloc of trunk/src/tl_pool.c, with tl_pool_tag_alloc, tl_pool_alloc_large, tl_pool_add_blk,
-- `sys` is `tl_memalign` during the
-- call: an address for a size, or NULL.
pub mod Part
pub mod Take
pub mod Answer
pub mod Fresh
pub mod Choose
pub mod Link
pub mod Main
use common_tool.Base.{
  add_word, ℕ, zero, suc, ◌+◌, ◌-◌, ◌*◌, ◌/◌, ◌%◌, ◌^◌, Bool, true, false, List, [], ◌∷◌, ◌++◌,
  Option, none, some, ltb, leb, ◌==◌, if◌then◌else◌, max, min, Run, ok, fault, ◌>>=◌, or_fault,
}
use common_tool.Pool.{
  Tag, used, unuse, tag_size, Blk, Counters, Pool, Spot, head_s, unuse_s, thresh, blk_s, pool_s,
  blk_offset, max_index, thresh_index, pagesize, align, size2idx, put, add_tag, rm_tag, locate,
  refill,
}
use common_tool.Pool.Free.{free}

-- `tl_pool_tag_alloc` behind its first test: the tag is taken whole, or its first part is and the
-- rest becomes a tag of its own.
unfoldable pub take_tag : Pool → Spot → ℕ → ℕ → ℕ → Run (Pool × ℕ)
take_tag p s a raw n = do
  q ← rm_tag p a raw
  let whole : Pool = record q {
    blks = refill s (used raw ∷ s.rs);
    cnt = record q.cnt { cnt_inuse = add_word q.cnt.cnt_inuse raw };
  }
  let part : Pool = record q {
    blks = refill s (used n ∷ unuse (raw - n) ∷ s.rs);
    cnt = record q.cnt { cnt_inuse = add_word q.cnt.cnt_inuse n };
  }
  let split : Run (Pool × ℕ) = add_tag part (size2idx (raw - n)) (a + n) >>= λ r. ok (r, a + head_s)
  if leb (raw - n) thresh then ok (whole, a + head_s) else split

-- `tl_pool_tag_alloc` on the tag at `a`: `none` is NULL.
unfoldable pub tag_alloc : Pool → ℕ → ℕ → Run (Option (Pool × ℕ))
tag_alloc p a n = do
  s ← or_fault (locate a p.blks)
  let take : Run (Option (Pool × ℕ)) = take_tag p s a (tag_size s.tag) n >>= λ r. ok (some r)
  if ltb (tag_size s.tag) n then ok none else take

-- The loop over the buckets: the first tag, and the index after it.
unfoldable pub scan : (ℕ → List ℕ) → ℕ → ℕ → Option ℕ × ℕ
scan bkt zero idx = (none, idx)
scan bkt (suc left) idx = elim (bkt idx) [
  | a ∷ more ↦ (some a, idx + 1)
  | [] ↦ scan bkt left (idx + 1)
]

-- The choice of a tag behind `L_tryagain`, and `idx` after it.
unfoldable pub choose : (ℕ → List ℕ) → ℕ → Option ℕ × ℕ
choose bkt idx =
    let look = elim (bkt idx) as (λ _. Option ℕ × ℕ) [
      | a ∷ more ↦ (some a, idx)
      | [] ↦ scan bkt (max_index - idx) idx
    ] in
    if leb max_index idx then (none, idx) else look

-- The loop over the rest of the last ring.
pub ring_alloc : Pool → List ℕ → ℕ → Run (Option (Pool × ℕ))
ring_alloc p [] n = ok none
ring_alloc p (a ∷ more) n =
    let rest = ring_alloc p more n in
    tag_alloc p a n >>= λ o. elim o [ some r ↦ ok (some r) | none ↦ rest ]

-- A block linked in behind the pool's own.
abbrev pub link : Blk → List Blk → List Blk
link b [] = b ∷ []
link b (own ∷ bs) = own ∷ b ∷ bs

-- `tl_pool_add_blk`.
pub add_blk : Pool → Blk → Pool
add_blk p b = record p {
  blks = link b p.blks;
  cnt = record p.cnt {
    cnt_blk = add_word p.cnt.cnt_blk 1;
    cnt_alloc = add_word p.cnt.cnt_alloc b.size;
  };
}

-- `tl_pool_alloc_large` behind the call of the system, which answers the address.
pub large_blk : Pool → ℕ → Option ℕ → Pool × Option ℕ
large_blk p size none =
    (record p { cnt = record p.cnt { cnt_l_fail = add_word p.cnt.cnt_l_fail 1 } }, none)
large_blk p size (some base) =
    let q = add_blk p (record { base = base; size = size; tags = used (size - blk_s) ∷ [] }) in
    (
      record q {
        cnt = record q.cnt {
          cnt_inuse = add_word q.cnt.cnt_inuse (size - blk_s);
          cnt_l_hit = add_word q.cnt.cnt_l_hit 1;
        };
      },
      some (base + blk_s + head_s),
    )

-- `tl_pool_alloc_large`.
pub alloc_large : (ℕ → Option ℕ) → Pool → ℕ → Pool × Option ℕ
alloc_large sys p n = let size = align 8 (add_word n blk_s) in large_blk p size (sys size)

-- What follows the head of a ring.
abbrev pub tail : List ℕ → List ℕ
tail [] = []
tail (a ∷ more) = more

-- The size of a new block for a tag of the size `n`.
pub blk_size : ℕ → ℕ
blk_size n =
    let idx = size2idx (n + blk_s) in
    if ltb idx thresh_index
    then pagesize
    else if ltb idx max_index
    then align pagesize (n + blk_s)
    else n + blk_s

-- A new block of the size `size` at `base` for a tag of the size `n`.
pub use_blk : Pool → ℕ → ℕ → ℕ → Run (Pool × Option ℕ)
use_blk p base size n = do
  let q = add_blk p (record { base = base; size = size; tags = unuse (size - blk_s) ∷ [] })
  r ← add_tag q (size2idx (size - blk_s)) (base + blk_s)
  o ← tag_alloc r (base + blk_s) n
  (t, addr) ← or_fault o
  ok (record t { cnt = record t.cnt { cnt_s_hit_3 = add_word t.cnt.cnt_s_hit_3 1 } }, some addr)

-- The part of `tl_pool_alloc` that asks the system; a small block is tried a second time, smaller.
pub alloc_sys : (ℕ → Option ℕ) → Pool → ℕ → Run (Pool × Option ℕ)
alloc_sys sys p n =
    let idx = size2idx (n + blk_s) in
    let fail_1 : Pool = record p {
      cnt = record p.cnt { cnt_s_fail_1 = add_word p.cnt.cnt_s_fail_1 1 };
    } in
    let fail_2 : Pool = record p {
      cnt = record p.cnt { cnt_s_fail_2 = add_word p.cnt.cnt_s_fail_2 1 };
    } in
    let again : Run (Pool × Option ℕ) = elim (sys (2 ^ idx)) [
      | none ↦ ok (fail_2, none)
      | some base ↦ use_blk p base (2 ^ idx) n
    ] in
    let ask : Run (Pool × Option ℕ) = elim (sys (blk_size n)) [
      | some base ↦ use_blk p base (blk_size n) n
      | none ↦ if ltb idx thresh_index then again else ok (fail_1, none)
    ] in
    if leb (n + blk_s) (blk_size n) then ask else fault

-- The loop over the last ring is done, and the next try finds no tag.
pub after_ring : (ℕ → Option ℕ) → Pool → ℕ → Option (Pool × ℕ) → Run (Pool × Option ℕ)
after_ring sys p n none = alloc_sys sys p n
after_ring sys p n (some (q, addr)) =
    ok (record q { cnt = record q.cnt { cnt_s_hit_2 = add_word q.cnt.cnt_s_hit_2 1 } }, some addr)

-- What `tl_pool_tag_alloc` answered for the first tag.
unfoldable pub after_first :
    (ℕ → Option ℕ) → Pool → ℕ → ℕ → Option (Pool × ℕ) → Run (Pool × Option ℕ)
after_first sys p n at none =
    let rest = ring_alloc p (tail (p.bkt at)) n >>= after_ring sys p n in
    if at == max_index - 1 then rest else fault
after_first sys p n at (some (q, addr)) =
    ok (record q { cnt = record q.cnt { cnt_s_hit_1 = add_word q.cnt.cnt_s_hit_1 1 } }, some addr)

unfoldable pub serve : (ℕ → Option ℕ) → Pool → ℕ → Option ℕ × ℕ → Run (Pool × Option ℕ)
serve sys p n (none, at) = alloc_sys sys p n
serve sys p n (some a, at) = tag_alloc p a n >>= after_first sys p n at

-- The part of `tl_pool_alloc` from `L_tryagain` on.
unfoldable pub alloc_small : (ℕ → Option ℕ) → Pool → ℕ → ℕ → Run (Pool × Option ℕ)
alloc_small sys p n idx = serve sys p n (choose p.bkt idx)

-- The size of the tag for `acts` bytes.
unfoldable pub need : ℕ → ℕ
need acts = max (add_word (align 8 acts) unuse_s) thresh

-- tl_pool_alloc: the pool, and the address, or `none` for NULL.
unfoldable pub alloc : (ℕ → Option ℕ) → Pool → ℕ → Run (Pool × Option ℕ)
alloc sys p acts =
    let q : Pool = record p { cnt = record p.cnt { cnt_total_a = add_word p.cnt.cnt_total_a 1 } } in
    let n = need acts in
    let idx = size2idx n in
    let small = alloc_small sys q n (if ltb idx (max_index - 1) then idx + 1 else idx) in
    if acts == 0 then ok (p, none) else if idx == max_index then ok (alloc_large sys q n) else small
