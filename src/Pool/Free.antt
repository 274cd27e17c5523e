-- ===== src/Pool/Free.antt =====
-- tl_pool_free of trunk/src/tl_pool.c, with tl_pool_tag_free and tl_pool_rm_blk.
pub mod Merge
pub mod Loop
pub mod Block
pub mod Main
use common_tool.Base.{
  sub_word, ℕ, ◌+◌, ◌-◌, Bool, true, false, List, [], ◌∷◌, ◌++◌, Option, none, some, ltb, ◌==◌,
  if◌then◌else◌, Run, ok, fault, ◌>>=◌, or_fault,
}
use common_tool.Pool.{
  Tag, used, unuse, Blk, Pool, Spot, head_s, max_index, size2idx, add_tag, rm_tag, plug, locate,
  refill, total, blk_s,
}

-- The end of the loop: the tag, with no unused neighbour, goes into its ring.
pub settle : Pool → List Tag → ℕ → ℕ → List Tag → Run (Pool × Option (List Tag))
settle p ls a n rs = add_tag p (size2idx n) a >>= λ q. ok (q, some (plug ls (unuse n ∷ rs)))

-- The loop of `tl_pool_tag_free`, at the tag of the size `n` at the address `a`: the pool, and the tags
-- of the block; `none` is a block that is given back, which the pool's own is not.
pub free_loop : Bool → Pool → List Tag → ℕ → ℕ → List Tag → Run (Pool × Option (List Tag))
free_loop true p [] a n [] = settle p [] a n []
free_loop false p [] a n [] = ok (p, none)
free_loop own p [] a n (used m ∷ rs) = settle p [] a n (used m ∷ rs)
free_loop own p [] a n (unuse m ∷ rs) = rm_tag p (a + n) m >>= λ q. free_loop own q [] a (n + m) rs
free_loop own p (used k ∷ ls) a n [] = settle p (used k ∷ ls) a n []
free_loop own p (unuse k ∷ ls) a n [] =
    rm_tag p (a - k) k >>= λ q. free_loop own q ls (a - k) (k + n) []
free_loop own p (used k ∷ ls) a n (used m ∷ rs) = settle p (used k ∷ ls) a n (used m ∷ rs)
free_loop own p (used k ∷ ls) a n (unuse m ∷ rs) =
    rm_tag p (a + n) m >>= λ q. free_loop own q (used k ∷ ls) a (n + m) rs
free_loop own p (unuse k ∷ ls) a n (used m ∷ rs) =
    rm_tag p (a - k) k >>= λ q. free_loop own q ls (a - k) (k + n) (used m ∷ rs)
free_loop own p (unuse k ∷ ls) a n (unuse m ∷ rs) = rm_tag p (a - k) k >>= λ q.
    rm_tag q (a + n) m >>= λ r. free_loop own r ls (a - k) (k + n + m) rs

-- `tl_pool_rm_blk`: without the block of the spot; the pool's own is a failed assertion.
pub rm_blk : Pool → Spot → Run Pool
rm_blk p s =
    let q : Pool = record p {
      blks = s.front ++ s.back;
      cnt = record p.cnt {
        cnt_alloc = sub_word p.cnt.cnt_alloc s.blk.size;
        cnt_blk = sub_word p.cnt.cnt_blk 1;
      };
    } in
    if s.blk.base == p.home then fault else ok q

-- `tl_pool_tag_free`.
pub tag_free : Pool → Spot → ℕ → ℕ → Run Pool
tag_free p s a n = free_loop (s.blk.base == p.home) p s.ls a n s.rs >>= λ (q, o). elim o [
  | none ↦ rm_blk q s
  | some ts ↦ ok (record q { blks = s.front ++ record s.blk { tags = ts } ∷ s.back })
]

-- tl_pool_free behind the lookup of the tag at `a`; a failed assertion where the tag is not used. In
-- the last class the code takes what stands before the tag for its block, as it is in a valid pool.
pub free_at : Pool → Spot → Tag → ℕ → Run Pool
free_at p s (unuse n) a = fault
free_at p s (used n) a =
    let q : Pool = record p { cnt = record p.cnt { cnt_inuse = sub_word p.cnt.cnt_inuse n } } in
    if size2idx n == max_index then rm_blk q s else tag_free q s a n

-- tl_pool_free; the address 0 is NULL, and one that is no tag's is a fault.
pub free : Pool → ℕ → Run Pool
free p addr =
    let found =
      or_fault (locate (addr - head_s) p.blks) >>= λ s. free_at p s s.tag (addr - head_s) in
    if addr == 0 then ok p else found
