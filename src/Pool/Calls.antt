-- ===== src/Pool/Calls.antt =====
-- tl_pool_init, tl_pool_destroy, tl_pool_calloc, tl_pool_realloc and tl_pool_static of
-- trunk/src/tl_pool.c. `sys` is `tl_memalign` during the call.
pub mod Trace
pub mod Main
pub mod Apart
use common_tool.Base.{
  add_word, ℕ, zero, suc, ◌+◌, ◌-◌, ◌*◌, ◌/◌, ◌%◌, ◌^◌, Bool, true, false, List, [], ◌∷◌, ◌++◌,
  Option, none, some, ltb, leb, ◌==◌, if◌then◌else◌, max, min, Run, ok, fault, ◌>>=◌, or_fault,
  load,
}
use common_tool.Pool.{
  Tag, used, unuse, tag_size, Blk, Counters, Pool, Spot, head_s, unuse_s, thresh, blk_s, pool_s,
  blk_offset, max_index, thresh_index, pagesize, align, size2idx, put, add_tag, rm_tag, locate,
  refill,
}
use common_tool.Pool.Free.{free}
use common_tool.Pool.Alloc.{alloc}

-- tl_pool_calloc, without the zeroes that are written.
pub calloc : (ℕ → Option ℕ) → Pool → ℕ → ℕ → Run (Pool × Option ℕ)
calloc sys p n size = alloc sys p (size * n % 2 ^ 64)

-- tl_pool_realloc: the pool, the address, and how many bytes are copied to it.
pub realloc : (ℕ → Option ℕ) → Pool → ℕ → ℕ → Run (Pool × ℕ × ℕ)
realloc sys p addr size =
    let drop_it : Run (Pool × ℕ × ℕ) = free p addr >>= λ q. ok (q, 0, 0) in
    let move : Run (Pool × ℕ × ℕ) = alloc sys p size >>= λ (q, o). elim o [
      | none ↦ ok (q, addr, 0)
      | some na ↦
          let copy : Run (Pool × ℕ × ℕ) = or_fault (locate (addr - head_s) q.blks) >>= λ s.
          ok (q, na, min size (tag_size s.tag)) in
          if addr == 0 then ok (q, na, 0) else copy
    ] in
    if size == 0 then drop_it else move

-- tl_pool_init at the address that `tl_memalign` returns: one tag in the pool's own block.
unfoldable pub init : Option ℕ → Run (Option Pool)
init none = ok none
init (some tp) =
    let n = pagesize - pool_s in
    let p : Pool = record {
      cnt = record {
        cnt_alloc = pagesize;
        cnt_inuse = 0;
        cnt_blk = 1;
        cnt_total_a = 0;
        cnt_l_fail = 0;
        cnt_s_fail_1 = 0;
        cnt_s_fail_2 = 0;
        cnt_l_hit = 0;
        cnt_s_hit_1 = 0;
        cnt_s_hit_2 = 0;
        cnt_s_hit_3 = 0;
        cnt_f_align = 0;
      };
      bkt = λ idx. [];
      home = tp + blk_offset;
      blks = record { base = tp + blk_offset; size = n + blk_s; tags = unuse n ∷ [] } ∷ [];
    } in
    add_tag p (size2idx n) (tp + pool_s) >>= λ q. ok (some q)

-- What follows the pool's own block.
abbrev tail_blks : List Blk → List Blk
tail_blks [] = []
tail_blks (own ∷ bs) = bs

-- The loop of tl_pool_destroy: the addresses given back, where `prev` is the last that was passed.
pub destroy_loop : ℕ → List Blk → List ℕ
destroy_loop prev [] = prev ∷ []
destroy_loop prev (b ∷ bs) = prev ∷ destroy_loop b.base bs

-- tl_pool_destroy: from `blk.nxt` on, which is the pool's own block again at the end.
pub destroy : Pool → List ℕ
destroy p = destroy_loop (p.home - blk_offset) (tail_blks p.blks)

-- `cnt`, the counters as an array.
pub counters : Counters → List ℕ
counters c =
    c.cnt_alloc ∷ c.cnt_inuse ∷ c.cnt_blk ∷ c.cnt_total_a ∷ c.cnt_l_fail ∷ c.cnt_s_fail_1
    ∷ c.cnt_s_fail_2 ∷ c.cnt_l_hit ∷ c.cnt_s_hit_1 ∷ c.cnt_s_hit_2 ∷ c.cnt_s_hit_3 ∷ c.cnt_f_align
    ∷ []

-- tl_pool_static; the bound is the size of the array in bytes.
pub static : Pool → ℕ → Run ℕ
static p idx =
    let there = load (counters p.cnt) idx in if leb (12 * 8) idx then ok (2 ^ 64 - 1) else there

-- `tl_pool_alloc`, and the memory given back at once.
abbrev pub alloc_then_free : (ℕ → Option ℕ) → Pool → ℕ → Run Pool
alloc_then_free sys p acts =
    alloc sys p acts >>= λ (q, o). elim o [ none ↦ ok q | some addr ↦ free q addr ]
