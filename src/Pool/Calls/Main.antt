-- ===== src/Pool/Calls/Main.antt =====
-- What callers of the pool rely on: a new pool, memory given back, and `tl_pool_realloc`.
use common_tool.Base.{
  ℕ, ◌+◌, ◌-◌, ◌≡◌, ◌⊎◌, inl, refl, sym, ap, subst, [], ◌∷◌, Option, none, some, arith, min, length,
  Returns, returns, Returns-bind,
}
use common_tool.Pool.{
  unuse, Blk, Pool, head_s, blk_s, blk_offset, unuse_s, pool_s, pagesize, size2idx, highest,
}
use common_tool.Pool.Layout.{tally_blks, on_used, free_at_class, mark}
use common_tool.Pool.Rings.{add_tag-Rings}
use common_tool.Pool.Invariant.{IsPool, IsBlk, All, AllApart, Owned, used_size, sizes}
use common_tool.Pool.Calls.{init}
use common_tool.Pool.Alloc.Part.{Taken}
use common_tool.Pool.Alloc.Fresh.{Fresh}

-- A valid pool without used tags.
abbrev pub Begun : ℕ → Option Pool → Type 0
Begun tp none = ⊥
Begun tp (some p) = IsPool p × ((w : ℕ → ℕ → ℕ) → tally_blks (on_used w) p.blks ≡ 0)

page_tag : size2idx (pagesize - pool_s) ≡ 12
unfolding size2idx highest
page_tag = refl

-- Where the system hands out a page, `tl_pool_init` returns a valid pool without used tags.
pub init-IsPool : (tp : ℕ) → Returns (Begun tp) (init (some tp))
unfolding init
init-IsPool tp =
    let n = pagesize - pool_s in
    Returns-bind
      (add_tag-Rings _ (λ a i. 0) (tp + pool_s) (size2idx n) (omega (arith, page_tag))
        (λ a i. refl))
      λ q (same, rings).
        let own : Blk = record { base = tp + blk_offset; size = n + blk_s; tags = unuse n ∷ [] } in
        let place : tp + blk_offset + blk_s ≡ tp + pool_s = omega arith in
        let filled : IsBlk (tp + blk_offset) own = record {
          sized = refl;
          fits = omega arith;
          positive = (omega arith, tt);
          merged = tt;
          kind = inl (omega arith);
        } in
        let valid : IsPool q = record {
          blocks =
              subst (λ h. All (IsBlk h) q.blks) (sym same.home)
                (subst (All (IsBlk (tp + blk_offset))) (sym same.blks) (filled, tt));
          apart = subst AllApart (sym same.blks) (tt, tt);
          owned =
              subst (λ h. Owned h q.blks) (sym same.home)
                (subst (Owned (tp + blk_offset)) (sym same.blks) refl);
          rings = λ a i. omega (
            arith,
            rings a i,
            ap (tally_blks (free_at_class a i)) same.blks,
            ap (λ c. mark c (size2idx n) a i) place,
          );
          inuse =
              omega (arith, ap (λ c. c.cnt_inuse) same.cnt, ap (tally_blks used_size) same.blks);
          alloc = omega (arith, ap (λ c. c.cnt_alloc) same.cnt, ap sizes same.blks);
          counted = omega (arith, ap (λ c. c.cnt_blk) same.cnt, ap length same.blks);
        } in
        returns (valid, λ w. ap (tally_blks (on_used w)) same.blks)

-- What `tl_pool_realloc` of a used tag of the size `n` does: NULL from the allocator leaves it as it
-- was; otherwise a tag is made beside it, which stays used.
abbrev pub Moved : (ℕ → Option ℕ) → Pool → ℕ → ℕ → ℕ → Pool × ℕ × ℕ → Type 0
Moved sys p addr n size (q, na, copied) =
    ((q.blks ≡ p.blks) × (na ≡ addr) × (copied ≡ 0) × ((asked : ℕ) × (sys asked ≡ none)))
    ⊎ ((a : ℕ) × (na ≡ a + head_s) × (copied ≡ min size n) × Taken (size + unuse_s) p q a)
