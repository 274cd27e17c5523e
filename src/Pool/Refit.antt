-- ===== src/Pool/Refit.antt =====
-- The tags of one block of a pool replaced by others that fill it.
use common_tool.Base.{
  ℕ, ◌+◌, ◌%◌, ◌^◌, ◌≤◌, ◌≡◌, inl, refl, sym, ◌∙◌, ap, subst, List, ◌∷◌, ◌++◌, arith, length,
  length-append,
}
use common_tool.Pool.{Tag, tag_size, total, Blk, Pool, Spot, plug, blk_s}
use common_tool.Pool.Layout.{
  tally, tally_left, tally_blks, tally_blks-append, tally-plug, total-plug, IsMerged, Positive,
  free_at_class,
}
use common_tool.Pool.Rings.{Rings}
use common_tool.Pool.Invariant.{
  IsBlk, IsPool, All, All-replace, AllApart, AllApart-replace, Owned, Owned-replace, used_size,
  sizes, sizes-append, At,
}

pub tally_blks-at :
    (w : ℕ → Tag → ℕ) (f : List Blk) (b : Blk) (k : List Blk)
    → tally_blks w (f ++ b ∷ k) ≡ tally_blks w f + tally w (b.base + blk_s) b.tags + tally_blks w k
tally_blks-at w f b k = omega (arith, tally_blks-append w f (b ∷ k))

module _ (a : ℕ) (t : Tag) (bs : List Blk) (s : Spot) (at : At a bs s) (e : s.tag ≡ t) where
  pub spot_tags : s.blk.tags ≡ plug s.ls (t ∷ s.rs)
  spot_tags = at.tags ∙ ap (λ x. plug s.ls (x ∷ s.rs)) e

  pub spot_size : total s.blk.tags ≡ total s.ls + tag_size t + total s.rs
  spot_size = omega (arith, ap total spot_tags, total-plug s.ls (t ∷ s.rs))

  pub tally-at :
      (w : ℕ → Tag → ℕ)
      → tally w (s.blk.base + blk_s) s.blk.tags
        ≡ tally_left w (s.blk.base + blk_s) s.ls
          + w a t
          + tally w (s.blk.base + blk_s + total s.ls + tag_size t) s.rs
  tally-at w = omega (
    arith,
    ap (tally w (s.blk.base + blk_s)) spot_tags,
    tally-plug w (s.blk.base + blk_s) s.ls (t ∷ s.rs),
    ap (λ c. w c t) at.place,
  )

-- What the tags that are new have to satisfy.
pub record Fits (p q : Pool) (s : Spot) (ts : List Tag) : Type 0 where
  pub home : q.home ≡ p.home
  pub alloc : q.cnt.cnt_alloc ≡ p.cnt.cnt_alloc
  pub counted : q.cnt.cnt_blk ≡ p.cnt.cnt_blk
  pub small : total s.blk.tags ≤ 2 ^ 23
  pub size : total ts ≡ total s.blk.tags
  pub merged : IsMerged ts
  pub positive : Positive ts
  pub rings : Rings q (λ b i.
      tally_blks (free_at_class b i) s.front
      + tally_blks (free_at_class b i) s.back
      + tally (free_at_class b i) (s.blk.base + blk_s) ts)
  pub inuse :
      q.cnt.cnt_inuse
      ≡ tally_blks used_size (s.front ++ record s.blk { tags = ts } ∷ s.back) % 2 ^ 64

pub refit-IsPool :
    (a : ℕ) (p q : Pool) (s : Spot) (ts : List Tag)
    → IsPool p
    → At a p.blks s
    → Fits p q s ts
    → IsPool (record q { blks = s.front ++ record s.blk { tags = ts } ∷ s.back })
refit-IsPool a p q s ts v at f =
    let b' : Blk = record s.blk { tags = ts } in
    record {
      blocks =
          subst (λ x. All (IsBlk x) (s.front ++ b' ∷ s.back)) (sym f.home)
            (All-replace (IsBlk p.home) s.front s.blk b' s.back
              (λ b. record {
                sized = omega (arith, b.sized, f.size);
                fits = b.fits;
                positive = f.positive;
                merged = f.merged;
                kind = inl (omega (arith, f.size, f.small));
              })
              (subst (All (IsBlk p.home)) at.split v.blocks));
      apart = AllApart-replace s.front s.blk b' s.back refl refl (subst AllApart at.split v.apart);
      owned =
          subst (λ x. Owned x (s.front ++ b' ∷ s.back)) (sym f.home)
            (Owned-replace p.home s.front s.blk b' s.back refl
              (subst (Owned p.home) at.split v.owned));
      rings =
          λ b i. omega (arith, f.rings b i, tally_blks-at (free_at_class b i) s.front b' s.back);
      inuse = f.inuse;
      alloc = omega (
        arith,
        f.alloc,
        v.alloc,
        ap sizes at.split,
        sizes-append s.front (s.blk ∷ s.back),
        sizes-append s.front (b' ∷ s.back),
      );
      counted = omega (
        arith,
        f.counted,
        v.counted,
        ap length at.split,
        length-append s.front (s.blk ∷ s.back),
        length-append s.front (b' ∷ s.back),
      );
    }
