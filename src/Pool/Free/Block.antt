-- ===== src/Pool/Free/Block.antt =====
-- A tag given back: the block goes, or keeps its bounds.
use common_tool.Base.{
  sub_word, ℕ, ◌+◌, ◌^◌, ◌≤◌, ◌<◌, ◌≡◌, ◌≢◌, refl, sym, ◌∙◌, ap, subst, false, List, ◌∷◌, ◌++◌,
  arith, ◌==◌, length, length-append, Returns, returns,
}
use common_tool.Pool.{Tag, used, total, Blk, Counters, Pool, Spot, blk_s}
use common_tool.Pool.Layout.{
  on_used, Vanishes, tally, tally_left, tally_blks, tally_blks-append, free_at_class,
}
use common_tool.Pool.Rings.{Rings}
use common_tool.Pool.Invariant.{
  IsBlk, IsPool, All, All-at, All-remove, AllApart, AllApart-remove, Owned, Owned-remove, used_size,
  sizes, sizes-append, At,
}
use common_tool.Pool.Refit.{tally_blks-at, tally-at, Fits, refit-IsPool}
use common_tool.Pool.Free.{rm_blk}

-- The pool `q` after the tag of the size `n` at the address `a` of `p` was given back: every sum over
-- the used tags with their addresses loses that tag's share and nothing else.
pub record Freed (a n : ℕ) (p q : Pool) : Type 0 where
  pub valid : IsPool q
  pub home : q.home ≡ p.home
  pub kept : (w : ℕ → ℕ → ℕ) → tally_blks (on_used w) q.blks + w a n ≡ tally_blks (on_used w) p.blks

-- The counters while a tag of the size `n` is given back.
abbrev pub freeing : ℕ → Counters → Counters
freeing n c = record c { cnt_inuse = sub_word c.cnt_inuse n }

-- A block is given back.
pub rm_blk-Freed :
    (p q : Pool) (s : Spot) (a n : ℕ)
    → IsPool p
    → At a p.blks s
    → s.blk.base ≢ p.home
    → q.home ≡ p.home
    → q.cnt ≡ freeing n p.cnt
    → n < 2 ^ 64
    → Rings q
        (λ b i. tally_blks (free_at_class b i) s.front + tally_blks (free_at_class b i) s.back)
    → ((w : ℕ → Tag → ℕ) → Vanishes w → tally w (s.blk.base + blk_s) s.blk.tags ≡ w a (used n))
    → Returns (Freed a n p) (rm_blk q s)
unfolding rm_blk
rm_blk-Freed p q s a n v at ne h c small r t =
    let foreign : (s.blk.base == q.home) ≡ false = ground (arith, h) in
    let blks = subst (All (IsBlk p.home)) at.split v.blocks in
    let b = All-at (IsBlk p.home) s.front s.blk s.back blks in
    let kept : (w : ℕ → Tag → ℕ)
        → Vanishes w
        → tally_blks w (s.front ++ s.back) + w a (used n) ≡ tally_blks w p.blks =
      λ w z. omega (
        arith,
        t w z,
        ap (tally_blks w) at.split,
        tally_blks-at w s.front s.blk s.back,
        tally_blks-append w s.front s.back,
      ) in
    rw foreign (
      returns (record {
        valid = record {
          blocks =
              subst (λ x. All (IsBlk x) (s.front ++ s.back)) (sym h)
                (All-remove (IsBlk p.home) s.front s.blk s.back blks);
          apart = AllApart-remove s.front s.blk s.back (subst AllApart at.split v.apart);
          owned =
              subst (λ x. Owned x (s.front ++ s.back)) (sym h)
                (Owned-remove p.home s.front s.blk s.back ne
                  (subst (Owned p.home) at.split v.owned));
          rings = λ b i. r b i ∙ sym (tally_blks-append (free_at_class b i) s.front s.back);
          inuse = omega (arith, ap (λ x. x.cnt_inuse) c, v.inuse, kept used_size (λ c n. refl));
          alloc = omega (
            arith,
            ap (λ x. x.cnt_alloc) c,
            v.alloc,
            b.fits,
            ap sizes at.split,
            sizes-append s.front (s.blk ∷ s.back),
            sizes-append s.front s.back,
          );
          counted = omega (
            arith,
            ap (λ x. x.cnt_blk) c,
            v.counted,
            ap length at.split,
            length-append s.front (s.blk ∷ s.back),
            length-append s.front s.back,
          );
        };
        home = h;
        kept = λ w. kept (on_used w) (λ c n. refl);
      }))

-- A block keeps its bounds and gets other tags.
pub refit-Freed :
    (p q : Pool) (s : Spot) (a n : ℕ) (ts : List Tag)
    → IsPool p
    → At a p.blks s
    → s.tag ≡ used n
    → n ≤ 2 ^ 23
    → q.cnt ≡ freeing n p.cnt
    → (tally_blks used_size (s.front ++ record s.blk { tags = ts } ∷ s.back) + n
          ≡ tally_blks used_size p.blks
        → Fits p q s ts)
    → ((w : ℕ → Tag → ℕ)
        → Vanishes w
        → tally w (s.blk.base + blk_s) ts
          ≡ tally_left w (s.blk.base + blk_s) s.ls
            + tally w (s.blk.base + blk_s + total s.ls + n) s.rs)
    → Freed a n p (record q { blks = s.front ++ record s.blk { tags = ts } ∷ s.back })
refit-Freed p q s a n ts v at e bound c fits t =
    let b' : Blk = record s.blk { tags = ts } in
    let kept : (w : ℕ → Tag → ℕ)
        → Vanishes w
        → tally_blks w (s.front ++ b' ∷ s.back) + w a (used n) ≡ tally_blks w p.blks =
      λ w z. omega (
        arith,
        t w z,
        tally-at a (used n) p.blks s at e w,
        ap (tally_blks w) at.split,
        tally_blks-at w s.front s.blk s.back,
        tally_blks-at w s.front b' s.back,
      ) in
    let f = fits (kept used_size (λ c n. refl)) in
    record {
      valid = refit-IsPool a p q s ts v at f;
      home = f.home;
      kept = λ w. kept (on_used w) (λ c n. refl);
    }
