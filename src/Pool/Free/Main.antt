-- ===== src/Pool/Free/Main.antt =====
-- `tl_pool_free` as a whole: the invariant, and the used tags before and after.
use common_tool.Base.{
  ℕ, ◌+◌, ◌-◌, ◌^◌, ◌≤◌, ◌<◌, ◌≡◌, ◌≢◌, inl, inr, refl, sym, ◌∙◌, ap, subst, false, List, [], ◌∷◌,
  ◌++◌, Option, none, some, arith, ◌==◌, ok, Returns, returns, Returns-bind, Returns-if,
}
use common_tool.Pool.{
  Tag, used, tag_size, total, Pool, Spot, plug, locate, head_s, blk_s, size2idx, max_index,
}
use common_tool.Pool.Size.{size2idx-small, size2idx-small_inv}
use common_tool.Pool.Layout.{
  tally, tally_blks, total-plug, plug-lone, IsMerged, IsMerged-parts, Positive, Positive-parts,
  free_at_class,
}
use common_tool.Pool.Invariant.{IsBlk, IsPool, All, All-at, At}
use common_tool.Pool.Refit.{tally_blks-at, tally-at, spot_size}
use common_tool.Pool.Locate.{locate-At}
use common_tool.Pool.Free.Loop.{free_loop-Outcome}
use common_tool.Pool.Free.Merge.{Outcome, Ready}
use common_tool.Pool.Free.{rm_blk, tag_free, free_at, free}
use common_tool.Pool.Free.Block.{Freed, freeing, rm_blk-Freed, refit-Freed}

-- The tags around one that is found, as the loop needs them.
spot-Ready :
    (p : Pool) (s : Spot) (a n : ℕ)
    → IsPool p
    → At a p.blks s
    → s.tag ≡ used n
    → total s.blk.tags ≤ 2 ^ 23
    → Ready
        (s.blk.base == p.home)
        (s.blk.base + blk_s)
        (λ b i. tally_blks (free_at_class b i) s.front + tally_blks (free_at_class b i) s.back)
        (record p { cnt = freeing n p.cnt })
        s.ls
        a
        n
        s.rs
spot-Ready p s a n v at e small =
    let b =
      All-at (IsBlk p.home) s.front s.blk s.back (subst (All (IsBlk p.home)) at.split v.blocks) in
    let whole : s.blk.tags ≡ plug s.ls (used n ∷ s.rs) =
      at.tags ∙ ap (λ t. plug s.ls (t ∷ s.rs)) e in
    let merged = IsMerged-parts s.ls (used n) s.rs (subst IsMerged whole b.merged) in
    let positive = Positive-parts s.ls (used n ∷ s.rs) (subst Positive whole b.positive) in
    record {
      place = at.place;
      small = omega (arith, small, ap total whole, total-plug s.ls (used n ∷ s.rs));
      some_size = positive.1.0;
      left_ok = merged.0;
      right_ok = merged.1;
      left_positive = positive.0;
      right_positive = positive.1.1;
      rings = λ b i.
          v.rings b i
          ∙ omega (
            arith,
            ap (tally_blks (free_at_class b i)) at.split,
            tally_blks-at (free_at_class b i) s.front s.blk s.back,
            tally-at a (used n) p.blks s at e (free_at_class b i),
            ap (λ c. tally (free_at_class b i) (c + n) s.rs) at.place,
          );
    }

-- A lone tag fills its block.
lone-At :
    (p : Pool) (s : Spot) (a n m : ℕ)
    → At a p.blks s
    → s.tag ≡ used n
    → s.blk.tags ≡ used m ∷ []
    → (a ≡ s.blk.base + blk_s) × (m ≡ n)
lone-At p s a n m at e l =
    let one =
      plug-lone s.ls (used n) (used m) s.rs
        (sym (at.tags ∙ ap (λ t. plug s.ls (t ∷ s.rs)) e) ∙ l) in
    (omega (arith, at.place, one.0), sym (ap tag_size one.1))

lone-Freed :
    (p : Pool) (s : Spot) (a n m : ℕ)
    → IsPool p
    → At a p.blks s
    → s.tag ≡ used n
    → s.blk.tags ≡ used m ∷ []
    → s.blk.base ≢ p.home
    → Returns (Freed a n p) (rm_blk (record p { cnt = freeing n p.cnt }) s)
lone-Freed p s a n m v at e l ne =
    let start = s.blk.base + blk_s in
    let b =
      All-at (IsBlk p.home) s.front s.blk s.back (subst (All (IsBlk p.home)) at.split v.blocks) in
    let one = lone-At p s a n m at e l in
    rm_blk-Freed p (record p { cnt = freeing n p.cnt }) s a n v at ne refl refl
      (omega (arith, b.fits, b.sized, ap total l, one.1))
      (λ c i.
        v.rings c i
        ∙ omega (
          arith,
          ap (tally_blks (free_at_class c i)) at.split,
          tally_blks-at (free_at_class c i) s.front s.blk s.back,
          ap (tally (free_at_class c i) start) l,
        ))
      (λ w z. omega (
        arith,
        ap (tally w start) l,
        ap (λ x. w x (used n)) one.0,
        ap (λ x. w start (used x)) one.1,
      ))

-- What follows the loop.
finish-Freed :
    (p : Pool) (s : Spot) (a n : ℕ)
    → IsPool p
    → At a p.blks s
    → s.tag ≡ used n
    → total s.blk.tags ≤ 2 ^ 23
    → (r : Pool × Option (List Tag))
    → Outcome
        (s.blk.base == p.home)
        (s.blk.base + blk_s)
        (λ b i. tally_blks (free_at_class b i) s.front + tally_blks (free_at_class b i) s.back)
        (record p { cnt = freeing n p.cnt })
        s.ls
        n
        s.rs
        r
    → Returns (Freed a n p) (elim r.1 [
      | none ↦ rm_blk r.0 s
      | some ts ↦ ok (record r.0 { blks = s.front ++ record s.blk { tags = ts } ∷ s.back })
    ])
finish-Freed p s a n v at e small (q, none) o =
    rm_blk-Freed p q s a n v at (λ h. absurd (ground (arith, h, o.foreign))) o.same.home o.same.cnt
      (omega (arith, small, spot_size a (used n) p.blks s at e)) o.rings
      (λ w z. omega (arith, tally-at a (used n) p.blks s at e w, o.kept w z))
finish-Freed p s a n v at e small (q, some ts) o =
    let size = spot_size a (used n) p.blks s at e in
    returns (
      refit-Freed p q s a n ts v at e (omega (arith, small, size)) o.same.cnt
        (λ k. record {
          home = o.same.home;
          alloc = ap (λ x. x.cnt_alloc) o.same.cnt;
          counted = ap (λ x. x.cnt_blk) o.same.cnt;
          small = small;
          size = o.size ∙ sym size;
          merged = o.merged;
          positive = o.positive;
          rings = λ b i. o.rings b i;
          inuse = omega (arith, ap (λ x. x.cnt_inuse) o.same.cnt, v.inuse, k, small, size);
        })
        o.kept)

free_at-Freed :
    (p : Pool) (s : Spot) (a n : ℕ)
    → IsPool p
    → At a p.blks s
    → s.tag ≡ used n
    → Returns (Freed a n p) (free_at p s (used n) a)
unfolding free_at tag_free
free_at-Freed p s a n v at e =
    let b =
      All-at (IsBlk p.home) s.front s.blk s.back (subst (All (IsBlk p.home)) at.split v.blocks) in
    let merge : total s.blk.tags ≤ 2 ^ 23
        → Returns (Freed a n p) (tag_free (record p { cnt = freeing n p.cnt }) s a n) =
      λ small.
        Returns-bind
          (free_loop-Outcome (s.blk.base + blk_s)
            (λ b i. tally_blks (free_at_class b i) s.front + tally_blks (free_at_class b i) s.back)
            (s.blk.base == p.home) (record p { cnt = freeing n p.cnt }) s.ls a n s.rs
            (spot-Ready p s a n v at e small))
          (finish-Freed p s a n v at e small) in
    Returns-if (size2idx n == max_index)
      (λ large. elim b.kind [
        | inl k ↦
            let inside = size2idx-small n (omega (arith, k, spot_size a (used n) p.blks s at e)) in
            absurd (ground (arith, inside))
        | inr (m, l, ne) ↦ lone-Freed p s a n m v at e l ne
      ])
      (λ small. elim b.kind [
        | inl k ↦ merge k
        | inr (m, l, ne) ↦
            let same : total s.blk.tags ≡ n =
              omega (arith, ap total l, (lone-At p s a n m at e l).1) in
            let word : n < 2 ^ 32 = omega (arith, b.fits, b.sized, same) in
            merge (omega (arith, same, size2idx-small_inv n word small))
      ])

-- On a valid pool, `tl_pool_free` of the address, not NULL, behind a used tag returns. The pool is
-- valid again: tags fill their blocks, no two unused tags stand side by side, blocks do not overlap,
-- the rings hold exactly the unused tags in the class of their size, and the counters are right. Of the
-- used tags exactly that one is gone; the others have their addresses and sizes.
pub free-Freed :
    (p : Pool) (addr n : ℕ) (s : Spot)
    → IsPool p
    → addr ≢ 0
    → locate (addr - head_s) p.blks ≡ some s
    → s.tag ≡ used n
    → Returns (Freed (addr - head_s) n p) (free p addr)
unfolding free
free-Freed p addr n s v ne l e =
    let some_addr : (addr == 0) ≡ false = ground (arith, ne) in
    let here = free_at-Freed p s (addr - head_s) n v (locate-At (addr - head_s) p.blks s l) e in
    rw (some_addr, l)
      (subst (λ t. Returns (Freed (addr - head_s) n p) (free_at p s t (addr - head_s))) (sym e)
        here)
