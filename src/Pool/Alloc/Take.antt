-- ===== src/Pool/Alloc/Take.antt =====
-- `tl_pool_tag_alloc` behind its first test: the invariant, and the used tags before and after.
use common_tool.Base.{
  add_word, ok, ◌>>=◌, ℕ, ◌+◌, ◌-◌, ◌^◌, ◌≤◌, ◌<◌, ◌≡◌, inl, inr, refl, sym, ◌∙◌, ap, subst, ◌∷◌,
  arith, leb, Returns, returns, Returns-bind, Returns-if,
}
use common_tool.Pool.{
  add_tag, used, unuse, total, Pool, Spot, plug, refill, head_s, thresh, blk_s, size2idx, rm_tag,
}
use common_tool.Pool.Size.{size2idx-small}
use common_tool.Pool.Layout.{
  LeftOk, RightOk, LeftOk-used, RightOk-used, RightOk-unuse, tally, tally_left, tally_blks,
  tally-plug, total-plug, plug-lone, IsMerged, IsMerged-plug, IsMerged-parts, Positive,
  Positive-plug, Positive-parts, free_at_class, mark,
}
use common_tool.Pool.Rings.{Same, Rings, rm_tag-Rings, add_tag-Rings}
use common_tool.Pool.Invariant.{IsBlk, IsPool, All, All-at, used_size, At}
use common_tool.Pool.Refit.{tally_blks-at, tally-at, spot_size, spot_tags, Fits}
use common_tool.Pool.Alloc.{take_tag}
use common_tool.Pool.Alloc.Part.{Taken, refit-Taken}

module _ (p : Pool) (s : Spot) (a raw : ℕ) (v : IsPool p) (at : At a p.blks s)
    (e : s.tag ≡ unuse raw) where
  -- A block with an unused tag is not a large one.
  unuse_small : total s.blk.tags ≤ 2 ^ 23
  unuse_small =
      let b =
        All-at (IsBlk p.home) s.front s.blk s.back (subst (All (IsBlk p.home)) at.split v.blocks) in
      elim b.kind [
        | inl k ↦ k
        | inr (m, l, ne) ↦
            let one =
              plug-lone s.ls (unuse raw) (used m) s.rs
                (sym (spot_tags a (unuse raw) p.blks s at e) ∙ l) in
            absurd (cc one.1)
      ]

  parts :
      (LeftOk s.ls (unuse raw) × RightOk (unuse raw) s.rs)
      × (Positive s.ls × Positive (unuse raw ∷ s.rs))
  parts =
      let b =
        All-at (IsBlk p.home) s.front s.blk s.back (subst (All (IsBlk p.home)) at.split v.blocks) in
      let whole = spot_tags a (unuse raw) p.blks s at e in
      (
        IsMerged-parts s.ls (unuse raw) s.rs (subst IsMerged whole b.merged),
        Positive-parts s.ls (unuse raw ∷ s.rs) (subst Positive whole b.positive),
      )

  -- The rings without the tag.
  abbrev Without : Pool → Type 0
  Without q = Rings q λ b i.
      tally_blks (free_at_class b i) s.front
      + tally_blks (free_at_class b i) s.back
      + tally_left (free_at_class b i) (s.blk.base + blk_s) s.ls
      + tally (free_at_class b i) (a + raw) s.rs

  rm_raw : Returns (λ q. Same p q × Without q) (rm_tag p a raw)
  rm_raw =
      rm_tag-Rings p
        (λ b i.
          tally_blks (free_at_class b i) s.front
          + tally_blks (free_at_class b i) s.back
          + tally_left (free_at_class b i) (s.blk.base + blk_s) s.ls
          + tally (free_at_class b i) (a + raw) s.rs)
        a raw
        (size2idx-small raw (omega (arith, unuse_small, spot_size a (unuse raw) p.blks s at e)))
        λ b i.
          v.rings b i
          ∙ omega (
            arith,
            ap (tally_blks (free_at_class b i)) at.split,
            tally_blks-at (free_at_class b i) s.front s.blk s.back,
            tally-at a (unuse raw) p.blks s at e (free_at_class b i),
            ap (λ c. tally (free_at_class b i) (c + raw) s.rs) at.place,
          )

  -- The whole tag.
  take_whole :
      (n : ℕ) (q : Pool)
      → n ≤ raw
      → Same p q
      → Without q
      → Taken n p
          (record q {
            blks = refill s (used raw ∷ s.rs);
            cnt = record q.cnt { cnt_inuse = add_word q.cnt.cnt_inuse raw };
          })
          a
  take_whole n q le same rings =
      let size = spot_size a (unuse raw) p.blks s at e in
      refit-Taken p (record q { cnt = record q.cnt { cnt_inuse = add_word q.cnt.cnt_inuse raw } }) s
        a raw n raw s.rs v at e le
        (λ k. record {
          home = same.home;
          alloc = ap (λ x. x.cnt_alloc) same.cnt;
          counted = ap (λ x. x.cnt_blk) same.cnt;
          small = unuse_small;
          size = omega (arith, size, total-plug s.ls (used raw ∷ s.rs));
          merged =
              IsMerged-plug s.ls (used raw) s.rs (LeftOk-used s.ls (unuse raw) raw parts.0.0)
                (RightOk-used (unuse raw) s.rs raw parts.0.1);
          positive = Positive-plug s.ls (used raw ∷ s.rs) parts.1.0 parts.1.1;
          rings = λ b i. omega (
            arith,
            rings b i,
            tally-plug (free_at_class b i) (s.blk.base + blk_s) s.ls (used raw ∷ s.rs),
            ap (λ c. tally (free_at_class b i) (c + raw) s.rs) at.place,
          );
          inuse = omega (arith, ap (λ x. x.cnt_inuse) same.cnt, v.inuse, k);
        })
        (λ w z. refl)

  -- The first part of the tag, and the rest as a tag of its own.
  abbrev split : ℕ → Pool → Pool
  split n q = record q {
    blks = refill s (used n ∷ unuse (raw - n) ∷ s.rs);
    cnt = record q.cnt { cnt_inuse = add_word q.cnt.cnt_inuse n };
  }

  split-Fits :
      (n : ℕ) (q r : Pool)
      → 0 < n
      → n < raw
      → Same p q
      → Same (split n q) r
      → Rings r (λ b i.
        tally_blks (free_at_class b i) s.front
        + tally_blks (free_at_class b i) s.back
        + tally_left (free_at_class b i) (s.blk.base + blk_s) s.ls
        + tally (free_at_class b i) (a + raw) s.rs
        + mark (a + n) (size2idx (raw - n)) b i)
      → tally_blks used_size (split n q).blks ≡ tally_blks used_size p.blks + n
      → Fits p r s (plug s.ls (used n ∷ unuse (raw - n) ∷ s.rs))
  split-Fits n q r pos lt same same' rings k =
      let start = s.blk.base + blk_s in
      let rest = raw - n in
      let next : start + total s.ls + n + rest ≡ start + total s.ls + raw = omega arith in
      let size = spot_size a (unuse raw) p.blks s at e in
      record {
        home = same'.home ∙ same.home;
        alloc = ap (λ x. x.cnt_alloc) same'.cnt ∙ ap (λ x. x.cnt_alloc) same.cnt;
        counted = ap (λ x. x.cnt_blk) same'.cnt ∙ ap (λ x. x.cnt_blk) same.cnt;
        small = unuse_small;
        size = omega (arith, size, total-plug s.ls (used n ∷ unuse rest ∷ s.rs));
        merged =
            IsMerged-plug s.ls (used n) (unuse rest ∷ s.rs)
              (LeftOk-used s.ls (unuse raw) n parts.0.0)
              (tt, RightOk-unuse raw rest s.rs parts.0.1);
        positive =
            Positive-plug s.ls (used n ∷ unuse rest ∷ s.rs) parts.1.0
              (pos, (omega arith, parts.1.1.1));
        rings = λ b i. omega (
          arith,
          rings b i,
          tally-plug (free_at_class b i) start s.ls (used n ∷ unuse rest ∷ s.rs),
          ap (λ c. mark (c + n) (size2idx rest) b i) at.place,
          ap (λ c. tally (free_at_class b i) (c + raw) s.rs) at.place,
          ap (λ c. tally (free_at_class b i) c s.rs) next,
        );
        inuse =
            omega
              (arith, ap (λ x. x.cnt_inuse) same'.cnt, ap (λ x. x.cnt_inuse) same.cnt, v.inuse, k);
      }

  take_part :
      (n : ℕ) (q : Pool)
      → 0 < n
      → n < raw
      → Same p q
      → Without q
      → Returns
          (λ (r, addr). (addr ≡ a + head_s) × Taken n p r a)
          (add_tag (split n q) (size2idx (raw - n)) (a + n) >>= λ r. ok (r, a + head_s))
  take_part n q pos lt same rings =
      let start = s.blk.base + blk_s in
      let rest = raw - n in
      let next : start + total s.ls + n + rest ≡ start + total s.ls + raw = omega arith in
      let size = spot_size a (unuse raw) p.blks s at e in
      Returns-bind
        (add_tag-Rings (split n q) _ (a + n) (size2idx rest)
          (size2idx-small rest (omega (arith, unuse_small, size))) rings)
        λ r (same', rings').
          let taken =
            refit-Taken p r s a raw n n (unuse rest ∷ s.rs) v at e (omega arith)
              (split-Fits n q r pos lt same same' rings')
              (λ w z.
                omega (arith, z (start + total s.ls + n) rest, ap (λ c. tally w c s.rs) next)) in
          returns (refl, subst (λ x. Taken n p (record r { blks = x }) a) (sym same'.blks) taken)

  pub take_tag-Taken :
      (n : ℕ)
      → 0 < n
      → n ≤ raw
      → Returns (λ (q, addr). (addr ≡ a + head_s) × Taken n p q a) (take_tag p s a raw n)
  unfolding take_tag
  take_tag-Taken n pos le = Returns-bind rm_raw λ q (same, rings).
      Returns-if (leb (raw - n) thresh) (λ h. returns (refl, take_whole n q le same rings))
        (λ h. take_part n q pos (ground arith) same rings)
