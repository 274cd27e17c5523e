-- ===== src/Pool/Alloc/Fresh.antt =====
-- A new block from the system: `tl_pool_add_blk`, `tl_pool_alloc_large` and the last part of
-- `tl_pool_alloc`.
use common_tool.Base.{
  add_word, ℕ, ◌+◌, ◌-◌, ◌^◌, ◌≤◌, ◌<◌, ◌≡◌, ◌⊎◌, inl, inr, refl, ◌∙◌, ap, subst, false, [], ◌∷◌,
  Option, none, some, arith, ◌==◌, if◌then◌else◌, ok, ◌>>=◌, or_fault, Returns, returns,
  Returns-bind,
}
use common_tool.Pool.{Tag, used, unuse, Blk, Pool, head_s, blk_s, size2idx, align}
use common_tool.Pool.Size.{size2idx-small}
use common_tool.Pool.Layout.{on_used, Local, tally_blks, free_at_class, mark}
use common_tool.Pool.Rings.{add_tag-Rings}
use common_tool.Pool.Invariant.{IsBlk, IsPool, All}
use common_tool.Pool.Alloc.{add_blk, large_blk, alloc_large, use_blk}
use common_tool.Pool.Alloc.Part.{Taken}
use common_tool.Pool.Alloc.Answer.{Listed-tally, Answer, tag_alloc-Answer}
use common_tool.Pool.Alloc.Link.{
  tally_blks-link, link-IsPool, foreign, recount-IsPool, Taken-recount, Taken-from,
}

-- Memory that the system hands out is apart from all blocks.
abbrev pub FreshAt : Pool → ℕ → Option ℕ → Type 0
FreshAt p size none = Unit
FreshAt p size (some base) = All (λ c. (base + size ≤ c.base) ⊎ (c.base + c.size ≤ base)) p.blks

abbrev pub Fresh : (ℕ → Option ℕ) → Pool → Type 0
Fresh sys p = (size : ℕ) → FreshAt p size (sys size)

-- What an allocation of a tag of at least the size `n` does: NULL only if the system refuses, and
-- then the blocks are as they were.
abbrev pub Result : (ℕ → Option ℕ) → ℕ → Pool → Pool × Option ℕ → Type 0
Result sys n p (q, none) =
    IsPool q × (q.home ≡ p.home) × (q.blks ≡ p.blks) × ((size : ℕ) × (sys size ≡ none))
Result sys n p (q, some addr) = (a : ℕ) × (addr ≡ a + head_s) × Taken n p q a

mark_self : (a i : ℕ) → mark a i a i ≡ 1
mark_self a i = ground arith

-- The size of the unused tag at an address.
abbrev unused_at : ℕ → ℕ → Tag → ℕ
unused_at a c (used n) = 0
unused_at a c (unuse n) = if c == a then n else 0

unused_at-Local : (a : ℕ) → Local a (unused_at a)
unused_at-Local a c (used n) ne = refl
unused_at-Local a c (unuse n) ne = let e : (c == a) ≡ false = ground (arith, ne) in rw e

unused_at_self : (a n : ℕ) → unused_at a a (unuse n) ≡ n
unused_at_self a n = ground arith

module _ (sys : ℕ → Option ℕ) (p : Pool) (v : IsPool p) (fresh : Fresh sys p) where
  large_blk-Result :
      (n size : ℕ) (o : Option ℕ)
      → sys size ≡ o
      → 0 < n
      → n + blk_s ≤ size
      → size < 2 ^ 32
      → Result sys n p (large_blk p size o)
  unfolding large_blk add_blk
  large_blk-Result n size none e pos le bound =
      (recount-IsPool p _ refl refl refl v, refl, refl, (size, e))
  large_blk-Result n size (some base) e pos le bound =
      let b : Blk = record { base = base; size = size; tags = used (size - blk_s) ∷ [] } in
      let apart = subst (FreshAt p size) e (fresh size) in
      let is_blk : IsBlk p.home b = record {
        sized = omega arith;
        fits = bound;
        positive = (omega arith, tt);
        merged = tt;
        kind =
            inr (size - blk_s, refl, foreign p.home b p.blks (omega arith) v.owned v.blocks apart);
      } in
      (
        base + blk_s,
        refl,
        record {
          valid = link-IsPool p _ b v is_blk apart (record {
            blks = refl;
            home = refl;
            alloc = refl;
            counted = refl;
            inuse = omega (arith, v.inuse);
            rings = λ a i. omega (arith, v.rings a i);
          });
          home = refl;
          size = size - blk_s;
          enough = omega arith;
          kept = λ w. omega (arith, tally_blks-link (on_used w) b p.blks);
        },
      )

  pub alloc_large-Result : (n : ℕ) → 0 < n → n + 31 < 2 ^ 32 → Result sys n p (alloc_large sys p n)
  unfolding alloc_large
  alloc_large-Result n pos fits =
      let size = align 8 (add_word n blk_s) in
      large_blk-Result n size (sys size) refl pos (omega arith) (omega arith)

  -- The tag of the new block is large enough.
  use-Answer :
      (r : Pool) (a n raw : ℕ)
      → r.home ≡ p.home
      → ((w : ℕ → ℕ → ℕ) → tally_blks (on_used w) r.blks ≡ tally_blks (on_used w) p.blks)
      → n ≤ raw
      → (o : Option (Pool × ℕ)) → Answer n r a raw o
      → Returns (Result sys n p) do
        (t, addr) ← or_fault o
        ok (
          record t { cnt = record t.cnt { cnt_s_hit_3 = add_word t.cnt.cnt_s_hit_3 1 } },
          some addr,
        )
  use-Answer r a n raw h k le none x = absurd (omega arith)
  use-Answer r a n raw h k le (some (t, addr)) (at, taken) =
      returns (a, at, Taken-recount n p t a _ refl refl refl (Taken-from n p r t a h k taken))

  pub use_blk-Result :
      (base size n : ℕ)
      → sys size ≡ some base
      → 0 < n
      → n + blk_s ≤ size
      → size ≤ 2 ^ 23 + blk_s
      → Returns (Result sys n p) (use_blk p base size n)
  unfolding use_blk add_blk
  use_blk-Result base size n e pos le bound =
      let a = base + blk_s in
      let m = size - blk_s in
      let i = size2idx m in
      let b : Blk = record { base = base; size = size; tags = unuse m ∷ [] } in
      let apart = subst (FreshAt p size) e (fresh size) in
      let is_blk : IsBlk p.home b = record {
        sized = omega arith;
        fits = omega arith;
        positive = (omega arith, tt);
        merged = tt;
        kind = inl (omega arith);
      } in
      Returns-bind
        (add_tag-Rings (add_blk p b) (λ c j. tally_blks (free_at_class c j) p.blks) a i
          (size2idx-small m (omega arith)) (λ c j. v.rings c j))
        λ r (same, rings).
          let valid = link-IsPool p r b v is_blk apart (record {
            blks = same.blks;
            home = same.home;
            alloc = ap (λ x. x.cnt_alloc) same.cnt;
            counted = ap (λ x. x.cnt_blk) same.cnt;
            inuse = omega (arith, ap (λ x. x.cnt_inuse) same.cnt, v.inuse);
            rings = λ c j. omega (arith, rings c j);
          }) in
          let kept : (w : ℕ → Tag → ℕ)
              → tally_blks w r.blks ≡ tally_blks w p.blks + (w a (unuse m) + 0) =
            λ w. ap (tally_blks w) same.blks ∙ tally_blks-link w b p.blks in
          let listed =
            Listed-tally r a i valid (omega (arith, kept (free_at_class a i), mark_self a i)) in
          let raw = listed.raw in
          let large : m ≤ raw = omega (
            arith,
            kept (unused_at a),
            listed.alone (unused_at a) (unused_at-Local a),
            unused_at_self a m,
            unused_at_self a raw,
          ) in
          Returns-bind (tag_alloc-Answer r a i n valid pos listed) (
            use-Answer r a n raw same.home (λ w. omega (arith, kept (on_used w)))
              (omega (arith, large)))
