-- ===== src/Pool/Alloc/Link.antt =====
-- A new block in a pool, and counters of which the invariant says nothing.
use common_tool.Base.{
  add_word, ℕ, suc, ◌+◌, ◌%◌, ◌^◌, ◌<◌, ◌≡◌, ◌≢◌, inl, inr, refl, sym, ◌∙◌, ap, subst, List, [],
  ◌∷◌, arith, length,
}
use common_tool.Pool.{Tag, Blk, Counters, Pool, blk_s}
use common_tool.Pool.Layout.{on_used, tally, tally_blks, free_at_class}
use common_tool.Pool.Rings.{Rings}
use common_tool.Pool.Invariant.{IsBlk, IsPool, All, Apart, AllApart, Owned, sizes, used_size}
use common_tool.Pool.Alloc.{link}
use common_tool.Pool.Alloc.Part.{Taken}

All-link {ℓ} : (P : Blk → Type ℓ) (b : Blk) (bs : List Blk) → P b → All P bs → All P (link b bs)
All-link P b [] h k = (h, tt)
All-link P b (own ∷ bs) h k = (k.0, (h, k.1))

AllApart-link : (b : Blk) (bs : List Blk) → All (Apart b) bs → AllApart bs → AllApart (link b bs)
AllApart-link b [] h k = (tt, tt)
AllApart-link b (own ∷ bs) h k =
    let apart : Apart own b = elim h.0 [ inl e ↦ inr e | inr e ↦ inl e ] in
    ((apart, k.0), (h.1, k.1))

Owned-link : (home : ℕ) (b : Blk) (bs : List Blk) → Owned home bs → Owned home (link b bs)
Owned-link home b [] h = absurd h
Owned-link home b (own ∷ bs) h = h

pub tally_blks-link :
    (w : ℕ → Tag → ℕ) (b : Blk) (bs : List Blk)
    → tally_blks w (link b bs) ≡ tally_blks w bs + tally w (b.base + blk_s) b.tags
tally_blks-link w b [] = omega arith
tally_blks-link w b (own ∷ bs) = omega arith

sizes-link : (b : Blk) (bs : List Blk) → sizes (link b bs) ≡ sizes bs + b.size
sizes-link b [] = omega arith
sizes-link b (own ∷ bs) = omega arith

length-link : (b : Blk) (bs : List Blk) → length (link b bs) ≡ suc (length bs)
length-link b [] = refl
length-link b (own ∷ bs) = refl

-- What a block that is apart from all others needs for `tl_pool_add_blk`.
pub record Linked (p r : Pool) (b : Blk) : Type 0 where
  pub blks : r.blks ≡ link b p.blks
  pub home : r.home ≡ p.home
  pub alloc : r.cnt.cnt_alloc ≡ add_word p.cnt.cnt_alloc b.size
  pub counted : r.cnt.cnt_blk ≡ add_word p.cnt.cnt_blk 1
  pub inuse :
      r.cnt.cnt_inuse
      ≡ (tally_blks used_size p.blks + tally used_size (b.base + blk_s) b.tags) % 2 ^ 64
  pub rings : Rings r (λ a i.
      tally_blks (free_at_class a i) p.blks + tally (free_at_class a i) (b.base + blk_s) b.tags)

pub link-IsPool :
    (p r : Pool) (b : Blk)
    → IsPool p
    → IsBlk p.home b
    → All (Apart b) p.blks
    → Linked p r b
    → IsPool r
link-IsPool p r b v h apart k = record {
  blocks =
      subst (λ x. All (IsBlk x) r.blks) (sym k.home)
        (subst (All (IsBlk p.home)) (sym k.blks) (All-link (IsBlk p.home) b p.blks h v.blocks));
  apart = subst AllApart (sym k.blks) (AllApart-link b p.blks apart v.apart);
  owned =
      subst (λ x. Owned x r.blks) (sym k.home)
        (subst (Owned p.home) (sym k.blks) (Owned-link p.home b p.blks v.owned));
  rings = λ a i. omega (
    arith,
    k.rings a i,
    ap (tally_blks (free_at_class a i)) k.blks,
    tally_blks-link (free_at_class a i) b p.blks,
  );
  inuse =
      omega (arith, k.inuse, ap (tally_blks used_size) k.blks, tally_blks-link used_size b p.blks);
  alloc = omega (arith, k.alloc, v.alloc, ap sizes k.blks, sizes-link b p.blks);
  counted = omega (arith, k.counted, v.counted, ap length k.blks, length-link b p.blks);
}

-- A block apart from all others is not the pool's own.
pub foreign :
    (home : ℕ) (b : Blk) (bs : List Blk)
    → 0 < b.size
    → Owned home bs
    → All (IsBlk home) bs
    → All (Apart b) bs
    → b.base ≢ home
foreign home b [] pos o v h = absurd o
foreign home b (own ∷ bs) pos o v h =
    let sized = v.0.sized in elim h.0 [ inl e ↦ λ q. omega arith | inr e ↦ λ q. omega arith ]

-- Counters of which the invariant says nothing.
pub recount-IsPool :
    (p : Pool) (c : Counters)
    → c.cnt_inuse ≡ p.cnt.cnt_inuse
    → c.cnt_alloc ≡ p.cnt.cnt_alloc
    → c.cnt_blk ≡ p.cnt.cnt_blk
    → IsPool p
    → IsPool (record p { cnt = c })
recount-IsPool p c h k m v = record {
  blocks = v.blocks;
  apart = v.apart;
  owned = v.owned;
  rings = λ a i. v.rings a i;
  inuse = h ∙ v.inuse;
  alloc = k ∙ v.alloc;
  counted = m ∙ v.counted;
}

pub Taken-recount :
    (n : ℕ) (p q : Pool) (a : ℕ) (c : Counters)
    → c.cnt_inuse ≡ q.cnt.cnt_inuse
    → c.cnt_alloc ≡ q.cnt.cnt_alloc
    → c.cnt_blk ≡ q.cnt.cnt_blk
    → Taken n p q a
    → Taken n p (record q { cnt = c }) a
Taken-recount n p q a c h k m t = record {
  valid = recount-IsPool q c h k m t.valid;
  home = t.home;
  size = t.size;
  enough = t.enough;
  kept = t.kept;
}

-- The same from another pool with the same used tags.
pub Taken-from :
    (n : ℕ) (p p' q : Pool) (a : ℕ)
    → p'.home ≡ p.home
    → ((w : ℕ → ℕ → ℕ) → tally_blks (on_used w) p'.blks ≡ tally_blks (on_used w) p.blks)
    → Taken n p' q a
    → Taken n p q a
Taken-from n p p' q a h k t = record {
  valid = t.valid;
  home = t.home ∙ h;
  size = t.size;
  enough = t.enough;
  kept = λ w. omega (arith, t.kept w, k w);
}
