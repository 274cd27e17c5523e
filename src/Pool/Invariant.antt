-- ===== src/Pool/Invariant.antt =====
-- What holds of a pool of trunk/src/tl_pool.c between the calls.
use common_tool.Base.{
  ℕ, ◌+◌, ◌%◌, ◌^◌, ◌≤◌, ◌<◌, ◌≡◌, ◌≢◌, ◌⊎◌, inl, inr, ◌∙◌, List, [], ◌∷◌, ◌++◌, some, arith, ◌==◌,
  Bool-cases, length,
}
use common_tool.Pool.{
  Tag, used, unuse, tag_size, total, Blk, Pool, Spot, plug, find_tag, blk_s, blk_offset,
}
use common_tool.Pool.Layout.{tally_blks, IsMerged, Positive, free_at_class}
use common_tool.Pool.Rings.{Rings}

-- The tags fill the block, whose size is less than 2^32; a block with a large tag has no other and is not the pool's own.
pub record IsBlk (home : ℕ) (b : Blk) : Type 0 where
  pub sized : b.size ≡ blk_s + total b.tags
  pub fits : b.size < 2 ^ 32
  pub positive : Positive b.tags
  pub merged : IsMerged b.tags
  pub kind : (total b.tags ≤ 2 ^ 23) ⊎ ((n : ℕ) × (b.tags ≡ used n ∷ []) × (b.base ≢ home))

abbrev pub All {ℓ} : (Blk → Type ℓ) → List Blk → Type ℓ
All P [] = Unit
All P (b ∷ bs) = P b × All P bs

-- The blocks do not overlap.
abbrev pub Apart : Blk → Blk → Type 0
Apart b c = (b.base + b.size ≤ c.base) ⊎ (c.base + c.size ≤ b.base)

abbrev pub AllApart : List Blk → Type 0
AllApart [] = Unit
AllApart (b ∷ bs) = All (Apart b) bs × AllApart bs

abbrev pub Owned : ℕ → List Blk → Type 0
Owned home [] = ⊥
Owned home (b ∷ bs) = b.base ≡ home

abbrev pub used_size : ℕ → Tag → ℕ
used_size c (used n) = n
used_size c (unuse n) = 0

abbrev pub sizes : List Blk → ℕ
sizes [] = 0
sizes (b ∷ bs) = b.size + sizes bs

-- The rings hold exactly the unused tags, each in the ring of its class, and the counters are right.
pub record IsPool (p : Pool) : Type 0 where
  pub blocks : All (IsBlk p.home) p.blks
  pub apart : AllApart p.blks
  pub owned : Owned p.home p.blks
  pub rings : Rings p (λ a i. tally_blks (free_at_class a i) p.blks)
  pub inuse : p.cnt.cnt_inuse ≡ tally_blks used_size p.blks % 2 ^ 64
  pub alloc : p.cnt.cnt_alloc ≡ (sizes p.blks + blk_offset) % 2 ^ 64
  pub counted : p.cnt.cnt_blk ≡ length p.blks % 2 ^ 64

module _ {ℓ} (P : Blk → Type ℓ) where
  pub All-at : (f : List Blk) (b : Blk) (k : List Blk) → All P (f ++ b ∷ k) → P b
  All-at [] b k h = h.0
  All-at (x ∷ f) b k h = All-at f b k h.1

  pub All-replace :
      (f : List Blk) (b c : Blk) (k : List Blk)
      → (P b → P c)
      → All P (f ++ b ∷ k)
      → All P (f ++ c ∷ k)
  All-replace [] b c k g h = (g h.0, h.1)
  All-replace (x ∷ f) b c k g h = (h.0, All-replace f b c k g h.1)

  pub All-remove : (f : List Blk) (b : Blk) (k : List Blk) → All P (f ++ b ∷ k) → All P (f ++ k)
  All-remove [] b k h = h.1
  All-remove (x ∷ f) b k h = (h.0, All-remove f b k h.1)

pub All-map {ℓ κ} :
    (P : Blk → Type ℓ) (Q : Blk → Type κ) (bs : List Blk)
    → ((b : Blk) → P b → Q b)
    → All P bs
    → All Q bs
All-map P Q [] g h = tt
All-map P Q (b ∷ bs) g h = (g b h.0, All-map P Q bs g h.1)

-- A block may be replaced by one with the same bounds.
pub AllApart-replace :
    (f : List Blk) (b c : Blk) (k : List Blk)
    → c.base ≡ b.base
    → c.size ≡ b.size
    → AllApart (f ++ b ∷ k)
    → AllApart (f ++ c ∷ k)
AllApart-replace [] b c k e s h = (All-map (Apart b) (Apart c) k (λ d x. ground arith) h.0, h.1)
AllApart-replace (x ∷ f) b c k e s h =
    (All-replace (Apart x) f b c k (λ y. ground arith) h.0, AllApart-replace f b c k e s h.1)

pub AllApart-remove :
    (f : List Blk) (b : Blk) (k : List Blk) → AllApart (f ++ b ∷ k) → AllApart (f ++ k)
AllApart-remove [] b k h = h.1
AllApart-remove (x ∷ f) b k h = (All-remove (Apart x) f b k h.0, AllApart-remove f b k h.1)

pub Owned-replace :
    (home : ℕ) (f : List Blk) (b c : Blk) (k : List Blk)
    → c.base ≡ b.base
    → Owned home (f ++ b ∷ k)
    → Owned home (f ++ c ∷ k)
Owned-replace home [] b c k e h = e ∙ h
Owned-replace home (x ∷ f) b c k e h = h

pub Owned-remove :
    (home : ℕ) (f : List Blk) (b : Blk) (k : List Blk)
    → b.base ≢ home
    → Owned home (f ++ b ∷ k)
    → Owned home (f ++ k)
Owned-remove home [] b k ne h = absurd (ne h)
Owned-remove home (x ∷ f) b k ne h = h

pub sizes-append : (f k : List Blk) → sizes (f ++ k) ≡ sizes f + sizes k
sizes-append [] k = omega arith
sizes-append (x ∷ f) k = omega (arith, sizes-append f k)

-- The tag that `locate` finds stands at the address that was asked for.
pub record At (a : ℕ) (bs : List Blk) (s : Spot) : Type 0 where
  pub split : bs ≡ s.front ++ s.blk ∷ s.back
  pub tags : s.blk.tags ≡ plug s.ls (s.tag ∷ s.rs)
  pub place : a ≡ s.blk.base + blk_s + total s.ls

pub find_tag-plug :
    (a start cur : ℕ) (ls ts : List Tag) (r : List Tag × Tag × List Tag)
    → cur ≡ start + total ls
    → find_tag a cur ls ts ≡ some r
    → (plug ls ts ≡ plug r.0 (r.1 ∷ r.2)) × (a ≡ start + total r.0)
unfolding find_tag
find_tag-plug a start cur ls [] r e h = cc
find_tag-plug a start cur ls (t ∷ ts) r e h = elim (Bool-cases (cur == a)) [
  | inl q ↦ let same : some (ls, t, ts) ≡ some r = ground arith in ground arith
  | inr q ↦ find_tag-plug a start (cur + tag_size t) (t ∷ ls) ts r (omega arith) (ground arith)
]
