-- ===== src/Pool/Layout.antt =====
-- The tags of a block as a list with a hole, and sums over all tags of the blocks.
use common_tool.Base.{
  ℕ, ◌+◌, ◌≤◌, ◌<◌, ◌≡◌, ◌≢◌, refl, ap, false, List, [], ◌∷◌, ◌++◌, arith, ◌==◌, if◌then◌else◌,
  length,
}
use common_tool.Pool.{Tag, used, unuse, tag_size, total, Blk, plug, blk_s, size2idx}

-- A weight for each tag at its address, added up over tags that begin at `cur`.
abbrev pub tally : (ℕ → Tag → ℕ) → ℕ → List Tag → ℕ
tally w cur [] = 0
tally w cur (t ∷ ts) = w cur t + tally w (cur + tag_size t) ts

-- Over the tags before the hole of a block whose tags begin at `start`.
abbrev pub tally_left : (ℕ → Tag → ℕ) → ℕ → List Tag → ℕ
tally_left w start [] = 0
tally_left w start (l ∷ ls) = tally_left w start ls + w (start + total ls) l

abbrev pub tally_blks : (ℕ → Tag → ℕ) → List Blk → ℕ
tally_blks w [] = 0
tally_blks w (b ∷ bs) = tally w (b.base + blk_s) b.tags + tally_blks w bs

pub tally-plug :
    (w : ℕ → Tag → ℕ) (start : ℕ) (ls ts : List Tag)
    → tally w start (plug ls ts) ≡ tally_left w start ls + tally w (start + total ls) ts
tally-plug w start [] ts = let e : start + 0 ≡ start = omega arith in rw e (omega arith)
tally-plug w start (l ∷ ls) ts =
    let e : start + (tag_size l + total ls) ≡ start + total ls + tag_size l = omega arith in
    rw e (omega (arith, tally-plug w start ls (l ∷ ts)))

pub total-plug : (ls ts : List Tag) → total (plug ls ts) ≡ total ls + total ts
total-plug [] ts = omega arith
total-plug (l ∷ ls) ts = omega (arith, total-plug ls (l ∷ ts))

length-plug : (ls ts : List Tag) → length (plug ls ts) ≡ length ls + length ts
length-plug [] ts = omega arith
length-plug (l ∷ ls) ts = omega (arith, length-plug ls (l ∷ ts))

-- Only one tag.
pub plug-lone :
    (ls : List Tag) (t u : Tag) (rs : List Tag)
    → plug ls (t ∷ rs) ≡ u ∷ []
    → (total ls ≡ 0) × (t ≡ u) × (rs ≡ [])
plug-lone [] t u rs h = (refl, cc, cc)
plug-lone (l ∷ ls) t u rs h = absurd (omega (arith, length-plug ls (l ∷ t ∷ rs), ap length h))

pub tally_blks-append :
    (w : ℕ → Tag → ℕ) (bs cs : List Blk)
    → tally_blks w (bs ++ cs) ≡ tally_blks w bs + tally_blks w cs
tally_blks-append w [] cs = omega arith
tally_blks-append w (b ∷ bs) cs = omega (arith, tally_blks-append w bs cs)

-- No two unused tags stand side by side.
abbrev pub Joins : Tag → Tag → Type 0
Joins (unuse m) (unuse n) = ⊥
Joins (unuse m) (used n) = Unit
Joins (used m) t = Unit

abbrev pub RightOk : Tag → List Tag → Type 0
RightOk t [] = Unit
RightOk t (r ∷ rs) = Joins t r × RightOk r rs

abbrev pub LeftOk : List Tag → Tag → Type 0
LeftOk [] t = Unit
LeftOk (l ∷ ls) t = Joins l t × LeftOk ls l

abbrev pub IsMerged : List Tag → Type 0
IsMerged [] = Unit
IsMerged (t ∷ ts) = RightOk t ts

pub IsMerged-plug :
    (ls : List Tag) (t : Tag) (rs : List Tag)
    → LeftOk ls t
    → RightOk t rs
    → IsMerged (plug ls (t ∷ rs))
IsMerged-plug [] t rs h k = k
IsMerged-plug (l ∷ ls) t rs h k = IsMerged-plug ls l (t ∷ rs) h.1 (h.0, k)

pub IsMerged-parts :
    (ls : List Tag) (t : Tag) (rs : List Tag)
    → IsMerged (plug ls (t ∷ rs))
    → LeftOk ls t × RightOk t rs
IsMerged-parts [] t rs h = (tt, h)
IsMerged-parts (l ∷ ls) t rs h = let p = IsMerged-parts ls l (t ∷ rs) h in ((p.1.0, p.0), p.1.1)

pub LeftOk-used : (ls : List Tag) (t : Tag) (n : ℕ) → LeftOk ls t → LeftOk ls (used n)
LeftOk-used [] t n h = tt
LeftOk-used (used k ∷ ls) t n h = (tt, h.1)
LeftOk-used (unuse k ∷ ls) t n h = (tt, h.1)

pub RightOk-used : (t : Tag) (rs : List Tag) (n : ℕ) → RightOk t rs → RightOk (used n) rs
RightOk-used t [] n h = tt
RightOk-used t (r ∷ rs) n h = (tt, h.1)

pub RightOk-unuse : (m n : ℕ) (rs : List Tag) → RightOk (unuse m) rs → RightOk (unuse n) rs
RightOk-unuse m n [] h = tt
RightOk-unuse m n (used k ∷ rs) h = h
RightOk-unuse m n (unuse k ∷ rs) h = h

-- Every tag has a size.
abbrev pub Positive : List Tag → Type 0
Positive [] = Unit
Positive (t ∷ ts) = (0 < tag_size t) × Positive ts

pub Positive-plug : (ls ts : List Tag) → Positive ls → Positive ts → Positive (plug ls ts)
Positive-plug [] ts h k = k
Positive-plug (l ∷ ls) ts h k = Positive-plug ls (l ∷ ts) h.1 (h.0, k)

pub Positive-parts : (ls ts : List Tag) → Positive (plug ls ts) → Positive ls × Positive ts
Positive-parts [] ts h = (tt, h)
Positive-parts (l ∷ ls) ts h = let p = Positive-parts ls (l ∷ ts) h in ((p.1.0, p.0), p.1.1)

-- An unused tag at the address `a` in the class `i` counts 1.
abbrev pub mark : ℕ → ℕ → ℕ → ℕ → ℕ
mark x j a i = if x == a then (if j == i then 1 else 0) else 0

abbrev pub free_at_class : ℕ → ℕ → ℕ → Tag → ℕ
free_at_class a i cur (used n) = 0
free_at_class a i cur (unuse n) = mark cur (size2idx n) a i

-- A weight of the tags at one address only.
abbrev pub Local : ℕ → (ℕ → Tag → ℕ) → Type 0
Local a w = (c : ℕ) (t : Tag) → c ≢ a → w c t ≡ 0

pub free_at_class-Local : (a i : ℕ) → Local a (free_at_class a i)
free_at_class-Local a i c (used n) ne = refl
free_at_class-Local a i c (unuse n) ne = let e : (c == a) ≡ false = ground (arith, ne) in rw e

-- What is outside a range of tags has no share in it.
module _ (a : ℕ) (w : ℕ → Tag → ℕ) (local : Local a w) where
  pub tally_below : (cur : ℕ) (ts : List Tag) → a < cur → tally w cur ts ≡ 0
  tally_below cur [] h = refl
  tally_below cur (t ∷ ts) h =
      omega (arith, local cur t (λ e. omega arith), tally_below (cur + tag_size t) ts (omega arith))

  pub tally_above :
      (cur : ℕ) (ts : List Tag) → Positive ts → cur + total ts ≤ a → tally w cur ts ≡ 0
  tally_above cur [] p h = refl
  tally_above cur (t ∷ ts) p h =
      let here = p.0 in
      omega
        (arith, local cur t (λ e. omega arith), tally_above (cur + tag_size t) ts p.1 (omega arith))

-- A sum over the used tags, of a weight of their addresses and sizes.
abbrev pub on_used : (ℕ → ℕ → ℕ) → ℕ → Tag → ℕ
on_used w c (used n) = w c n
on_used w c (unuse n) = 0

-- A weight that unused tags do not have.
abbrev pub Vanishes : (ℕ → Tag → ℕ) → Type 0
Vanishes w = (c n : ℕ) → w c (unuse n) ≡ 0
