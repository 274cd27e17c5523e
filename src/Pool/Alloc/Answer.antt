-- ===== src/Pool/Alloc/Answer.antt =====
-- `tl_pool_tag_alloc` on a tag that a ring names.
use common_tool.Base.{
  ℕ, ◌+◌, ◌<◌, ◌≡◌, refl, sym, ◌∙◌, ap, Option, none, some, arith, ltb, Returns, returns,
  Returns-bind, Returns-if,
}
use common_tool.Pool.{Tag, used, unuse, tag_size, Pool, Spot, locate, head_s, size2idx}
use common_tool.Pool.Layout.{tally_blks, free_at_class, free_at_class-Local, Local}
use common_tool.Pool.Invariant.{IsPool}
use common_tool.Pool.Locate.{locate-At, locate-Local, locate-found}
use common_tool.Pool.Alloc.{tag_alloc}
use common_tool.Pool.Alloc.Part.{Taken}
use common_tool.Pool.Alloc.Take.{take_tag-Taken}

-- The tag that a ring names.
pub record Listed (p : Pool) (a i : ℕ) : Type 0 where
  pub spot : Spot
  pub found : locate a p.blks ≡ some spot
  pub raw : ℕ
  pub tag : spot.tag ≡ unuse raw
  pub class : size2idx raw ≡ i
  pub alone : (w : ℕ → Tag → ℕ) → Local a w → tally_blks w p.blks ≡ w a (unuse raw)

free_at_class-inv :
    (a i : ℕ) (t : Tag)
    → 0 < free_at_class a i a t
    → (raw : ℕ) × (t ≡ unuse raw) × (size2idx raw ≡ i)
free_at_class-inv a i (used n) h = absurd (omega arith)
free_at_class-inv a i (unuse n) h = (n, refl, ground arith)

pub Listed-tally :
    (p : Pool) (a i : ℕ) → IsPool p → 0 < tally_blks (free_at_class a i) p.blks → Listed p a i
Listed-tally p a i v h =
    let (s, found, only) =
      locate-found a (free_at_class a i) p.home p.blks (free_at_class-Local a i) v.blocks v.apart
        h in
    let (raw, tag, class) = free_at_class-inv a i s.tag (omega (arith, only)) in
    record {
      spot = s;
      found = found;
      raw = raw;
      tag = tag;
      class = class;
      alone =
          λ w local. locate-Local a w local p.home p.blks s v.blocks v.apart found ∙ ap (w a) tag;
    }

-- What `tl_pool_tag_alloc` answers: NULL when the tag is too small.
abbrev pub Answer : ℕ → Pool → ℕ → ℕ → Option (Pool × ℕ) → Type 0
Answer n p a raw none = raw < n
Answer n p a raw (some (q, addr)) = (addr ≡ a + head_s) × Taken n p q a

pub tag_alloc-Answer :
    (p : Pool) (a i n : ℕ)
    → IsPool p
    → 0 < n
    → (l : Listed p a i) → Returns (Answer n p a l.raw) (tag_alloc p a n)
unfolding tag_alloc
tag_alloc-Answer p a i n v pos l =
    let s = l.spot in
    let size : tag_size s.tag ≡ l.raw = ap tag_size l.tag in
    rw l.found (
      Returns-if (ltb (tag_size s.tag) n) (λ h. returns (ground (arith, size)))
        (λ h.
          Returns-bind
            (take_tag-Taken p s a (tag_size s.tag) v (locate-At a p.blks s l.found)
              (l.tag ∙ ap unuse (sym size)) n pos (ground arith))
            λ (q, addr) t. returns t))
