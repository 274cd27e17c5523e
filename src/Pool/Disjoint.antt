-- ===== src/Pool/Disjoint.antt =====
-- The places of the tags of a pool of trunk/src/tl_pool.c.
use common_tool.Base.{
  ℕ, ◌+◌, ◌≤◌, ◌<◌, ◌≡◌, ◌⊎◌, inl, inr, ap, subst, List, [], ◌∷◌, some, arith, ◌==◌, Bool-cases,
  Option-cases,
}
use common_tool.Pool.{Tag, tag_size, total, Blk, Pool, Spot, find_tag, locate, blk_s}
use common_tool.Pool.Layout.{total-plug, Positive}
use common_tool.Pool.Invariant.{IsBlk, IsPool, All, Apart, AllApart, find_tag-plug}

find_tag_from :
    (a cur : ℕ) (ls ts : List Tag) (r : List Tag × Tag × List Tag)
    → find_tag a cur ls ts ≡ some r
    → cur ≤ a
unfolding find_tag
find_tag_from a cur ls [] r h = cc
find_tag_from a cur ls (t ∷ ts) r h = elim (Bool-cases (cur == a)) [
  | inl q ↦ ground arith
  | inr q ↦ omega (arith, find_tag_from a (cur + tag_size t) (t ∷ ls) ts r (ground arith))
]

-- Two tags of a block, in the order of their addresses.
find_tag_apart :
    (a c cur : ℕ) (ls ls' ts : List Tag) (r r' : List Tag × Tag × List Tag)
    → Positive ts
    → a < c
    → find_tag a cur ls ts ≡ some r
    → find_tag c cur ls' ts ≡ some r'
    → a + tag_size r.1 ≤ c
unfolding find_tag
find_tag_apart a c cur ls ls' [] r r' p lt h k = cc
find_tag_apart a c cur ls ls' (t ∷ ts) r r' p lt h k =
    let next = cur + tag_size t in
    let size = p.0 in
    elim (Bool-cases (cur == c)) [
      | inl q ↦ elim (Bool-cases (cur == a)) [
        | inl q' ↦ absurd (ground arith)
        | inr q' ↦
            let low = find_tag_from a next (t ∷ ls) ts r (ground arith) in
            absurd (ground (arith, low))
      ]
      | inr q ↦ elim (Bool-cases (cur == a)) [
        | inl q' ↦
            let same : t ≡ r.1 = ground arith in
            let low = find_tag_from c next (t ∷ ls') ts r' (ground arith) in
            let here : cur ≡ a = ground arith in omega (arith, ap tag_size same, low, here)
        | inr q' ↦
            find_tag_apart a c next (t ∷ ls) (t ∷ ls') ts r r' p.1 lt (ground arith) (ground arith)
      ]
    ]

-- A tag of a block lies within it.
abbrev Within : Blk → ℕ → Tag → Type 0
Within b a t = (b.base ≤ a) × (a + tag_size t ≤ b.base + b.size)

find_tag-Within :
    (home a : ℕ) (b : Blk) (r : List Tag × Tag × List Tag)
    → IsBlk home b
    → find_tag a (b.base + blk_s) [] b.tags ≡ some r
    → Within b a r.1
find_tag-Within home a b r v h =
    let q = find_tag-plug a (b.base + blk_s) (b.base + blk_s) [] b.tags r (omega arith) h in
    (omega (arith, q.1), omega (arith, q.1, v.sized, ap total q.0, total-plug r.0 (r.1 ∷ r.2)))

-- A tag of one of the blocks is apart from a block that all of them are apart from.
locate-Apart :
    (home a : ℕ) (b : Blk) (bs : List Blk) (s : Spot)
    → All (IsBlk home) bs
    → All (Apart b) bs
    → locate a bs ≡ some s
    → (b.base + b.size ≤ a) ⊎ (a + tag_size s.tag ≤ b.base)
unfolding locate
locate-Apart home a b [] s v p h = cc
locate-Apart home a b (c ∷ bs) s v p h =
    elim (Option-cases (find_tag a (c.base + blk_s) [] c.tags)) [
      | inl e ↦ elim (Option-cases (locate a bs)) [
        | inl e' ↦ absurd (ground arith)
        | inr (t, e') ↦
            let same : t.tag ≡ s.tag = ground arith in
            subst (λ x. (b.base + b.size ≤ a) ⊎ (a + tag_size x ≤ b.base)) same
              (locate-Apart home a b bs t v.1 p.1 e')
      ]
      | inr (r, e) ↦
          let inside = find_tag-Within home a c r v.0 e in
          let same : tag_size r.1 ≡ tag_size s.tag = ground arith in
          elim p.0 [
            | inl l ↦ inl (omega (arith, inside.0))
            | inr g ↦ inr (omega (arith, inside.1, same))
          ]
    ]

tags_apart :
    (home a c : ℕ) (bs : List Blk) (s t : Spot)
    → All (IsBlk home) bs
    → AllApart bs
    → a < c
    → locate a bs ≡ some s
    → locate c bs ≡ some t
    → a + tag_size s.tag ≤ c
unfolding locate
tags_apart home a c [] s t v p lt h k = cc
tags_apart home a c (b ∷ bs) s t v p lt h k =
    let cur = b.base + blk_s in
    elim (Option-cases (find_tag a cur [] b.tags)) [
      | inl e ↦ elim (Option-cases (locate a bs)) [
        | inl e' ↦ absurd (ground arith)
        | inr (s', e') ↦
            let same : tag_size s'.tag ≡ tag_size s.tag = ground arith in
            elim (Option-cases (find_tag c cur [] b.tags)) [
              | inr (r', f) ↦
                  let inside = find_tag-Within home c b r' v.0 f in
                  elim (locate-Apart home a b bs s' v.1 p.0 e') [
                    | inl l ↦ absurd (omega (arith, inside.1))
                    | inr g ↦ omega (arith, inside.0, same)
                  ]
              | inl f ↦ elim (Option-cases (locate c bs)) [
                | inl f' ↦ absurd (ground arith)
                | inr (t', f') ↦ omega (arith, same, tags_apart home a c bs s' t' v.1 p.1 lt e' f')
              ]
            ]
      ]
      | inr (r, e) ↦
          let same : tag_size r.1 ≡ tag_size s.tag = ground arith in
          elim (Option-cases (find_tag c cur [] b.tags)) [
            | inr (r', e') ↦
                omega (arith, same, find_tag_apart a c cur [] [] b.tags r r' v.0.positive lt e e')
            | inl e' ↦ elim (Option-cases (locate c bs)) [
              | inl f ↦ absurd (ground arith)
              | inr (t', f) ↦
                  let inside = find_tag-Within home a b r v.0 e in
                  elim (locate-Apart home c b bs t' v.1 p.0 f) [
                    | inl l ↦ omega (arith, inside.1, same)
                    | inr g ↦ absurd (omega (arith, inside.0))
                  ]
            ]
          ]
    ]

-- In a valid pool a tag ends before any tag with a higher address begins.
pub tags-Apart :
    (p : Pool) (a c : ℕ) (s t : Spot)
    → IsPool p
    → a < c
    → locate a p.blks ≡ some s
    → locate c p.blks ≡ some t
    → a + tag_size s.tag ≤ c
tags-Apart p a c s t v lt h k = tags_apart p.home a c p.blks s t v.blocks v.apart lt h k
