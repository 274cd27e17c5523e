-- ===== src/Pool/Locate.antt =====
-- What is at the address of a tag.
use common_tool.Base.{
  ℕ, ◌+◌, ◌≤◌, ◌<◌, ◌≡◌, inl, inr, refl, ap, subst, false, List, [], ◌∷◌, none, some, arith, ◌==◌,
  Bool-cases, Option-cases,
}
use common_tool.Pool.{Tag, tag_size, total, Blk, Spot, find_tag, locate, blk_s}
use common_tool.Pool.Layout.{
  tally, tally_blks, tally_below, tally_above, Local, total-plug, Positive, Positive-parts,
}
use common_tool.Pool.Invariant.{IsBlk, All, Apart, AllApart, At, find_tag-plug}

module _ (a : ℕ) (w : ℕ → Tag → ℕ) (local : Local a w) where
  find_tag-Local :
      (cur : ℕ) (ls ts : List Tag) (r : List Tag × Tag × List Tag)
      → Positive ts
      → find_tag a cur ls ts ≡ some r
      → tally w cur ts ≡ w a r.1
  unfolding find_tag
  find_tag-Local cur ls [] r p h = cc
  find_tag-Local cur ls (t ∷ ts) r p h = elim (Bool-cases (cur == a)) [
    | inl q ↦
        let here : cur ≡ a = ground arith in
        let same : t ≡ r.1 = ground arith in
        let size = p.0 in
        let others = tally_below a w local (cur + tag_size t) ts (omega arith) in
        omega (arith, ap (λ c. w c t) here, ap (w a) same)
    | inr q ↦
        let elsewhere : w cur t ≡ 0 = local cur t (λ e. ground arith) in
        omega (arith, find_tag-Local (cur + tag_size t) (t ∷ ls) ts r p.1 (ground arith))
  ]

  find_tag-none : (cur : ℕ) (ls ts : List Tag) → find_tag a cur ls ts ≡ none → tally w cur ts ≡ 0
  unfolding find_tag
  find_tag-none cur ls [] h = refl
  find_tag-none cur ls (t ∷ ts) h =
      let q : (cur == a) ≡ false = ground arith in
      omega (
        arith,
        local cur t (λ e. ground arith),
        find_tag-none (cur + tag_size t) (t ∷ ls) ts (ground arith),
      )

  -- A block apart from the one where the tag is found has no share.
  Apart-none :
      (home : ℕ) (b : Blk) (bs : List Blk)
      → b.base + blk_s ≤ a
      → a < b.base + b.size
      → All (IsBlk home) bs
      → All (Apart b) bs
      → tally_blks w bs ≡ 0
  Apart-none home b [] h k v p = refl
  Apart-none home b (c ∷ bs) h k v p =
      let rest = Apart-none home b bs h k v.1 p.1 in
      elim p.0 [
        | inl e ↦ omega (arith, tally_below a w local (c.base + blk_s) c.tags (omega arith))
        | inr e ↦ omega (
          arith,
          tally_above a w local (c.base + blk_s) c.tags v.0.positive (omega (arith, v.0.sized)),
        )
      ]

pub locate-At : (a : ℕ) (bs : List Blk) (s : Spot) → locate a bs ≡ some s → At a bs s
unfolding locate
locate-At a [] s h = cc
locate-At a (b ∷ bs) s h = elim (Option-cases (find_tag a (b.base + blk_s) [] b.tags)) [
  | inl e ↦ elim (Option-cases (locate a bs)) [
    | inl e' ↦ absurd (ground arith)
    | inr (t, e') ↦
        let rest = locate-At a bs t e' in
        let same : record t { front = b ∷ t.front } ≡ s = ground arith in
        subst (At a (b ∷ bs)) same
          (record { split = ap (◌∷◌ b) rest.split; tags = rest.tags; place = rest.place })
  ]
  | inr (r, e) ↦
      let p = find_tag-plug a (b.base + blk_s) (b.base + blk_s) [] b.tags r (omega arith) e in
      let same : record { front = []; blk = b; ls = r.0; tag = r.1; rs = r.2; back = bs } ≡ s =
        ground arith in
      subst (At a (b ∷ bs)) same (record { split = refl; tags = p.0; place = p.1 })
]

-- A weight of the tags at the address counts the tag that is found, and nothing if there is none.
module _ (a : ℕ) (w : ℕ → Tag → ℕ) (local : Local a w) where
  pub locate-Local :
      (home : ℕ) (bs : List Blk) (s : Spot)
      → All (IsBlk home) bs
      → AllApart bs
      → locate a bs ≡ some s
      → tally_blks w bs ≡ w a s.tag
  unfolding locate
  locate-Local home [] s v p h = cc
  locate-Local home (b ∷ bs) s v p h = elim (Option-cases (find_tag a (b.base + blk_s) [] b.tags)) [
    | inl e ↦ elim (Option-cases (locate a bs)) [
      | inl e' ↦ absurd (ground arith)
      | inr (t, e') ↦
          let same : t.tag ≡ s.tag = ground arith in
          omega (
            arith,
            find_tag-none a w local (b.base + blk_s) [] b.tags e,
            locate-Local home bs t v.1 p.1 e',
            ap (w a) same,
          )
    ]
    | inr (r, e) ↦
        let q = find_tag-plug a (b.base + blk_s) (b.base + blk_s) [] b.tags r (omega arith) e in
        let pos = Positive-parts r.0 (r.1 ∷ r.2) (subst Positive q.0 v.0.positive) in
        let same : r.1 ≡ s.tag = ground arith in
        omega (
          arith,
          find_tag-Local a w local (b.base + blk_s) [] b.tags r v.0.positive e,
          ap (w a) same,
          Apart-none a w local home b bs (omega (arith, q.1))
              (omega (arith, q.1, v.0.sized, ap total q.0, total-plug r.0 (r.1 ∷ r.2), pos.1.0)) v.1
              p.0,
        )
  ]

  pub locate-none : (bs : List Blk) → locate a bs ≡ none → tally_blks w bs ≡ 0
  unfolding locate
  locate-none [] h = refl
  locate-none (b ∷ bs) h = elim (Option-cases (find_tag a (b.base + blk_s) [] b.tags)) [
    | inl e ↦ elim (Option-cases (locate a bs)) [
      | inl e' ↦
          omega (arith, find_tag-none a w local (b.base + blk_s) [] b.tags e, locate-none bs e')
      | inr (t, e') ↦ absurd (ground arith)
    ]
    | inr (r, e) ↦ absurd (ground arith)
  ]

-- The tag that a weight of one address shows to be there.
pub locate-found :
    (a : ℕ) (w : ℕ → Tag → ℕ) (home : ℕ) (bs : List Blk)
    → Local a w
    → All (IsBlk home) bs
    → AllApart bs
    → 0 < tally_blks w bs
    → (s : Spot) × (locate a bs ≡ some s) × (tally_blks w bs ≡ w a s.tag)
locate-found a w home bs local v p h = elim (Option-cases (locate a bs)) [
  | inl e ↦ absurd (omega (arith, locate-none a w local bs e))
  | inr (s, e) ↦ (s, e, locate-Local a w local home bs s v p e)
]
