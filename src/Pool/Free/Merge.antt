-- ===== src/Pool/Free/Merge.antt =====
-- The loop of `tl_pool_tag_free`: what it needs, what it leaves, and its single steps.
use common_tool.Base.{
  ℕ, ◌+◌, ◌-◌, ◌^◌, ◌≤◌, ◌<◌, ◌≡◌, sym, ◌∙◌, ap, Bool, false, List, ◌∷◌, Option, none, some, arith,
  Returns, returns, Returns-bind, Returns-map,
}
use common_tool.Pool.{Tag, used, unuse, total, Pool, rm_tag, size2idx}
use common_tool.Pool.Size.{size2idx-small}
use common_tool.Pool.Layout.{
  Vanishes, LeftOk-used, RightOk-used, tally, tally_left, tally-plug, total-plug, LeftOk, RightOk,
  IsMerged, IsMerged-plug, Positive, Positive-plug, free_at_class, mark,
}
use common_tool.Pool.Rings.{Same, Same-trans, Rings, rm_tag-Rings, add_tag-Rings}
use common_tool.Pool.Free.{settle}

-- What the loop leaves: a block that is merged throughout, with the used tags where they were; or no
-- used tag at all, in a block that is not the pool's own. `rest` is what the rings hold of other blocks.
module _ (own : Bool) (start : ℕ) (rest : ℕ → ℕ → ℕ) where
  pub record Merged (p : Pool) (ls : List Tag) (n : ℕ) (rs : List Tag) (q : Pool) (ts : List Tag)
      : Type 0 where
    pub same : Same p q
    pub rings : Rings q (λ b i. rest b i + tally (free_at_class b i) start ts)
    pub size : total ts ≡ total ls + n + total rs
    pub merged : IsMerged ts
    pub positive : Positive ts
    pub kept :
        (w : ℕ → Tag → ℕ)
        → Vanishes w
        → tally w start ts ≡ tally_left w start ls + tally w (start + total ls + n) rs

  pub record Emptied (p : Pool) (ls : List Tag) (n : ℕ) (rs : List Tag) (q : Pool) : Type 0 where
    pub same : Same p q
    pub rings : Rings q rest
    pub foreign : own ≡ false
    pub kept :
        (w : ℕ → Tag → ℕ)
        → Vanishes w
        → tally_left w start ls + tally w (start + total ls + n) rs ≡ 0

  abbrev pub Outcome : Pool → List Tag → ℕ → List Tag → Pool × Option (List Tag) → Type 0
  Outcome p ls n rs (q, none) = Emptied p ls n rs q
  Outcome p ls n rs (q, some ts) = Merged p ls n rs q ts

  -- What the loop needs.
  pub record Ready (p : Pool) (ls : List Tag) (a n : ℕ) (rs : List Tag) : Type 0 where
    pub place : a ≡ start + total ls
    pub small : total ls + n + total rs ≤ 2 ^ 23
    pub some_size : 0 < n
    pub left_ok : LeftOk ls (used n)
    pub right_ok : RightOk (used n) rs
    pub left_positive : Positive ls
    pub right_positive : Positive rs
    pub rings : Rings p λ b i.
        rest b i + tally_left (free_at_class b i) start ls + tally (free_at_class b i) (a + n) rs

  pub settle-Merged :
      (p : Pool) (ls : List Tag) (a n : ℕ) (rs : List Tag)
      → Ready p ls a n rs
      → LeftOk ls (unuse n)
      → RightOk (unuse n) rs
      → Returns (Outcome p ls n rs) (settle p ls a n rs)
  unfolding settle
  settle-Merged p ls a n rs v h k =
      Returns-bind
        (add_tag-Rings p _ a (size2idx n) (size2idx-small n (omega (arith, v.small))) v.rings)
        λ q (s, r). returns (record {
          same = s;
          rings = λ b i.
              r b i
              ∙ omega (
                arith,
                tally-plug (free_at_class b i) start ls (unuse n ∷ rs),
                ap (λ c. mark c (size2idx n) b i) v.place,
                ap (λ c. tally (free_at_class b i) (c + n) rs) v.place,
              );
          size = omega (arith, total-plug ls (unuse n ∷ rs));
          merged = IsMerged-plug ls (unuse n) rs h k;
          positive =
              Positive-plug ls (unuse n ∷ rs) v.left_positive (v.some_size, v.right_positive);
          kept = λ w z. omega (arith, tally-plug w start ls (unuse n ∷ rs), z (start + total ls) n);
        })

  pub Outcome-shift :
      (p q : Pool) (ls ls' : List Tag) (n n' : ℕ) (rs rs' : List Tag) (r : Pool × Option (List Tag))
      → Same p q
      → total ls' + n' + total rs' ≡ total ls + n + total rs
      → ((w : ℕ → Tag → ℕ)
          → Vanishes w
          → tally_left w start ls' + tally w (start + total ls' + n') rs'
            ≡ tally_left w start ls + tally w (start + total ls + n) rs)
      → Outcome q ls' n' rs' r
      → Outcome p ls n rs r
  Outcome-shift p q ls ls' n n' rs rs' (r, none) s e k o = record {
    same = Same-trans s o.same;
    rings = o.rings;
    foreign = o.foreign;
    kept = λ w z. sym (k w z) ∙ o.kept w z;
  }
  Outcome-shift p q ls ls' n n' rs rs' (r, some ts) s e k o = record {
    same = Same-trans s o.same;
    rings = o.rings;
    size = o.size ∙ e;
    merged = o.merged;
    positive = o.positive;
    kept = λ w z. o.kept w z ∙ k w z;
  }

  -- The right neighbour leaves its ring.
  pub step_right :
      (p : Pool) (ls : List Tag) (a n m : ℕ) (rs : List Tag)
      → Ready p ls a n (unuse m ∷ rs)
      → Returns (λ q. Same p q × Ready q ls a (n + m) rs) (rm_tag p (a + n) m)
  step_right p ls a n m rs v =
      let next : a + n + m ≡ a + (n + m) = omega arith in
      Returns-map
        (rm_tag-Rings p
          (λ b i.
            rest b i
            + tally_left (free_at_class b i) start ls
            + tally (free_at_class b i) (a + (n + m)) rs)
          (a + n) m (size2idx-small m (omega (arith, v.small)))
          λ b i. v.rings b i ∙ omega (arith, ap (λ c. tally (free_at_class b i) c rs) next))
        λ q (s, r). (
          s,
          record {
            place = v.place;
            small = omega (arith, v.small);
            some_size = omega (arith, v.some_size);
            left_ok = LeftOk-used ls (used n) (n + m) v.left_ok;
            right_ok = RightOk-used (unuse m) rs (n + m) v.right_ok.1;
            left_positive = v.left_positive;
            right_positive = v.right_positive.1;
            rings = r;
          },
        )

  -- The left neighbour leaves its ring.
  pub step_left :
      (p : Pool) (k : ℕ) (ls : List Tag) (a n : ℕ) (rs : List Tag)
      → Ready p (unuse k ∷ ls) a n rs
      → Returns (λ q. Same p q × Ready q ls (a - k) (k + n) rs) (rm_tag p (a - k) k)
  step_left p k ls a n rs v =
      let at : a - k ≡ start + total ls = omega (arith, v.place) in
      let next : a + n ≡ a - k + (k + n) = omega (arith, v.place) in
      Returns-map
        (rm_tag-Rings p
          (λ b i.
            rest b i
            + tally_left (free_at_class b i) start ls
            + tally (free_at_class b i) (a - k + (k + n)) rs)
          (a - k) k (size2idx-small k (omega (arith, v.small)))
          λ b i.
            v.rings b i
            ∙ omega (
              arith,
              ap (λ c. tally (free_at_class b i) c rs) next,
              ap (λ c. mark c (size2idx k) b i) at,
            ))
        λ q (s, r). (
          s,
          record {
            place = at;
            small = omega (arith, v.small);
            some_size = omega (arith, v.some_size);
            left_ok = LeftOk-used ls (unuse k) (k + n) v.left_ok.1;
            right_ok = RightOk-used (used n) rs (k + n) v.right_ok;
            left_positive = v.left_positive.1;
            right_positive = v.right_positive;
            rings = r;
          },
        )

  pub right_tally :
      (ls : List Tag) (n m : ℕ) (rs : List Tag) (w : ℕ → Tag → ℕ)
      → Vanishes w
      → tally_left w start ls + tally w (start + total ls + (n + m)) rs
        ≡ tally_left w start ls + tally w (start + total ls + n) (unuse m ∷ rs)
  right_tally ls n m rs w z =
      let next : start + total ls + n + m ≡ start + total ls + (n + m) = omega arith in
      omega (arith, z (start + total ls + n) m, ap (λ c. tally w c rs) next)

  pub left_tally :
      (k : ℕ) (ls : List Tag) (n : ℕ) (rs : List Tag) (w : ℕ → Tag → ℕ)
      → Vanishes w
      → tally_left w start ls + tally w (start + total ls + (k + n)) rs
        ≡ tally_left w start (unuse k ∷ ls) + tally w (start + total (unuse k ∷ ls) + n) rs
  left_tally k ls n rs w z =
      let next : start + (k + total ls) + n ≡ start + total ls + (k + n) = omega arith in
      omega (arith, z (start + total ls) k, ap (λ c. tally w c rs) next)
