-- ===== src/Pool/Rings.antt =====
-- The rings of unused tags as multisets.
use common_tool.Base.{
  ℕ, ◌+◌, ◌<◌, ◌≡◌, refl, ◌∙◌, true, List, [], ◌∷◌, arith, ltb, ◌==◌, if◌then◌else◌, Returns,
  returns, Returns-bind, Returns-if,
}
use common_tool.Pool.{Pool, unlink, add_tag, rm_tag, size2idx, max_index}
use common_tool.Pool.Layout.{mark}

abbrev pub count : ℕ → List ℕ → ℕ
count a [] = 0
count a (x ∷ xs) = (if x == a then 1 else 0) + count a xs

unlink-count :
    (a : ℕ) (xs : List ℕ)
    → 0 < count a xs
    → Returns (λ ys. (b : ℕ) → count b ys + (if a == b then 1 else 0) ≡ count b xs) (unlink a xs)
unfolding unlink
unlink-count a [] h = elim h [ ]
unlink-count a (x ∷ xs) h =
    Returns-if (x == a) (λ e. returns λ b. ground arith)
      (λ e. Returns-bind (unlink-count a xs (ground arith)) λ ys k. returns λ b. omega (arith, k b))

-- The pool `q` differs from `p` in its rings only.
pub record Same (p q : Pool) : Type 0 where
  pub cnt : q.cnt ≡ p.cnt
  pub home : q.home ≡ p.home
  pub blks : q.blks ≡ p.blks

pub Same-trans : {p q r : Pool} → Same p q → Same q r → Same p r
Same-trans s t = record { cnt = t.cnt ∙ s.cnt; home = t.home ∙ s.home; blks = t.blks ∙ s.blks }

-- How often each address stands in each ring.
abbrev pub Rings : Pool → (ℕ → ℕ → ℕ) → Type 0
Rings p f = (b i : ℕ) → count b (p.bkt i) ≡ f b i

pub rm_tag-Rings :
    (p : Pool) (g : ℕ → ℕ → ℕ) (a n : ℕ)
    → size2idx n < max_index
    → Rings p (λ b i. g b i + mark a (size2idx n) b i)
    → Returns (λ q. Same p q × Rings q g) (rm_tag p a n)
unfolding rm_tag
rm_tag-Rings p g a n h k =
    let idx = size2idx n in
    let inside : ltb idx max_index ≡ true = ground arith in
    rw inside (
      Returns-bind (unlink-count a (p.bkt idx) (ground (arith, k a idx))) λ xs u.
        returns
          (record { cnt = refl; home = refl; blks = refl }, λ b i. ground (arith, k b i, u b)))

pub add_tag-Rings :
    (p : Pool) (g : ℕ → ℕ → ℕ) (a idx : ℕ)
    → idx < max_index
    → Rings p g
    → Returns (λ q. Same p q × Rings q (λ b i. g b i + mark a idx b i)) (add_tag p idx a)
unfolding add_tag
add_tag-Rings p g a idx h k =
    let inside : ltb idx max_index ≡ true = ground arith in
    rw inside
      (returns (record { cnt = refl; home = refl; blks = refl }, λ b i. ground (arith, k b i)))
