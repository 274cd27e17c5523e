-- ===== src/Pool/Alloc/Part.antt =====
-- What an allocation adds to a pool, and the used part of a tag.
use common_tool.Base.{ℕ, ◌+◌, ◌≤◌, ◌≡◌, refl, ap, List, ◌∷◌, ◌++◌, arith}
use common_tool.Pool.{Tag, used, unuse, total, Blk, Pool, Spot, plug, refill, blk_s}
use common_tool.Pool.Layout.{on_used, Vanishes, tally, tally_blks, tally-plug}
use common_tool.Pool.Invariant.{IsPool, used_size, At}
use common_tool.Pool.Refit.{tally_blks-at, tally-at, Fits, refit-IsPool}

-- The pool `q` after a tag of at least the size `n` became a used one, at the address `a`: every sum
-- over the used tags with their addresses gains that tag's share and nothing else.
pub record Taken (n : ℕ) (p q : Pool) (a : ℕ) : Type 0 where
  pub valid : IsPool q
  pub home : q.home ≡ p.home
  pub size : ℕ
  pub enough : n ≤ size
  pub kept :
      (w : ℕ → ℕ → ℕ) → tally_blks (on_used w) q.blks ≡ tally_blks (on_used w) p.blks + w a size

-- The used part `m` of an unused tag, and what follows it.
pub refit-Taken :
    (p q : Pool) (s : Spot) (a raw n m : ℕ) (ts : List Tag)
    → IsPool p
    → At a p.blks s
    → s.tag ≡ unuse raw
    → n ≤ m
    → ((tally_blks used_size (s.front ++ record s.blk { tags = plug s.ls (used m ∷ ts) } ∷ s.back)
          ≡ tally_blks used_size p.blks + m)
        → Fits p q s (plug s.ls (used m ∷ ts)))
    → ((w : ℕ → Tag → ℕ)
        → Vanishes w
        → tally w (s.blk.base + blk_s + total s.ls + m) ts
          ≡ tally w (s.blk.base + blk_s + total s.ls + raw) s.rs)
    → Taken n p (record q { blks = refill s (used m ∷ ts) }) a
refit-Taken p q s a raw n m ts v at e le fits t =
    let start = s.blk.base + blk_s in
    let b' : Blk = record s.blk { tags = plug s.ls (used m ∷ ts) } in
    let kept : (w : ℕ → Tag → ℕ)
        → Vanishes w
        → tally_blks w (s.front ++ b' ∷ s.back) ≡ tally_blks w p.blks + w a (used m) =
      λ w z. omega (
        arith,
        t w z,
        z a raw,
        tally-at a (unuse raw) p.blks s at e w,
        ap (λ c. w c (used m)) at.place,
        tally-plug w start s.ls (used m ∷ ts),
        ap (tally_blks w) at.split,
        tally_blks-at w s.front s.blk s.back,
        tally_blks-at w s.front b' s.back,
      ) in
    let f = fits (kept used_size (λ c n. refl)) in
    record {
      valid = refit-IsPool a p q s (plug s.ls (used m ∷ ts)) v at f;
      home = f.home;
      size = m;
      enough = le;
      kept = λ w. kept (on_used w) (λ c n. refl);
    }
