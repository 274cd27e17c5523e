-- ===== src/Pool/Free/Loop.antt =====
-- The whole loop of `tl_pool_tag_free`.
use common_tool.Base.{
  ℕ, ◌+◌, ◌-◌, ◌≡◌, refl, ◌∙◌, subst, Bool, true, false, List, [], ◌∷◌, Option, arith, Returns,
  returns, Returns-bind, Returns-map,
}
use common_tool.Pool.{Tag, used, unuse, Pool, rm_tag}
use common_tool.Pool.Rings.{Same}
use common_tool.Pool.Free.{free_loop}
use common_tool.Pool.Free.Merge.{
  Outcome, Ready, settle-Merged, Outcome-shift, step_right, step_left, right_tally, left_tally,
}

module _ (start : ℕ) (rest : ℕ → ℕ → ℕ) where
  shift_right :
      (own : Bool) (p q : Pool) (ls : List Tag) (n m : ℕ) (rs : List Tag)
      (r : Pool × Option (List Tag))
      → Same p q
      → Outcome own start rest q ls (n + m) rs r
      → Outcome own start rest p ls n (unuse m ∷ rs) r
  shift_right own p q ls n m rs r s o =
      Outcome-shift own start rest p q ls ls n (n + m) (unuse m ∷ rs) rs r s (omega arith)
        (right_tally own start rest ls n m rs) o

  shift_left :
      (own : Bool) (p q : Pool) (k : ℕ) (ls : List Tag) (n : ℕ) (rs : List Tag)
      (r : Pool × Option (List Tag))
      → Same p q
      → Outcome own start rest q ls (k + n) rs r
      → Outcome own start rest p (unuse k ∷ ls) n rs r
  shift_left own p q k ls n rs r s o =
      Outcome-shift own start rest p q (unuse k ∷ ls) ls n (k + n) rs rs r s (omega arith)
        (left_tally own start rest k ls n rs) o

  pub free_loop-Outcome :
      (own : Bool) (p : Pool) (ls : List Tag) (a n : ℕ) (rs : List Tag)
      → Ready own start rest p ls a n rs
      → Returns (Outcome own start rest p ls n rs) (free_loop own p ls a n rs)
  unfolding free_loop
  free_loop-Outcome true p [] a n [] v = settle-Merged true start rest p [] a n [] v tt tt
  free_loop-Outcome false p [] a n [] v = returns (record {
    same = record { cnt = refl; home = refl; blks = refl };
    rings = λ b i. v.rings b i ∙ omega arith;
    foreign = refl;
    kept = λ w z. refl;
  })
  free_loop-Outcome own p [] a n (used m ∷ rs) v =
      settle-Merged own start rest p [] a n (used m ∷ rs) v tt v.right_ok
  free_loop-Outcome own p [] a n (unuse m ∷ rs) v =
      Returns-bind (step_right own start rest p [] a n m rs v) λ q (s, t).
        Returns-map (free_loop-Outcome own q [] a (n + m) rs t)
          λ r o. shift_right own p q [] n m rs r s o
  free_loop-Outcome own p (used k ∷ ls) a n [] v =
      settle-Merged own start rest p (used k ∷ ls) a n [] v v.left_ok tt
  free_loop-Outcome own p (unuse k ∷ ls) a n [] v =
      Returns-bind (step_left own start rest p k ls a n [] v) λ q (s, t).
        Returns-map (free_loop-Outcome own q ls (a - k) (k + n) [] t)
          λ r o. shift_left own p q k ls n [] r s o
  free_loop-Outcome own p (used k ∷ ls) a n (used m ∷ rs) v =
      settle-Merged own start rest p (used k ∷ ls) a n (used m ∷ rs) v v.left_ok v.right_ok
  free_loop-Outcome own p (used k ∷ ls) a n (unuse m ∷ rs) v =
      Returns-bind (step_right own start rest p (used k ∷ ls) a n m rs v) λ q (s, t).
        Returns-map (free_loop-Outcome own q (used k ∷ ls) a (n + m) rs t)
          λ r o. shift_right own p q (used k ∷ ls) n m rs r s o
  free_loop-Outcome own p (unuse k ∷ ls) a n (used m ∷ rs) v =
      Returns-bind (step_left own start rest p k ls a n (used m ∷ rs) v) λ q (s, t).
        Returns-map (free_loop-Outcome own q ls (a - k) (k + n) (used m ∷ rs) t)
          λ r o. shift_left own p q k ls n (used m ∷ rs) r s o
  free_loop-Outcome own p (unuse k ∷ ls) a n (unuse m ∷ rs) v =
      Returns-bind (step_left own start rest p k ls a n (unuse m ∷ rs) v) λ q (s, t).
        let at : a - k + (k + n) ≡ a + n = omega (arith, v.place) in
        Returns-bind
          (subst
            (λ c.
              Returns (λ r. Same q r × Ready own start rest r ls (a - k) (k + n + m) rs)
                (rm_tag q c m))
            at (step_right own start rest q ls (a - k) (k + n) m rs t))
          λ r (s', t'). Returns-map (free_loop-Outcome own r ls (a - k) (k + n + m) rs t') λ x o.
            shift_left own p q k ls n (unuse m ∷ rs) x s
              (shift_right own q r ls (k + n) m rs x s' o)
