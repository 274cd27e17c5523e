-- ===== src/Rbtree/Insert/Shape.antt =====
-- The shape of the tree under `i_adjust`, where a red node may stand under a red father.
use common_tool.Base.{ℕ, suc, subst, ◌≡◌, refl, sym, List, [], ◌∷◌, arith, Returns, returns}
use common_tool.Rbtree.{
  red, black, Tree, leaf, node, Frame, left, right, color, plug, l_rotate, r_rotate,
}
use common_tool.Rbtree.Shape.{
  height, IsBalanced, IsColored, IsRedBlack, IsBalancedPath, IsColoredPath, Fits, Fits-black,
  plug-IsRedBlack, blacken_black, blacken-IsRedBlack,
}
use common_tool.Rbtree.Insert.{finish, lift_left, lift_right, i_adjust}

module _ {ℓ} {A : Type ℓ} where
  finish-IsRedBlack :
      (t : Tree A) (p : List (Frame A))
      → IsBalanced t
      → IsBalancedPath p (height t)
      → IsColored t
      → IsColoredPath p
      → Fits p (color t)
      → Returns IsRedBlack (finish t p)
  finish-IsRedBlack t p b q k h f =
      let v = plug-IsRedBlack t p b q k h f in rw (blacken_black (plug t p) v.root) (returns v)

  moved :
      (p : List (Frame A)) {m n : ℕ} → m ≡ n → IsBalancedPath p (suc n) → IsBalancedPath p (suc m)
  moved p e q = subst (λ n. IsBalancedPath p (suc n)) (sym e) q

  -- A black node over two colored trees, as the rotations leave it.
  risen :
      (x : Tree A) (e : A) (y : Tree A) (p : List (Frame A))
      → IsBalanced x × IsBalanced y × (height x ≡ height y)
      → IsBalancedPath p (suc (height x))
      → IsColored x × IsColored y
      → IsColoredPath p
      → Returns IsRedBlack (finish (node black x e y) p)
  risen x e y p b q k h =
      finish-IsRedBlack (node black x e y) p b q (k.0, k.1, tt, tt) h (Fits-black p)

  pub i_adjust-IsRedBlack :
      (t : Tree A) (p : List (Frame A))
      → color t ≡ red
      → IsBalanced t
      → IsBalancedPath p (height t)
      → IsColored t
      → IsColoredPath p
      → Returns IsRedBlack (i_adjust t p)
  unfolding i_adjust lift_left lift_right l_rotate r_rotate
  i_adjust-IsRedBlack t [] i b q k h = returns (blacken-IsRedBlack t b k)
  i_adjust-IsRedBlack t (left black e r ∷ p) i b q k h =
      finish-IsRedBlack t (left black e r ∷ p) b q k h tt
  i_adjust-IsRedBlack t (right black l e ∷ p) i b q k h =
      finish-IsRedBlack t (right black l e ∷ p) b q k h tt
  i_adjust-IsRedBlack t (left red e r ∷ []) i b q k h = ground arith
  i_adjust-IsRedBlack t (right red l e ∷ []) i b q k h = ground arith
  i_adjust-IsRedBlack t (left red e r ∷ left red ge gr ∷ p) i b q k h = ground arith
  i_adjust-IsRedBlack t (right red l e ∷ left red ge gr ∷ p) i b q k h = ground arith
  i_adjust-IsRedBlack t (left red e r ∷ right red gl ge ∷ p) i b q k h = ground arith
  i_adjust-IsRedBlack t (right red l e ∷ right red gl ge ∷ p) i b q k h = ground arith
  i_adjust-IsRedBlack t (left red e r ∷ left black ge (node red ul ue ur) ∷ p) i b q k h =
      i_adjust-IsRedBlack (node red (node black t e r) ge (node black ul ue ur)) p refl
        (ground arith) q.2.2 (ground arith) h.3.3
  i_adjust-IsRedBlack t (left red e r ∷ left black ge gr ∷ p) i b q k h =
      risen t e (node red r ge gr) p (ground arith) q.2.2 (ground arith) h.3.3
  i_adjust-IsRedBlack t (right red l e ∷ left black ge (node red ul ue ur) ∷ p) i b q k h =
      i_adjust-IsRedBlack (node red (node black l e t) ge (node black ul ue ur)) p refl
        (ground arith) (moved p q.1 q.2.2) (ground arith) h.3.3
  i_adjust-IsRedBlack leaf (right red l e ∷ left black ge gr ∷ p) i b q k h = ground arith
  i_adjust-IsRedBlack (node black a f c) (right red l e ∷ left black ge gr ∷ p) i b q k h =
      ground arith
  i_adjust-IsRedBlack (node red a f c) (right red l e ∷ left black ge gr ∷ p) i b q k h =
      risen (node red l e a) f (node red c ge gr) p (ground arith) (moved p q.1 q.2.2)
        (ground arith) h.3.3
  i_adjust-IsRedBlack t (right red l e ∷ right black (node red ul ue ur) ge ∷ p) i b q k h =
      i_adjust-IsRedBlack (node red (node black ul ue ur) ge (node black l e t)) p refl
        (ground arith) (moved p q.2.1 q.2.2) (ground arith) h.3.3
  i_adjust-IsRedBlack t (right red l e ∷ right black gl ge ∷ p) i b q k h =
      risen (node red gl ge l) e t p (ground arith) (moved p q.2.1 q.2.2) (ground arith) h.3.3
  i_adjust-IsRedBlack t (left red e r ∷ right black (node red ul ue ur) ge ∷ p) i b q k h =
      i_adjust-IsRedBlack (node red (node black ul ue ur) ge (node black t e r)) p refl
        (ground arith) (moved p q.2.1 q.2.2) (ground arith) h.3.3
  i_adjust-IsRedBlack leaf (left red e r ∷ right black gl ge ∷ p) i b q k h = ground arith
  i_adjust-IsRedBlack (node black a f c) (left red e r ∷ right black gl ge ∷ p) i b q k h =
      ground arith
  i_adjust-IsRedBlack (node red a f c) (left red e r ∷ right black gl ge ∷ p) i b q k h =
      risen (node red gl ge a) f (node red c e r) p (ground arith) (moved p q.2.1 q.2.2)
        (ground arith) h.3.3
