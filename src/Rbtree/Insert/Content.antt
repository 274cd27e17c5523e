-- ===== src/Rbtree/Insert/Content.antt =====
-- The order of the entries under the rotations and the insertion.
use common_tool.Base.{
  ◌≡◌, refl, sym, ◌∙◌, List, [], ◌∷◌, ◌++◌, append_assoc, append-nil, arith, Run, ok,
}
use common_tool.Rbtree.{
  red, black, Tree, leaf, node, Frame, left, right, blacken, plug, l_rotate, r_rotate, inorder,
  before, after,
}
use common_tool.Rbtree.Insert.{finish, lift_left, lift_right, i_adjust}

module _ {ℓ} {A : Type ℓ} where
  pub inorder-plug :
      (t : Tree A) (p : List (Frame A)) → inorder (plug t p) ≡ before p ++ (inorder t ++ after p)
  inorder-plug t [] = sym (append-nil (inorder t))
  inorder-plug t (left c e r ∷ p) = inorder-plug (node c t e r) p ∙ simp append_assoc
  inorder-plug t (right c l e ∷ p) = inorder-plug (node c l e t) p ∙ simp append_assoc

  pub inorder-blacken : (t : Tree A) → inorder (blacken t) ≡ inorder t
  inorder-blacken leaf = refl
  inorder-blacken (node c l e r) = refl

  -- A run that returns a tree with the entries `xs`, if it returns.
  abbrev pub Keeps : List A → Run (Tree A) → Type ℓ
  Keeps xs r = (u : Tree A) → r ≡ ok u → inorder u ≡ xs

  Keeps-finish :
      (t : Tree A) (p : List (Frame A)) → Keeps (before p ++ (inorder t ++ after p)) (finish t p)
  Keeps-finish t p u e = ground (arith, inorder-blacken (plug t p), inorder-plug t p)

  pub i_adjust-Keeps :
      (t : Tree A) (p : List (Frame A)) → Keeps (before p ++ (inorder t ++ after p)) (i_adjust t p)
  unfolding i_adjust lift_left lift_right l_rotate r_rotate
  i_adjust-Keeps t [] = Keeps-finish t []
  i_adjust-Keeps t (left black e r ∷ p) = Keeps-finish t (left black e r ∷ p)
  i_adjust-Keeps t (right black l e ∷ p) = Keeps-finish t (right black l e ∷ p)
  i_adjust-Keeps t (left red e r ∷ []) = λ u e. cc
  i_adjust-Keeps t (right red l e ∷ []) = λ u e. cc
  i_adjust-Keeps t (left red e r ∷ left c ge (node red ul ue ur) ∷ p) = λ u h.
      i_adjust-Keeps (node red (node black t e r) ge (node black ul ue ur)) p u h
      ∙ simp append_assoc
  i_adjust-Keeps t (left red e r ∷ left c ge gr ∷ p) =
      λ u h. Keeps-finish (node black t e (node red r ge gr)) p u h ∙ simp append_assoc
  i_adjust-Keeps t (right red l e ∷ left c ge (node red ul ue ur) ∷ p) = λ u h.
      i_adjust-Keeps (node red (node black l e t) ge (node black ul ue ur)) p u h
      ∙ simp append_assoc
  i_adjust-Keeps leaf (right red l e ∷ left c ge gr ∷ p) = λ u h. cc
  i_adjust-Keeps (node k a f b) (right red l e ∷ left c ge gr ∷ p) = λ u h.
      Keeps-finish (node black (node red l e a) f (node red b ge gr)) p u h ∙ simp append_assoc
  i_adjust-Keeps t (right red l e ∷ right c (node red ul ue ur) ge ∷ p) = λ u h.
      i_adjust-Keeps (node red (node black ul ue ur) ge (node black l e t)) p u h
      ∙ simp append_assoc
  i_adjust-Keeps t (right red l e ∷ right c gl ge ∷ p) =
      λ u h. Keeps-finish (node black (node red gl ge l) e t) p u h ∙ simp append_assoc
  i_adjust-Keeps t (left red e r ∷ right c (node red ul ue ur) ge ∷ p) = λ u h.
      i_adjust-Keeps (node red (node black ul ue ur) ge (node black t e r)) p u h
      ∙ simp append_assoc
  i_adjust-Keeps leaf (left red e r ∷ right c gl ge ∷ p) = λ u h. cc
  i_adjust-Keeps (node k a f b) (left red e r ∷ right c gl ge ∷ p) = λ u h.
      Keeps-finish (node black (node red gl ge a) f (node red b e r)) p u h ∙ simp append_assoc
