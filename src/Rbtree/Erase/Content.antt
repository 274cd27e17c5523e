-- ===== src/Rbtree/Erase/Content.antt =====
-- The order of the entries under `d_adjust` and the rotations in it.
use common_tool.Base.{
  ◌≡◌, refl, sym, ◌∙◌, ap, subst, List, [], ◌∷◌, ◌++◌, append_assoc, append-nil, Run, ok, fault,
  out_of_fuel, ◌>>=◌,
}
use common_tool.Rbtree.{
  Color, red, black, Tree, leaf, node, Frame, left, right, blacken, plug, l_rotate, r_rotate,
  inorder, before, after,
}
use common_tool.Rbtree.Insert.Content.{inorder-plug, inorder-blacken}
use common_tool.Rbtree.Erase.{
  Next, up, done, turn_left, turn_right, brother_left, brother_right, last, d_adjust, take_out,
}

module _ {ℓ} {A : Type ℓ} where
  abbrev tree_of : Next A → Tree A
  tree_of (up t) = t
  tree_of (done t) = t

  -- The entries of what a call returns, if it returns.
  abbrev NextKept : List A → Run (Next A) → Type ℓ
  NextKept xs (ok x) = inorder (tree_of x) ≡ xs
  NextKept xs fault = Unit
  NextKept xs out_of_fuel = Unit

  abbrev pub Kept : List A → Run (Tree A) → Type ℓ
  Kept xs (ok t) = inorder t ≡ xs
  Kept xs fault = Unit
  Kept xs out_of_fuel = Unit

  brother_right-NextKept :
      (fc : Color) (t : Tree A) (e : A) (b : Tree A)
      → NextKept (inorder t ++ e ∷ inorder b) (brother_right fc t e b)
  unfolding brother_right turn_left l_rotate r_rotate
  brother_right-NextKept fc t e leaf = tt
  brother_right-NextKept fc t e (node red l f r) = tt
  brother_right-NextKept fc t e (node black l f (node red rl re rr)) = simp append_assoc
  brother_right-NextKept fc t e (node black (node red ll le lr) f leaf) = simp append_assoc
  brother_right-NextKept fc t e (node black (node red ll le lr) f (node black rl re rr)) =
      simp append_assoc
  brother_right-NextKept fc t e (node black leaf f leaf) = refl
  brother_right-NextKept fc t e (node black leaf f (node black rl re rr)) = refl
  brother_right-NextKept fc t e (node black (node black ll le lr) f leaf) = refl
  brother_right-NextKept fc t e (node black (node black ll le lr) f (node black rl re rr)) = refl

  brother_left-NextKept :
      (fc : Color) (b : Tree A) (e : A) (t : Tree A)
      → NextKept (inorder b ++ e ∷ inorder t) (brother_left fc b e t)
  unfolding brother_left turn_right l_rotate r_rotate
  brother_left-NextKept fc leaf e t = tt
  brother_left-NextKept fc (node red l f r) e t = tt
  brother_left-NextKept fc (node black (node red ll le lr) f r) e t = simp append_assoc
  brother_left-NextKept fc (node black leaf f (node red rl re rr)) e t = simp append_assoc
  brother_left-NextKept fc (node black (node black ll le lr) f (node red rl re rr)) e t =
      simp append_assoc
  brother_left-NextKept fc (node black leaf f leaf) e t = refl
  brother_left-NextKept fc (node black leaf f (node black rl re rr)) e t = refl
  brother_left-NextKept fc (node black (node black ll le lr) f leaf) e t = refl
  brother_left-NextKept fc (node black (node black ll le lr) f (node black rl re rr)) e t = refl

  bind-Kept :
      (xs ys : List A) (call : Run (Next A)) (next : Next A → Run (Tree A))
      → NextKept xs call
      → ((u : Next A) → inorder (tree_of u) ≡ xs → Kept ys (next u))
      → Kept ys (call >>= next)
  bind-Kept xs ys (ok u) next h k = k u h
  bind-Kept xs ys fault next h k = tt
  bind-Kept xs ys out_of_fuel next h k = tt

  -- A subtree with the entries `xs` at the end of a path.
  plugged :
      (p : List (Frame A)) (t : Tree A) (xs ys : List A)
      → inorder t ≡ xs
      → before p ++ (xs ++ after p) ≡ ys
      → inorder (plug t p) ≡ ys
  plugged p t xs ys e h = inorder-plug t p ∙ ap (λ l. before p ++ (l ++ after p)) e ∙ h

  last-Kept :
      (p : List (Frame A)) (xs ys : List A) (u : Next A)
      → inorder (tree_of u) ≡ xs
      → before p ++ (xs ++ after p) ≡ ys
      → Kept ys (last p u)
  unfolding last
  last-Kept p xs ys (up t) e h = plugged p (blacken t) xs ys (inorder-blacken t ∙ e) h
  last-Kept p xs ys (done t) e h = inorder-blacken (plug t p) ∙ plugged p t xs ys e h

  round-Kept :
      (p : List (Frame A)) (xs ys : List A) (u : Next A)
      → inorder (tree_of u) ≡ xs
      → before p ++ (xs ++ after p) ≡ ys
      → ((v : Tree A) → Kept (before p ++ (inorder v ++ after p)) (d_adjust v p))
      → Kept ys (elim u [ up v ↦ d_adjust v p | done v ↦ ok (blacken (plug v p)) ])
  round-Kept p xs ys (up v) e h again =
      subst (λ l. Kept l (d_adjust v p)) (ap (λ l. before p ++ (l ++ after p)) e ∙ h) (again v)
  round-Kept p xs ys (done v) e h again = inorder-blacken (plug v p) ∙ plugged p v xs ys e h

  d_adjust-Kept :
      (t : Tree A) (p : List (Frame A)) → Kept (before p ++ (inorder t ++ after p)) (d_adjust t p)
  unfolding d_adjust
  d_adjust-Kept t [] = inorder-blacken t ∙ sym (append-nil (inorder t))
  d_adjust-Kept (node red l e r) (f ∷ p) = inorder-plug (node black l e r) (f ∷ p)
  d_adjust-Kept leaf (left red x (node red bl be br) ∷ p) = tt
  d_adjust-Kept leaf (right red (node red bl be br) x ∷ p) = tt
  d_adjust-Kept leaf (left black x (node red bl be br) ∷ p) =
      bind-Kept _ _ (brother_right red leaf x bl) _ (brother_right-NextKept red leaf x bl)
        λ u e. last-Kept (left black be br ∷ p) _ _ u e (simp append_assoc)
  d_adjust-Kept leaf (right black (node red bl be br) x ∷ p) =
      bind-Kept _ _ (brother_left red br x leaf) _ (brother_left-NextKept red br x leaf)
        λ u e. last-Kept (right black bl be ∷ p) _ _ u e (simp append_assoc)
  d_adjust-Kept leaf (left red x leaf ∷ p) =
      bind-Kept _ _ (brother_right red leaf x leaf) _ (brother_right-NextKept red leaf x leaf)
        λ u e. round-Kept p _ _ u e (simp append_assoc) λ v. d_adjust-Kept v p
  d_adjust-Kept leaf (right red leaf x ∷ p) =
      bind-Kept _ _ (brother_left red leaf x leaf) _ (brother_left-NextKept red leaf x leaf)
        λ u e. round-Kept p _ _ u e (simp append_assoc) λ v. d_adjust-Kept v p
  d_adjust-Kept leaf (left red x (node black bl be br) ∷ p) =
      bind-Kept _ _ (brother_right red leaf x (node black bl be br)) _
        (brother_right-NextKept red leaf x (node black bl be br))
        λ u e. round-Kept p _ _ u e (simp append_assoc) λ v. d_adjust-Kept v p
  d_adjust-Kept leaf (right red (node black bl be br) x ∷ p) =
      bind-Kept _ _ (brother_left red (node black bl be br) x leaf) _
        (brother_left-NextKept red (node black bl be br) x leaf)
        λ u e. round-Kept p _ _ u e (simp append_assoc) λ v. d_adjust-Kept v p
  d_adjust-Kept leaf (left black x leaf ∷ p) =
      bind-Kept _ _ (brother_right black leaf x leaf) _ (brother_right-NextKept black leaf x leaf)
        λ u e. round-Kept p _ _ u e (simp append_assoc) λ v. d_adjust-Kept v p
  d_adjust-Kept leaf (right black leaf x ∷ p) =
      bind-Kept _ _ (brother_left black leaf x leaf) _ (brother_left-NextKept black leaf x leaf)
        λ u e. round-Kept p _ _ u e (simp append_assoc) λ v. d_adjust-Kept v p
  d_adjust-Kept leaf (left black x (node black bl be br) ∷ p) =
      bind-Kept _ _ (brother_right black leaf x (node black bl be br)) _
        (brother_right-NextKept black leaf x (node black bl be br))
        λ u e. round-Kept p _ _ u e (simp append_assoc) λ v. d_adjust-Kept v p
  d_adjust-Kept leaf (right black (node black bl be br) x ∷ p) =
      bind-Kept _ _ (brother_left black (node black bl be br) x leaf) _
        (brother_left-NextKept black (node black bl be br) x leaf)
        λ u e. round-Kept p _ _ u e (simp append_assoc) λ v. d_adjust-Kept v p
  d_adjust-Kept (node black l y r) (left red x (node red bl be br) ∷ p) = tt
  d_adjust-Kept (node black l y r) (right red (node red bl be br) x ∷ p) = tt
  d_adjust-Kept (node black l y r) (left black x (node red bl be br) ∷ p) =
      bind-Kept _ _ (brother_right red (node black l y r) x bl) _
        (brother_right-NextKept red (node black l y r) x bl)
        λ u e. last-Kept (left black be br ∷ p) _ _ u e (simp append_assoc)
  d_adjust-Kept (node black l y r) (right black (node red bl be br) x ∷ p) =
      bind-Kept _ _ (brother_left red br x (node black l y r)) _
        (brother_left-NextKept red br x (node black l y r))
        λ u e. last-Kept (right black bl be ∷ p) _ _ u e (simp append_assoc)
  d_adjust-Kept (node black l y r) (left red x leaf ∷ p) =
      bind-Kept _ _ (brother_right red (node black l y r) x leaf) _
        (brother_right-NextKept red (node black l y r) x leaf)
        λ u e. round-Kept p _ _ u e (simp append_assoc) λ v. d_adjust-Kept v p
  d_adjust-Kept (node black l y r) (right red leaf x ∷ p) =
      bind-Kept _ _ (brother_left red leaf x (node black l y r)) _
        (brother_left-NextKept red leaf x (node black l y r))
        λ u e. round-Kept p _ _ u e (simp append_assoc) λ v. d_adjust-Kept v p
  d_adjust-Kept (node black l y r) (left red x (node black bl be br) ∷ p) =
      bind-Kept _ _ (brother_right red (node black l y r) x (node black bl be br)) _
        (brother_right-NextKept red (node black l y r) x (node black bl be br))
        λ u e. round-Kept p _ _ u e (simp append_assoc) λ v. d_adjust-Kept v p
  d_adjust-Kept (node black l y r) (right red (node black bl be br) x ∷ p) =
      bind-Kept _ _ (brother_left red (node black bl be br) x (node black l y r)) _
        (brother_left-NextKept red (node black bl be br) x (node black l y r))
        λ u e. round-Kept p _ _ u e (simp append_assoc) λ v. d_adjust-Kept v p
  d_adjust-Kept (node black l y r) (left black x leaf ∷ p) =
      bind-Kept _ _ (brother_right black (node black l y r) x leaf) _
        (brother_right-NextKept black (node black l y r) x leaf)
        λ u e. round-Kept p _ _ u e (simp append_assoc) λ v. d_adjust-Kept v p
  d_adjust-Kept (node black l y r) (right black leaf x ∷ p) =
      bind-Kept _ _ (brother_left black leaf x (node black l y r)) _
        (brother_left-NextKept black leaf x (node black l y r))
        λ u e. round-Kept p _ _ u e (simp append_assoc) λ v. d_adjust-Kept v p
  d_adjust-Kept (node black l y r) (left black x (node black bl be br) ∷ p) =
      bind-Kept _ _ (brother_right black (node black l y r) x (node black bl be br)) _
        (brother_right-NextKept black (node black l y r) x (node black bl be br))
        λ u e. round-Kept p _ _ u e (simp append_assoc) λ v. d_adjust-Kept v p
  d_adjust-Kept (node black l y r) (right black (node black bl be br) x ∷ p) =
      bind-Kept _ _ (brother_left black (node black bl be br) x (node black l y r)) _
        (brother_left-NextKept black (node black bl be br) x (node black l y r))
        λ u e. round-Kept p _ _ u e (simp append_assoc) λ v. d_adjust-Kept v p

  pub take_out-Kept :
      (c : Color) (t : Tree A) (p : List (Frame A))
      → Kept (before p ++ (inorder t ++ after p)) (take_out c t p)
  unfolding take_out
  take_out-Kept red t p = inorder-plug t p
  take_out-Kept black t p = d_adjust-Kept t p
