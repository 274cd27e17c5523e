-- ===== src/Rbtree/Cursor/Back.antt =====
-- A walk back with tl_rbtree_last and tl_rbtree_prev of trunk/src/tl_rbtree.c.
use common_tool.Base.{
  subst, ◌≡◌, refl, sym, ◌∙◌, Option, none, some, List, [], ◌∷◌, ◌++◌, append_assoc, append-nil,
}
use common_tool.Rbtree.{
  Color, Tree, leaf, node, Frame, left, right, Root, plug, inorder, before, after,
}
use common_tool.Rbtree.Cursor.{Cursor, rightmost, climb_prev, last_of, last, prev_at, prev, whole}
use common_tool.Rbtree.Cursor.Walk.{prior, later}

module _ {ℓ} {A : Type ℓ} where
  -- The cursor points into the tree `t`, with the entries `xs` up to its node and `ys` after it.
  pub record Ends (t : Tree A) (xs ys : List A) (cur : Cursor A) : Type ℓ where
    pub inside : whole cur ≡ t
    pub front : prior cur ++ cur.entry ∷ [] ≡ xs
    pub back : later cur ≡ ys

  abbrev pub StepsBack : Tree A → List A → List A → Option (Cursor A) → Type ℓ
  StepsBack t xs ys none = xs ≡ []
  StepsBack t xs ys (some cur) = Ends t xs ys cur

  rightmost-Ends :
      (c : Color) (l : Tree A) (e : A) (r : Tree A) (p : List (Frame A))
      → Ends
          (plug (node c l e r) p)
          (before p ++ inorder (node c l e r))
          (after p)
          (rightmost c l e r p)
  unfolding rightmost
  rightmost-Ends c l e leaf p = record {
    inside = refl;
    front = append_assoc (before p) (inorder l) (e ∷ []);
    back = refl;
  }
  rightmost-Ends c l e (node c' l' e' r') p =
      let s = rightmost-Ends c' l' e' r' (right c l e ∷ p) in
      record { inside = s.inside; front = s.front ∙ simp append_assoc; back = s.back }

  climb_prev-StepsBack :
      (t : Tree A) (p : List (Frame A))
      → StepsBack (plug t p) (before p) (inorder t ++ after p) (climb_prev t p)
  unfolding climb_prev
  climb_prev-StepsBack t [] = refl
  climb_prev-StepsBack t (right c l e ∷ p) = record {
    inside = refl;
    front = append_assoc (before p) (inorder l) (e ∷ []);
    back = refl;
  }
  climb_prev-StepsBack t (left c e r ∷ p) =
      subst (λ ys. StepsBack (plug (node c t e r) p) (before p) ys (climb_prev (node c t e r) p))
        (simp append_assoc) (climb_prev-StepsBack (node c t e r) p)

  prev_at-StepsBack :
      (c : Color) (l : Tree A) (e : A) (r : Tree A) (p : List (Frame A))
      → StepsBack
          (plug (node c l e r) p)
          (before p ++ inorder l)
          (e ∷ inorder r ++ after p)
          (prev_at c l e r p)
  unfolding prev_at
  prev_at-StepsBack c leaf e r p =
      subst
        (λ xs.
          StepsBack (plug (node c leaf e r) p) xs (e ∷ inorder r ++ after p)
            (climb_prev (node c leaf e r) p))
        (sym (append-nil (before p))) (climb_prev-StepsBack (node c leaf e r) p)
  prev_at-StepsBack c (node c' l' e' r') e r p = rightmost-Ends c' l' e' r' (left c e r ∷ p)

  -- tl_rbtree_prev goes to the entry before the node in order, in the same tree, and returns -1
  -- exactly at the first one.
  pub prev-StepsBack :
      (cur : Cursor A) → StepsBack (whole cur) (prior cur) (cur.entry ∷ later cur) (prev cur)
  unfolding prev
  prev-StepsBack cur = prev_at-StepsBack cur.tint cur.lc cur.entry cur.rc cur.path

  last_of-StepsBack : (t : Tree A) → StepsBack t (inorder t) [] (last_of t)
  unfolding last_of
  last_of-StepsBack leaf = refl
  last_of-StepsBack (node c l e r) = rightmost-Ends c l e r []

  -- tl_rbtree_last goes to the greatest entry, with all entries up to it, and returns -1 exactly on an
  -- empty tree.
  pub last-StepsBack : (root : Root A) → StepsBack root.first (inorder root.first) [] (last root)
  unfolding last
  last-StepsBack root = last_of-StepsBack root.first
