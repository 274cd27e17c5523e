-- ===== src/Rbtree/Cursor/Walk.antt =====
-- A walk with tl_rbtree_first and tl_rbtree_next of trunk/src/tl_rbtree.c.
use common_tool.Base.{
  subst, ◌≡◌, refl, sym, ◌∙◌, Option, none, some, List, [], ◌∷◌, ◌++◌, append_assoc, append-nil,
}
use common_tool.Rbtree.{
  Color, Tree, leaf, node, Frame, left, right, Root, plug, inorder, before, after,
}
use common_tool.Rbtree.Cursor.{Cursor, leftmost, climb_next, first_of, first, next_at, next, whole}

module _ {ℓ} {A : Type ℓ} where
  -- The entries before the node of a cursor, and those after it.
  abbrev pub prior : Cursor A → List A
  prior cur = before cur.path ++ inorder cur.lc

  abbrev pub later : Cursor A → List A
  later cur = inorder cur.rc ++ after cur.path

  -- The cursor points into the tree `t`, with the entries `xs` before its node and `e ∷ ys` from it on.
  pub record Stands (t : Tree A) (xs ys : List A) (cur : Cursor A) : Type ℓ where
    pub inside : whole cur ≡ t
    pub front : prior cur ≡ xs
    pub back : cur.entry ∷ later cur ≡ ys

  -- A step that ends where `ys` does.
  abbrev pub Steps : Tree A → List A → List A → Option (Cursor A) → Type ℓ
  Steps t xs ys none = ys ≡ []
  Steps t xs ys (some cur) = Stands t xs ys cur

  leftmost-Stands :
      (c : Color) (l : Tree A) (e : A) (r : Tree A) (p : List (Frame A))
      → Stands
          (plug (node c l e r) p)
          (before p)
          (inorder (node c l e r) ++ after p)
          (leftmost c l e r p)
  unfolding leftmost
  leftmost-Stands c leaf e r p = record {
    inside = refl;
    front = append-nil (before p);
    back = refl;
  }
  leftmost-Stands c (node c' l' e' r') e r p =
      let s = leftmost-Stands c' l' e' r' (left c e r ∷ p) in
      record { inside = s.inside; front = s.front; back = s.back ∙ simp append_assoc }

  climb_next-Steps :
      (t : Tree A) (p : List (Frame A))
      → Steps (plug t p) (before p ++ inorder t) (after p) (climb_next t p)
  unfolding climb_next
  climb_next-Steps t [] = refl
  climb_next-Steps t (left c e r ∷ p) = record { inside = refl; front = refl; back = refl }
  climb_next-Steps t (right c l e ∷ p) =
      subst (λ xs. Steps (plug (node c l e t) p) xs (after p) (climb_next (node c l e t) p))
        (simp append_assoc) (climb_next-Steps (node c l e t) p)

  next_at-Steps :
      (c : Color) (l : Tree A) (e : A) (r : Tree A) (p : List (Frame A))
      → Steps
          (plug (node c l e r) p)
          ((before p ++ inorder l) ++ e ∷ [])
          (inorder r ++ after p)
          (next_at c l e r p)
  unfolding next_at
  next_at-Steps c l e leaf p =
      subst (λ xs. Steps (plug (node c l e leaf) p) xs (after p) (climb_next (node c l e leaf) p))
        (sym (append_assoc (before p) (inorder l) (e ∷ []))) (climb_next-Steps (node c l e leaf) p)
  next_at-Steps c l e (node c' l' e' r') p =
      let s = leftmost-Stands c' l' e' r' (right c l e ∷ p) in
      record { inside = s.inside; front = s.front ∙ simp append_assoc; back = s.back }

  -- tl_rbtree_next goes to the entry that follows in order, in the same tree, and returns -1 exactly
  -- behind the last one: `Steps` splits the entries at the node that it reaches.
  pub next-Steps :
      (cur : Cursor A) → Steps (whole cur) (prior cur ++ cur.entry ∷ []) (later cur) (next cur)
  unfolding next
  next-Steps cur = next_at-Steps cur.tint cur.lc cur.entry cur.rc cur.path

  first_of-Steps : (t : Tree A) → Steps t [] (inorder t) (first_of t)
  unfolding first_of
  first_of-Steps leaf = refl
  first_of-Steps (node c l e r) =
      let s = leftmost-Stands c l e r [] in
      record { inside = s.inside; front = s.front; back = s.back ∙ append-nil _ }

  -- tl_rbtree_first goes to the least entry, with all entries from there on, and returns -1 exactly on
  -- an empty tree.
  pub first-Steps : (root : Root A) → Steps root.first [] (inorder root.first) (first root)
  unfolding first
  first-Steps root = first_of-Steps root.first
