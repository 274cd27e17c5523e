-- ===== src/Rbtree/Cursor.antt =====
-- The cursors of trunk/src/tl_rbtree.c: tl_rbtree_first, _last, _next, _prev, _extract and _set. A
-- `tl_rbtree_entry_t` points at a node: here the node with its subtrees and its path. A function
-- that returns -1 leaves the cursor alone and is `none`.
pub mod Walk
pub mod Back
use common_tool.Base.{Option, none, some, List, [], ◌∷◌}
use common_tool.Rbtree.{Color, Tree, leaf, node, Frame, left, right, Root, plug}

-- `tl_rbtree_entry_t`
pub record Cursor {ℓ} (A : Type ℓ) : Type ℓ where
  pub tint : Color
  pub lc : Tree A
  pub entry : A
  pub rc : Tree A
  pub path : List (Frame A)

module _ {ℓ} {A : Type ℓ} where
  -- The loops down to the left and down to the right.
  pub leftmost : Color → Tree A → A → Tree A → List (Frame A) → Cursor A
  leftmost c leaf e r p = record { tint = c; lc = leaf; entry = e; rc = r; path = p }
  leftmost c (node c' l' e' r') e r p = leftmost c' l' e' r' (left c e r ∷ p)

  pub rightmost : Color → Tree A → A → Tree A → List (Frame A) → Cursor A
  rightmost c l e leaf p = record { tint = c; lc = l; entry = e; rc = leaf; path = p }
  rightmost c l e (node c' l' e' r') p = rightmost c' l' e' r' (right c l e ∷ p)

  -- The loops up, to the first father of which the subtree is not the right, or not the left child.
  pub climb_next : Tree A → List (Frame A) → Option (Cursor A)
  climb_next t [] = none
  climb_next t (left c e r ∷ p) = some (record { tint = c; lc = t; entry = e; rc = r; path = p })
  climb_next t (right c l e ∷ p) = climb_next (node c l e t) p

  pub climb_prev : Tree A → List (Frame A) → Option (Cursor A)
  climb_prev t [] = none
  climb_prev t (right c l e ∷ p) = some (record { tint = c; lc = l; entry = e; rc = t; path = p })
  climb_prev t (left c e r ∷ p) = climb_prev (node c t e r) p

  -- tl_rbtree_first and tl_rbtree_last.
  pub first_of : Tree A → Option (Cursor A)
  first_of leaf = none
  first_of (node c l e r) = some (leftmost c l e r [])

  pub last_of : Tree A → Option (Cursor A)
  last_of leaf = none
  last_of (node c l e r) = some (rightmost c l e r [])

  pub first : Root A → Option (Cursor A)
  first root = first_of root.first

  pub last : Root A → Option (Cursor A)
  last root = last_of root.first

  -- tl_rbtree_next, by the node's right child.
  pub next_at : Color → Tree A → A → Tree A → List (Frame A) → Option (Cursor A)
  next_at c l e leaf p = climb_next (node c l e leaf) p
  next_at c l e (node c' l' e' r') p = some (leftmost c' l' e' r' (right c l e ∷ p))

  pub next : Cursor A → Option (Cursor A)
  next cur = next_at cur.tint cur.lc cur.entry cur.rc cur.path

  -- tl_rbtree_prev, by the node's left child.
  pub prev_at : Color → Tree A → A → Tree A → List (Frame A) → Option (Cursor A)
  prev_at c leaf e r p = climb_prev (node c leaf e r) p
  prev_at c (node c' l' e' r') e r p = some (rightmost c' l' e' r' (left c e r ∷ p))

  pub prev : Cursor A → Option (Cursor A)
  prev cur = prev_at cur.tint cur.lc cur.entry cur.rc cur.path

  -- The tree that a cursor points into.
  abbrev pub whole : Cursor A → Tree A
  whole cur = plug (node cur.tint cur.lc cur.entry cur.rc) cur.path

module _ {ℓ κ} {K : Type ℓ} {V : Type κ} where
  -- tl_rbtree_extract.
  pub extract : Cursor (K × V) → K × V
  extract cur = cur.entry

  -- tl_rbtree_set: the tree is written in place.
  pub set_val : Cursor (K × V) → V → Cursor (K × V)
  set_val cur val = record cur { entry = (cur.entry.0, val) }
