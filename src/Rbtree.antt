-- ===== src/Rbtree.antt =====
-- The red-black tree of trunk/src/tl_rbtree.c. A node with its two subtrees is a value; the `father`
-- pointers are the path from a node up to the root, nearest father first. `forgeNode`, and the NULL
-- of an empty tree, are `leaf`. An entry is the key and the value of a node.
pub mod Shape
pub mod Ascending
pub mod Invariant
pub mod Locate
pub mod Insert
pub mod Erase
pub mod Cursor
pub mod Check
mod Tests
use common_tool.Base.{
  ℕ, ◌+◌, ◌-◌, Bool, true, false, Option, none, some, List, [], ◌∷◌, ◌++◌, Run, ok, fault,
}

pub data Color : Type 0 where
  red black : Color

pub data Tree {ℓ} (A : Type ℓ) : Type ℓ where
  leaf : Tree A
  node : Color → Tree A → A → Tree A → Tree A

-- A father, seen from its left or from its right child: its colour, its entry, its other subtree.
pub data Frame {ℓ} (A : Type ℓ) : Type ℓ where
  left : Color → A → Tree A → Frame A
  right : Color → Tree A → A → Frame A

abbrev pub is_red : Color → Bool
is_red red = true
is_red black = false

module _ {ℓ} {A : Type ℓ} where
  -- `forgeNode` is black.
  abbrev pub color : Tree A → Color
  color leaf = black
  color (node c l e r) = c

  abbrev pub isforge : Tree A → Bool
  isforge leaf = true
  isforge (node c l e r) = false

  -- `pn->color = RB_BLACK`; on `forgeNode` it changes nothing.
  abbrev pub blacken : Tree A → Tree A
  blacken leaf = leaf
  blacken (node c l e r) = node black l e r

  abbrev pub fill : Frame A → Tree A → Tree A
  fill (left c e r) t = node c t e r
  fill (right c l e) t = node c l e t

  -- The whole tree, from the subtree at the end of a path.
  abbrev pub plug : Tree A → List (Frame A) → Tree A
  plug t [] = t
  plug t (f ∷ p) = plug (fill f t) p

  -- `l_rotate` and `r_rotate` at the root of a subtree. With no child to rise they write into
  -- `forgeNode`, which is a fault here.
  unfoldable pub l_rotate : Tree A → Run (Tree A)
  l_rotate (node c l e (node c' l' e' r')) = ok (node c' (node c l e l') e' r')
  l_rotate t = fault

  unfoldable pub r_rotate : Tree A → Run (Tree A)
  r_rotate (node c (node c' l' e' r') e r) = ok (node c' l' e' (node c r' e r))
  r_rotate t = fault

  -- The entries in order, of a tree and of what lies on each side of a path.
  abbrev pub inorder : Tree A → List A
  inorder leaf = []
  inorder (node c l e r) = inorder l ++ e ∷ inorder r

  abbrev pub before : List (Frame A) → List A
  before [] = []
  before (left c e r ∷ p) = before p
  before (right c l e ∷ p) = before p ++ (inorder l ++ e ∷ [])

  abbrev pub after : List (Frame A) → List A
  after [] = []
  after (left c e r ∷ p) = e ∷ inorder r ++ after p
  after (right c l e ∷ p) = after p

-- `tl_rbtree_root_t`; its comparison is a parameter of the functions, and `cnt_key` a number.
pub record Root {ℓ} (A : Type ℓ) : Type ℓ where
  pub first : Tree A
  pub cnt_key : ℕ

-- `tl_rbtree_getcnt`.
pub getcnt {ℓ} : {A : Type ℓ} → Root A → ℕ
getcnt root = root.cnt_key

-- `tl_rbtree_init`: NULL without a configuration, without a comparison, or without memory.
pub init {ℓ} : {A : Type ℓ} → (config keycmp malloc_ok : Bool) → Option (Root A)
init true true true = some (record { first = leaf; cnt_key = 0 })
init true true false = none
init true false m = none
init false k m = none
