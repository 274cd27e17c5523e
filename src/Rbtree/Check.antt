-- ===== src/Rbtree/Check.antt =====
-- tl_rbtree_check of trunk/src/tl_rbtree.c, with `check`.
use common_tool.Base.{
  ℕ, ◌+◌, ◌≡◌, refl, Bool, true, false, ◌&&◌, ◌==◌, Option, none, some, if◌then◌else◌, ℤ,
  is_minus_one, is_one,
}
use common_tool.Rbtree.{Color, red, black, Tree, leaf, node, color}

-- `hgt` at a node.
abbrev weight : Color → ℕ
weight red = 0
weight black = 1

-- The heights of the two subtrees, if both are sound and they agree.
pub both : Color → Option ℕ → Option ℕ → Option ℕ
both c none r = none
both c (some m) none = none
both c (some m) (some n) = if m == n then some (weight c + m) else none

-- The end of tl_rbtree_check: the result of `check` is not looked at.
pub judge : Color → Option ℕ → Bool
judge red hgt = false
judge black hgt = true

module _ {ℓ κ} {K : Type ℓ} {V : Type κ} (kc : K → K → ℤ) where
  -- A child's key compares as -1 on the left and as 1 on the right.
  pub left_ok : Tree (K × V) → K → Bool
  left_ok leaf key = true
  left_ok (node c l e r) key = is_minus_one (kc e.0 key)

  pub right_ok : Tree (K × V) → K → Bool
  right_ok leaf key = true
  right_ok (node c l e r) key = is_one (kc e.0 key)

  -- `check`; -1 is `none`.
  pub check : Tree (K × V) → Option ℕ
  check leaf = some 1
  check (node c l e r) =
      let hgt = both c (check l) (check r) in if left_ok l e.0 && right_ok r e.0 then hgt else none

  -- tl_rbtree_check: whether 0 is returned.
  pub tree_check : Tree (K × V) → Bool
  tree_check leaf = true
  tree_check (node c l e r) = judge c (check (node c l e r))

  -- tl_rbtree_check returns 0 exactly on a tree without a red root, whatever the tree is below it.
  pub tree_check-color :
      (t : Tree (K × V)) → tree_check t ≡ (elim (color t) [ red ↦ false | black ↦ true ])
  unfolding tree_check judge
  tree_check-color leaf = refl
  tree_check-color (node red l e r) = refl
  tree_check-color (node black l e r) = refl
