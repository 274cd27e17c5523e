-- ===== src/Rbtree/Invariant.antt =====
-- What holds of a tree between the calls.
use common_tool.Base.{◌≡◌, ℤ, length}
use common_tool.Rbtree.{Root, inorder}
use common_tool.Rbtree.Shape.{IsRedBlack}
use common_tool.Rbtree.Ascending.{IsAscending}

-- A red-black tree with its entries in ascending order of the keys, and their number in `cnt_key`.
pub record IsTree {ℓ κ} {K : Type ℓ} {V : Type κ} (kc : K → K → ℤ) (root : Root (K × V))
    : Type (ℓ ⊔ κ) where
  pub shape : IsRedBlack root.first
  pub ascending : IsAscending kc (inorder root.first)
  pub counted : root.cnt_key ≡ length (inorder root.first)
