-- ===== src/Rbtree/Locate.antt =====
-- `locateKey` of trunk/src/tl_rbtree.c, and tl_rbtree_query.
pub mod Search
pub mod Place
pub mod Query
use common_tool.Base.{
  Bool, true, false, Option, none, some, List, [], ◌∷◌, if◌then◌else◌, ℤ, is_neg, is_zero,
}
use common_tool.Rbtree.{Color, Tree, leaf, node, Frame, left, right, Root}

-- `locate_t`: the empty tree; the node with the key; or the node that lacks the child which the
-- key would be.
pub data Location {ℓ} (A : Type ℓ) : Type ℓ where
  unexist : Location A
  located : Color → Tree A → A → Tree A → List (Frame A) → Location A
  lchild : Color → A → Tree A → List (Frame A) → Location A
  rchild : Color → Tree A → A → List (Frame A) → Location A

-- The loop has come to a missing child: what its father says of it.
abbrev pub missing {ℓ} : {A : Type ℓ} → List (Frame A) → Location A
missing [] = unexist
missing (left c e r ∷ p) = lchild c e r p
missing (right c l e ∷ p) = rchild c l e p

module _ {ℓ κ} {K : Type ℓ} {V : Type κ} (kc : K → K → ℤ) where
  -- The loop, at a subtree and its path. The code looks for a missing child before it goes down.
  pub locate : K → Tree (K × V) → List (Frame (K × V)) → Location (K × V)
  locate key leaf p = missing p
  locate key (node c l e r) p =
      let ret = kc key e.0 in
      let in_left = locate key l (left c e r ∷ p) in
      let in_right = locate key r (right c l e ∷ p) in
      if is_zero ret then located c l e r p else if is_neg ret then in_left else in_right

  -- `locateKey`.
  pub locate_key : Root (K × V) → K → Location (K × V)
  locate_key root key = locate key root.first []

  -- tl_rbtree_query behind `locateKey`.
  pub query_at : K × V → Location (K × V) → (K × V) × Bool
  query_at kv (located c l e r p) = ((kv.0, e.1), true)
  query_at kv unexist = (kv, false)
  query_at kv (lchild c e r p) = (kv, false)
  query_at kv (rchild c l e p) = (kv, false)

  -- tl_rbtree_query: `*pkv` afterwards, and whether 0 is returned.
  pub query : Root (K × V) → K × V → (K × V) × Bool
  query root kv = query_at kv (locate_key root kv.0)
