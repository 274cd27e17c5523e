-- ===== src/Rbtree/Insert.antt =====
-- tl_rbtree_insert of trunk/src/tl_rbtree.c, with `i_adjust`.
pub mod Shape
pub mod Content
pub mod Main
use common_tool.Base.{
  ℕ, ◌+◌, Bool, true, false, List, [], ◌∷◌, if◌then◌else◌, ℤ, Run, ok, fault, ◌>>=◌,
}
use common_tool.Rbtree.{
  Color, red, black, Tree, leaf, node, Frame, left, right, Root, color, blacken, plug, l_rotate,
  r_rotate,
}
use common_tool.Rbtree.Locate.{Location, unexist, located, lchild, rchild, locate_key}

module _ {ℓ} {A : Type ℓ} where
  -- The end of `i_adjust`: the root becomes black.
  abbrev pub finish : Tree A → List (Frame A) → Run (Tree A)
  finish t p = ok (blacken (plug t p))

  -- The last part of a round: `grandf` red and `father` black, then a rotation at `grandf` that puts
  -- `father` above it. The next round finds a black father there and stops.
  pub lift_left : Tree A → A → Tree A → List (Frame A) → Run (Tree A)
  lift_left father e uncle p = do t ← r_rotate (node red (blacken father) e uncle); finish t p

  pub lift_right : Tree A → A → Tree A → List (Frame A) → Run (Tree A)
  lift_right uncle e father p = do t ← l_rotate (node red uncle e (blacken father)); finish t p

  -- `i_adjust(root, pcur)`, with `pcur` at the end of a path. Under a red father the two children of
  -- `grandf` have one colour if the uncle is red. An inner `pcur` is first rotated over its father.
  pub i_adjust : Tree A → List (Frame A) → Run (Tree A)
  i_adjust pcur [] = finish pcur []
  i_adjust pcur (left black e r ∷ p) = finish pcur (left black e r ∷ p)
  i_adjust pcur (right black l e ∷ p) = finish pcur (right black l e ∷ p)
  i_adjust pcur (left red e r ∷ []) = fault
  i_adjust pcur (right red l e ∷ []) = fault
  i_adjust pcur (left red e r ∷ left c ge gr ∷ p) = elim (color gr) [
    | red ↦ i_adjust (node red (node black pcur e r) ge (blacken gr)) p
    | black ↦ lift_left (node red pcur e r) ge gr p
  ]
  i_adjust pcur (right red l e ∷ left c ge gr ∷ p) = elim (color gr) [
    | red ↦ i_adjust (node red (node black l e pcur) ge (blacken gr)) p
    | black ↦ l_rotate (node red l e pcur) >>= λ father. lift_left father ge gr p
  ]
  i_adjust pcur (right red l e ∷ right c gl ge ∷ p) = elim (color gl) [
    | red ↦ i_adjust (node red (blacken gl) ge (node black l e pcur)) p
    | black ↦ lift_right gl ge (node red l e pcur) p
  ]
  i_adjust pcur (left red e r ∷ right c gl ge ∷ p) = elim (color gl) [
    | red ↦ i_adjust (node red (blacken gl) ge (node black pcur e r)) p
    | black ↦ r_rotate (node red pcur e r) >>= λ father. lift_right gl ge father p
  ]

module _ {ℓ κ} {K : Type ℓ} {V : Type κ} where
  -- A new red node under the father that lacks it.
  pub attach :
      Root (K × V) → Bool → List (Frame (K × V)) → K × V → Run (Root (K × V) × (K × V) × Bool)
  attach root alloc_ok p kv =
      let put : Run (Root (K × V) × (K × V) × Bool) = do
        t ← i_adjust (node red leaf kv leaf) p
        ok (record { first = t; cnt_key = root.cnt_key + 1 }, kv, true)
      in if alloc_ok then put else ok (root, kv, false)

  -- tl_rbtree_insert behind `locateKey`.
  pub insert_at :
      Root (K × V) → Bool → K × V → Bool → Location (K × V) → Run (Root (K × V) × (K × V) × Bool)
  insert_at root alloc_ok kv b_update unexist =
      if alloc_ok
      then ok (record { first = node black leaf kv leaf; cnt_key = root.cnt_key + 1 }, kv, true)
      else ok (root, kv, false)
  insert_at root alloc_ok kv b_update (located c l e r p) =
      if b_update then ok (root, (kv.0, e.1), true) else ok (root, kv, false)
  insert_at root alloc_ok kv b_update (lchild c e r p) = attach root alloc_ok (left c e r ∷ p) kv
  insert_at root alloc_ok kv b_update (rchild c l e p) = attach root alloc_ok (right c l e ∷ p) kv

  -- tl_rbtree_insert: the tree, `*pkv` afterwards, and whether 0 is returned. `alloc_ok` says whether
  -- `trb_alloc_node` gets its memory.
  pub insert :
      (K → K → ℤ) → Root (K × V) → Bool → K × V → Bool → Run (Root (K × V) × (K × V) × Bool)
  insert kc root alloc_ok kv b_update =
      insert_at root alloc_ok kv b_update (locate_key kc root kv.0)
