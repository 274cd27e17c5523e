-- ===== src/Rbtree/Erase.antt =====
-- tl_rbtree_erase of trunk/src/tl_rbtree.c, with `succeed` and `d_adjust`.
pub mod Shape
pub mod Content
pub mod Main
use common_tool.Base.{
  ℕ, ◌+◌, ◌-◌, Bool, true, false, List, [], ◌∷◌, if◌then◌else◌, ℤ, Run, ok, fault, ◌>>=◌,
}
use common_tool.Rbtree.{
  Color, red, black, Tree, leaf, node, Frame, left, right, Root, color, isforge, blacken, plug,
  l_rotate, r_rotate,
}
use common_tool.Rbtree.Locate.{Location, unexist, located, lchild, rchild, locate_key}

-- How a round of `d_adjust` goes on: with `father` as the new `pcur`, or with the root, after which
-- the loop ends.
pub data Next {ℓ} (A : Type ℓ) : Type ℓ where
  up done : Tree A → Next A

-- The node that is taken out: its colour, its right child and its path; it has no left child.
pub record Spot {ℓ} (A : Type ℓ) : Type ℓ where
  pub tint : Color
  pub rest : Tree A
  pub path : List (Frame A)

module _ {ℓ} {A : Type ℓ} where
  -- The last part of a round, with a red far nephew: the brother takes the father's colour, the father
  -- and the nephew become black, and a rotation at the father puts the brother above it.
  pub turn_left : Color → Tree A → A → Tree A → Run (Next A)
  turn_left fc pcur e leaf = fault
  turn_left fc pcur e (node c l e' r) =
      l_rotate (node black pcur e (node fc l e' (blacken r))) >>= λ t. ok (done t)

  pub turn_right : Color → Tree A → A → Tree A → Run (Next A)
  turn_right fc leaf e pcur = fault
  turn_right fc (node c l e' r) e pcur =
      r_rotate (node black (node fc (blacken l) e' r) e pcur) >>= λ t. ok (done t)

  -- A round with a black brother, to the right or to the left of `pcur`. `forgeNode` has no colour to
  -- lose: as a brother it is a fault, and so is a red brother here.
  pub brother_right : Color → Tree A → A → Tree A → Run (Next A)
  brother_right fc pcur e leaf = fault
  brother_right fc pcur e (node red l e' r) = fault
  brother_right fc pcur e (node black l e' r) = elim (color r) [
    | red ↦ turn_left fc pcur e (node black l e' r)
    | black ↦ elim (color l) [
      | black ↦ ok (up (node fc pcur e (node red l e' r)))
      | red ↦ r_rotate (node red (blacken l) e' r) >>= turn_left fc pcur e
    ]
  ]

  pub brother_left : Color → Tree A → A → Tree A → Run (Next A)
  brother_left fc leaf e pcur = fault
  brother_left fc (node red l e' r) e pcur = fault
  brother_left fc (node black l e' r) e pcur = elim (color l) [
    | red ↦ turn_right fc (node black l e' r) e pcur
    | black ↦ elim (color r) [
      | black ↦ ok (up (node fc (node red l e' r) e pcur))
      | red ↦ l_rotate (node red l e' (blacken r)) >>= λ b. turn_right fc b e pcur
    ]
  ]

  -- The end of a round under a red brother: the father is red, so the loop ends there too.
  pub last : List (Frame A) → Next A → Run (Tree A)
  last p (up t) = ok (plug (blacken t) p)
  last p (done t) = ok (blacken (plug t p))

  -- `d_adjust(root, pcur, father)`. A red brother becomes black and rises over the father, which
  -- becomes red: the path is one node longer then, and the brother's inner child is the new brother.
  pub d_adjust : Tree A → List (Frame A) → Run (Tree A)
  d_adjust t [] = ok (blacken t)
  d_adjust (node red l e r) (f ∷ p) = ok (plug (node black l e r) (f ∷ p))
  d_adjust t (left red e (node red bl be br) ∷ p) = fault
  d_adjust t (right red (node red bl be br) e ∷ p) = fault
  d_adjust t (left black e (node red bl be br) ∷ p) =
      brother_right red t e bl >>= last (left black be br ∷ p)
  d_adjust t (right black (node red bl be br) e ∷ p) =
      brother_left red br e t >>= last (right black bl be ∷ p)
  d_adjust t (left fc e b ∷ p) = brother_right fc t e b >>= λ n. elim n [
    | up u ↦ d_adjust u p
    | done u ↦ ok (blacken (plug u p))
  ]
  d_adjust t (right fc b e ∷ p) = brother_left fc b e t >>= λ n. elim n [
    | up u ↦ d_adjust u p
    | done u ↦ ok (blacken (plug u p))
  ]

  -- `pdel` is taken out: its only child `pu`, or `forgeNode`, takes its place. Without a father
  -- `d_adjust` only makes `pu` black.
  pub take_out : Color → Tree A → List (Frame A) → Run (Tree A)
  take_out red pu p = ok (plug pu p)
  take_out black pu p = d_adjust pu p

  -- The walk of `succeed` to the left: the least entry of a node, and where it stands.
  pub least : Tree A → A → A
  least leaf e = e
  least (node c l e' r) e = least l e'

  pub descend : Tree A → Color → A → Tree A → List (Frame A) → Spot A
  descend leaf c e r p = record { tint = c; rest = r; path = p }
  descend (node c' l' e' r') c e r p = descend l' c' e' r' (left c e r ∷ p)

  -- The node `(c, l, e, r)` is found. With two children its entry is replaced by the successor's, whose
  -- node is taken out in its place.
  pub delete : Color → Tree A → A → Tree A → List (Frame A) → Run (Tree A)
  delete c leaf e r p = take_out c r p
  delete c (node c₁ l₁ e₁ r₁) e leaf p = take_out c (node c₁ l₁ e₁ r₁) p
  delete c (node c₁ l₁ e₁ r₁) e (node c₂ l₂ e₂ r₂) p =
      let s = descend l₂ c₂ e₂ r₂ (right c (node c₁ l₁ e₁ r₁) (least l₂ e₂) ∷ p) in
      take_out s.tint s.rest s.path

module _ {ℓ κ} {K : Type ℓ} {V : Type κ} where
  -- tl_rbtree_erase behind `locateKey`.
  pub erase_at : Root (K × V) → K × V → Location (K × V) → Run (Root (K × V) × (K × V) × Bool)
  erase_at root kv unexist = ok (root, kv, false)
  erase_at root kv (lchild c e r p) = ok (root, kv, false)
  erase_at root kv (rchild c l e p) = ok (root, kv, false)
  erase_at root kv (located c l e r p) = do
    t ← delete c l e r p
    ok (record { first = t; cnt_key = root.cnt_key - 1 }, (kv.0, e.1), true)

  -- tl_rbtree_erase: the tree, `*pkv` afterwards, and whether 0 is returned.
  pub erase : (K → K → ℤ) → Root (K × V) → K × V → Run (Root (K × V) × (K × V) × Bool)
  erase kc root kv = erase_at root kv (locate_key kc root kv.0)
