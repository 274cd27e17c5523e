-- ===== src/Rbtree/Locate/Place.antt =====
-- The shape of the path that the search takes through a red-black tree.
use common_tool.Base.{sym, List, [], ◌∷◌, ℤ, is_neg, is_zero, Bool-cases, inl, inr}
use common_tool.Rbtree.{Color, Tree, leaf, node, Frame, left, right, color}
use common_tool.Rbtree.Locate.{Location, unexist, located, lchild, rchild, missing, locate}
use common_tool.Rbtree.Shape.{height, IsBalanced, IsColored, IsBalancedPath, IsColoredPath, Fits}

module _ {ℓ} {A : Type ℓ} where
  -- A tree in its place at the end of a path.
  pub record IsPlaced (t : Tree A) (p : List (Frame A)) : Type 0 where
    pub balanced : IsBalanced t
    pub balanced_path : IsBalancedPath p (height t)
    pub colored : IsColored t
    pub colored_path : IsColoredPath p
    pub fits : Fits p (color t)

  abbrev pub PlacedAt : Location A → Type 0
  PlacedAt unexist = Unit
  PlacedAt (located c l e r p) = IsPlaced (node c l e r) p
  PlacedAt (lchild c e r p) = IsPlaced leaf (left c e r ∷ p)
  PlacedAt (rchild c l e p) = IsPlaced leaf (right c l e ∷ p)

  missing-PlacedAt : (p : List (Frame A)) → IsPlaced leaf p → PlacedAt (missing p)
  missing-PlacedAt [] h = tt
  missing-PlacedAt (left c e r ∷ p) h = h
  missing-PlacedAt (right c l e ∷ p) h = h

  module _ {c : Color} {l : Tree A} {e : A} {r : Tree A} {p : List (Frame A)}
      (h : IsPlaced (node c l e r) p) where
    pub IsPlaced-left : IsPlaced l (left c e r ∷ p)
    IsPlaced-left = record {
      balanced = h.balanced.0;
      balanced_path = (h.balanced.1, sym h.balanced.2, h.balanced_path);
      colored = h.colored.0;
      colored_path = (h.colored.1, h.colored.3, h.fits, h.colored_path);
      fits = h.colored.2;
    }

    pub IsPlaced-right : IsPlaced r (right c l e ∷ p)
    IsPlaced-right = record {
      balanced = h.balanced.1;
      balanced_path = (h.balanced.0, h.balanced.2, rw (← h.balanced.2) h.balanced_path);
      colored = h.colored.1;
      colored_path = (h.colored.0, h.colored.2, h.fits, h.colored_path);
      fits = h.colored.3;
    }

module _ {ℓ κ} {K : Type ℓ} {V : Type κ} (kc : K → K → ℤ) (key : K) where
  pub locate-PlacedAt :
      (t : Tree (K × V)) (p : List (Frame (K × V))) → IsPlaced t p → PlacedAt (locate kc key t p)
  unfolding locate
  locate-PlacedAt leaf p h = missing-PlacedAt p h
  locate-PlacedAt (node c l e r) p h = elim (Bool-cases (is_zero (kc key e.0))) [
    | inl hit ↦ rw hit h
    | inr miss ↦ elim (Bool-cases (is_neg (kc key e.0))) [
      | inl lt ↦ rw (miss, lt) (locate-PlacedAt l (left c e r ∷ p) (IsPlaced-left h))
      | inr gt ↦ rw (miss, gt) (locate-PlacedAt r (right c l e ∷ p) (IsPlaced-right h))
    ]
  ]
