-- ===== src/Rbtree/Shape.antt =====
-- The shape of a red-black tree: equally many black nodes on each way down, no red node under a red
-- one, a black root; and the same of a tree with a hole at the end of a path.
use common_tool.Base.{ℕ, suc, ◌≡◌, refl, sym, List, [], ◌∷◌}
use common_tool.Rbtree.{
  Color, red, black, Tree, leaf, node, Frame, left, right, color, blacken, plug,
}

-- What a node adds to the black nodes below it.
abbrev pub grow : Color → ℕ → ℕ
grow red n = n
grow black n = suc n

-- What a node's colour asks of the colour of its child.
abbrev pub Under : Color → Color → Type 0
Under red c = c ≡ black
Under black c = Unit

module _ {ℓ} {A : Type ℓ} where
  -- The black nodes on the way down to the left.
  abbrev pub height : Tree A → ℕ
  height leaf = 0
  height (node c l e r) = grow c (height l)

  abbrev pub IsBalanced : Tree A → Type 0
  IsBalanced leaf = Unit
  IsBalanced (node c l e r) = IsBalanced l × IsBalanced r × (height l ≡ height r)

  abbrev pub IsColored : Tree A → Type 0
  IsColored leaf = Unit
  IsColored (node c l e r) = IsColored l × IsColored r × Under c (color l) × Under c (color r)

  pub record IsRedBlack (t : Tree A) : Type 0 where
    pub balanced : IsBalanced t
    pub colored : IsColored t
    pub root : color t ≡ black

  abbrev pub frame_color : Frame A → Color
  frame_color (left c e r) = c
  frame_color (right c l e) = c

  -- The other subtrees along the path are balanced, for a hole of height `n`.
  abbrev pub IsBalancedPath : List (Frame A) → ℕ → Type 0
  IsBalancedPath [] n = Unit
  IsBalancedPath (left c e r ∷ p) n = IsBalanced r × (height r ≡ n) × IsBalancedPath p (grow c n)
  IsBalancedPath (right c l e ∷ p) n = IsBalanced l × (height l ≡ n) × IsBalancedPath p (grow c n)

  -- What the path asks of the colour of the tree at its end; the root is black.
  abbrev pub Fits : List (Frame A) → Color → Type 0
  Fits [] c = c ≡ black
  Fits (f ∷ p) c = Under (frame_color f) c

  abbrev pub IsColoredPath : List (Frame A) → Type 0
  IsColoredPath [] = Unit
  IsColoredPath (left c e r ∷ p) = IsColored r × Under c (color r) × Fits p c × IsColoredPath p
  IsColoredPath (right c l e ∷ p) = IsColored l × Under c (color l) × Fits p c × IsColoredPath p

  pub plug-IsBalanced :
      (t : Tree A) (p : List (Frame A))
      → IsBalanced t
      → IsBalancedPath p (height t)
      → IsBalanced (plug t p)
  plug-IsBalanced t [] b q = b
  plug-IsBalanced t (left c e r ∷ p) b q = plug-IsBalanced (node c t e r) p (b, q.0, sym q.1) q.2
  plug-IsBalanced t (right c l e ∷ p) b q =
      plug-IsBalanced (node c l e t) p (q.0, b, q.1) (rw q.1 q.2)

  pub plug-IsColored :
      (t : Tree A) (p : List (Frame A))
      → IsColored t
      → IsColoredPath p
      → Fits p (color t)
      → IsColored (plug t p)
  plug-IsColored t [] b q f = b
  plug-IsColored t (left c e r ∷ p) b q f = plug-IsColored (node c t e r) p (b, q.0, f, q.1) q.3 q.2
  plug-IsColored t (right c l e ∷ p) b q f =
      plug-IsColored (node c l e t) p (q.0, b, q.1, f) q.3 q.2

  pub color-plug :
      (t : Tree A) (p : List (Frame A))
      → IsColoredPath p
      → Fits p (color t)
      → color (plug t p) ≡ black
  color-plug t [] q f = f
  color-plug t (left c e r ∷ p) q f = color-plug (node c t e r) p q.3 q.2
  color-plug t (right c l e ∷ p) q f = color-plug (node c l e t) p q.3 q.2

  pub blacken-IsRedBlack : (t : Tree A) → IsBalanced t → IsColored t → IsRedBlack (blacken t)
  blacken-IsRedBlack leaf b k = record { balanced = tt; colored = tt; root = refl }
  blacken-IsRedBlack (node c l e r) b k = record {
    balanced = b;
    colored = (k.0, k.1, tt, tt);
    root = refl;
  }

  -- A tree that fits at the end of a path makes the whole a red-black tree.
  pub plug-IsRedBlack :
      (t : Tree A) (p : List (Frame A))
      → IsBalanced t
      → IsBalancedPath p (height t)
      → IsColored t
      → IsColoredPath p
      → Fits p (color t)
      → IsRedBlack (plug t p)
  plug-IsRedBlack t p b q k h f = record {
    balanced = plug-IsBalanced t p b q;
    colored = plug-IsColored t p k h f;
    root = color-plug t p h f;
  }

  pub blacken_black : (t : Tree A) → color t ≡ black → blacken t ≡ t
  blacken_black leaf h = refl
  blacken_black (node black l e r) h = refl
  blacken_black (node red l e r) h = cc

  pub Fits-black : (p : List (Frame A)) → Fits p black
  Fits-black [] = refl
  Fits-black (left red e r ∷ p) = refl
  Fits-black (left black e r ∷ p) = tt
  Fits-black (right red l e ∷ p) = refl
  Fits-black (right black l e ∷ p) = tt
