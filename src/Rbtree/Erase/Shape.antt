-- ===== src/Rbtree/Erase/Shape.antt =====
-- The shape of a tree out of which a node is taken.
use common_tool.Base.{
  ok, subst, sym, ap, List, [], ◌∷◌, Returns-bind, refl, ℕ, suc, ◌≡◌, arith, Returns, returns,
}
use common_tool.Rbtree.{
  Color, red, black, Tree, leaf, node, Frame, left, right, plug, color, blacken, l_rotate, r_rotate,
}
use common_tool.Rbtree.Shape.{
  grow, height, IsBalanced, IsColored, IsRedBlack, IsBalancedPath, IsColoredPath, Fits, Fits-black,
  plug-IsRedBlack, blacken_black,
}
use common_tool.Rbtree.Erase.{
  Next, up, done, turn_left, turn_right, brother_left, brother_right, last, d_adjust,
}

grow-suc : (c : Color) (n : ℕ) → grow c (suc n) ≡ suc (grow c n)
grow-suc red n = refl
grow-suc black n = refl

module _ {ℓ} {A : Type ℓ} where
  -- What a round leaves where one black node was missing: a subtree that still misses one, or a whole one.
  abbrev Leaves : Color → ℕ → Next A → Type 0
  Leaves fc n (up u) =
      IsBalanced u × (height u ≡ grow fc n) × IsColored (blacken u) × (color u ≡ fc)
  Leaves fc n (done u) = IsBalanced u × (height u ≡ grow fc (suc n)) × IsColored u × (color u ≡ fc)

  brother_right-Leaves :
      (fc : Color) (n : ℕ) (t : Tree A) (e : A) (b : Tree A)
      → IsBalanced t × (height t ≡ n) × IsColored t × (color t ≡ black)
      → IsBalanced b × (height b ≡ suc n) × IsColored b × (color b ≡ black)
      → Returns (Leaves fc n) (brother_right fc t e b)
  unfolding brother_right turn_left l_rotate r_rotate
  brother_right-Leaves fc n t e leaf h k = ground arith
  brother_right-Leaves fc n t e (node red l f r) h k = ground arith
  brother_right-Leaves red n t e (node black l f (node red rl re rr)) h k = returns (ground arith)
  brother_right-Leaves black n t e (node black l f (node red rl re rr)) h k = returns (ground arith)
  brother_right-Leaves red n t e (node black (node red ll le lr) f r) h k = returns (ground arith)
  brother_right-Leaves black n t e (node black (node red ll le lr) f r) h k = returns (ground arith)
  brother_right-Leaves red n t e (node black l f r) h k = returns (ground arith)
  brother_right-Leaves black n t e (node black leaf f r) h k = returns (ground arith)
  brother_right-Leaves black n t e (node black (node black ll le lr) f r) h k =
      returns (ground arith)

  brother_left-Leaves :
      (fc : Color) (n : ℕ) (b : Tree A) (e : A) (t : Tree A)
      → IsBalanced t × (height t ≡ n) × IsColored t × (color t ≡ black)
      → IsBalanced b × (height b ≡ suc n) × IsColored b × (color b ≡ black)
      → Returns (Leaves fc n) (brother_left fc b e t)
  unfolding brother_left turn_right l_rotate r_rotate
  brother_left-Leaves fc n leaf e t h k = ground arith
  brother_left-Leaves fc n (node red l f r) e t h k = ground arith
  brother_left-Leaves red n (node black (node red ll le lr) f r) e t h k = returns (ground arith)
  brother_left-Leaves black n (node black (node red ll le lr) f r) e t h k = returns (ground arith)
  brother_left-Leaves red n (node black l f (node red rl re rr)) e t h k = returns (ground arith)
  brother_left-Leaves black n (node black l f (node red rl re rr)) e t h k = returns (ground arith)
  brother_left-Leaves red n (node black l f r) e t h k = returns (ground arith)
  brother_left-Leaves black n (node black leaf f r) e t h k = returns (ground arith)
  brother_left-Leaves black n (node black (node black ll le lr) f r) e t h k =
      returns (ground arith)

  -- The path above a subtree that is one black node short, and that node put back.
  moved : (p : List (Frame A)) {m n : ℕ} → m ≡ n → IsBalancedPath p n → IsBalancedPath p m
  moved p e q = subst (IsBalancedPath p) (sym e) q

  last-IsRedBlack :
      (p : List (Frame A)) (n : ℕ) (x : Next A)
      → Leaves red n x
      → IsBalancedPath p (suc n)
      → IsColoredPath p
      → Fits p red
      → Returns IsRedBlack (last p x)
  unfolding last
  last-IsRedBlack p n (up leaf) h q k f = ground arith
  last-IsRedBlack p n (up (node black l e r)) h q k f = ground arith
  last-IsRedBlack p n (up (node red l e r)) h q k f =
      returns
        (plug-IsRedBlack (node black l e r) p h.0 (moved p (ap suc h.1) q) h.2 k (Fits-black p))
  last-IsRedBlack p n (done t) h q k f =
      let v = plug-IsRedBlack t p h.0 (moved p h.1 q) h.2 k (subst (Fits p) (sym h.3) f) in
      rw (blacken_black (plug t p) v.root) (returns v)

  -- A whole subtree in the place of the father.
  done-IsRedBlack :
      (p : List (Frame A)) (fc : Color) (n : ℕ) (t : Tree A)
      → Leaves fc n (done t)
      → IsBalancedPath p (grow fc (suc n))
      → IsColoredPath p
      → Fits p fc
      → IsRedBlack (blacken (plug t p))
  done-IsRedBlack p fc n t h q k f =
      let v = plug-IsRedBlack t p h.0 (moved p h.1 q) h.2 k (subst (Fits p) (sym h.3) f) in
      rw (blacken_black (plug t p) v.root) v

  blacken-IsRedBlack_whole :
      (t : Tree A) → IsBalanced t → IsColored (blacken t) → IsRedBlack (blacken t)
  blacken-IsRedBlack_whole leaf b k = record { balanced = tt; colored = tt; root = refl }
  blacken-IsRedBlack_whole (node c l e r) b k = record { balanced = b; colored = k; root = refl }

  -- The end of a round: the next one, or the end of the loop.
  round-IsRedBlack :
      (p : List (Frame A)) (fc : Color) (n : ℕ) (u : Next A)
      → Leaves fc n u
      → IsBalancedPath p (grow fc (suc n))
      → IsColoredPath p
      → Fits p fc
      → ((v : Tree A)
          → IsBalanced v
          → height v ≡ grow fc n
          → IsColored (blacken v)
          → IsBalancedPath p (suc (grow fc n))
          → Returns IsRedBlack (d_adjust v p))
      → Returns IsRedBlack (elim u [ up v ↦ d_adjust v p | done v ↦ ok (blacken (plug v p)) ])
  round-IsRedBlack p fc n (up v) s q h f again =
      again v s.0 s.1 s.2 (moved p (sym (grow-suc fc n)) q)
  round-IsRedBlack p fc n (done v) s q h f again = returns (done-IsRedBlack p fc n v s q h f)

  pub d_adjust-IsRedBlack :
      (n : ℕ) (t : Tree A) (p : List (Frame A))
      → IsBalanced t
      → height t ≡ n
      → IsColored (blacken t)
      → IsBalancedPath p (suc n)
      → IsColoredPath p
      → Returns IsRedBlack (d_adjust t p)
  unfolding d_adjust
  d_adjust-IsRedBlack n t [] b e k q h = returns (blacken-IsRedBlack_whole t b k)
  d_adjust-IsRedBlack n (node red l x r) (f ∷ p) b e k q h = returns (
      plug-IsRedBlack (node black l x r) (f ∷ p) b (moved (f ∷ p) (ap suc e) q) k h
        (Fits-black (f ∷ p)))
  d_adjust-IsRedBlack n leaf (left red x (node red bl be br) ∷ p) b e k q h = ground arith
  d_adjust-IsRedBlack n (node black l y r) (left red x (node red bl be br) ∷ p) b e k q h =
      ground arith
  d_adjust-IsRedBlack n leaf (right red (node red bl be br) x ∷ p) b e k q h = ground arith
  d_adjust-IsRedBlack n (node black l y r) (right red (node red bl be br) x ∷ p) b e k q h =
      ground arith
  d_adjust-IsRedBlack n leaf (left black x (node red bl be br) ∷ p) b e k q h =
      Returns-bind (brother_right-Leaves red n leaf x bl (b, e, k, refl) (ground arith))
        λ u s. last-IsRedBlack (left black be br ∷ p) n u s (ground arith) (ground arith) tt
  d_adjust-IsRedBlack n leaf (right black (node red bl be br) x ∷ p) b e k q h =
      Returns-bind (brother_left-Leaves red n br x leaf (b, e, k, refl) (ground arith))
        λ u s. last-IsRedBlack (right black bl be ∷ p) n u s (ground arith) (ground arith) tt
  d_adjust-IsRedBlack n leaf (left fc x leaf ∷ p) b e k q h = ground arith
  d_adjust-IsRedBlack n leaf (left red x (node black bl be br) ∷ p) b e k q h =
      Returns-bind
        (brother_right-Leaves red n leaf x (node black bl be br) (b, e, k, refl) (ground arith))
        λ u s.
          round-IsRedBlack p red n u s q.2 h.3 h.2
            λ v b e k q. d_adjust-IsRedBlack (grow red n) v p b e k q h.3
  d_adjust-IsRedBlack n leaf (left black x (node black bl be br) ∷ p) b e k q h =
      Returns-bind
        (brother_right-Leaves black n leaf x (node black bl be br) (b, e, k, refl) (ground arith))
        λ u s.
          round-IsRedBlack p black n u s q.2 h.3 h.2
            λ v b e k q. d_adjust-IsRedBlack (grow black n) v p b e k q h.3
  d_adjust-IsRedBlack n leaf (right fc leaf x ∷ p) b e k q h = ground arith
  d_adjust-IsRedBlack n leaf (right red (node black bl be br) x ∷ p) b e k q h =
      Returns-bind
        (brother_left-Leaves red n (node black bl be br) x leaf (b, e, k, refl) (ground arith))
        λ u s.
          round-IsRedBlack p red n u s q.2 h.3 h.2
            λ v b e k q. d_adjust-IsRedBlack (grow red n) v p b e k q h.3
  d_adjust-IsRedBlack n leaf (right black (node black bl be br) x ∷ p) b e k q h =
      Returns-bind
        (brother_left-Leaves black n (node black bl be br) x leaf (b, e, k, refl) (ground arith))
        λ u s.
          round-IsRedBlack p black n u s q.2 h.3 h.2
            λ v b e k q. d_adjust-IsRedBlack (grow black n) v p b e k q h.3
  d_adjust-IsRedBlack n (node black l y r) (left black x (node red bl be br) ∷ p) b e k q h =
      Returns-bind
        (brother_right-Leaves red n (node black l y r) x bl (b, e, k, refl) (ground arith))
        λ u s. last-IsRedBlack (left black be br ∷ p) n u s (ground arith) (ground arith) tt
  d_adjust-IsRedBlack n (node black l y r) (right black (node red bl be br) x ∷ p) b e k q h =
      Returns-bind
        (brother_left-Leaves red n br x (node black l y r) (b, e, k, refl) (ground arith))
        λ u s. last-IsRedBlack (right black bl be ∷ p) n u s (ground arith) (ground arith) tt
  d_adjust-IsRedBlack n (node black l y r) (left fc x leaf ∷ p) b e k q h = ground arith
  d_adjust-IsRedBlack n (node black l y r) (left red x (node black bl be br) ∷ p) b e k q h =
      Returns-bind
        (brother_right-Leaves red n (node black l y r) x (node black bl be br) (b, e, k, refl)
          (ground arith))
        λ u s.
          round-IsRedBlack p red n u s q.2 h.3 h.2
            λ v b e k q. d_adjust-IsRedBlack (grow red n) v p b e k q h.3
  d_adjust-IsRedBlack n (node black l y r) (left black x (node black bl be br) ∷ p) b e k q h =
      Returns-bind
        (brother_right-Leaves black n (node black l y r) x (node black bl be br) (b, e, k, refl)
          (ground arith))
        λ u s.
          round-IsRedBlack p black n u s q.2 h.3 h.2
            λ v b e k q. d_adjust-IsRedBlack (grow black n) v p b e k q h.3
  d_adjust-IsRedBlack n (node black l y r) (right fc leaf x ∷ p) b e k q h = ground arith
  d_adjust-IsRedBlack n (node black l y r) (right red (node black bl be br) x ∷ p) b e k q h =
      Returns-bind
        (brother_left-Leaves red n (node black bl be br) x (node black l y r) (b, e, k, refl)
          (ground arith))
        λ u s.
          round-IsRedBlack p red n u s q.2 h.3 h.2
            λ v b e k q. d_adjust-IsRedBlack (grow red n) v p b e k q h.3
  d_adjust-IsRedBlack n (node black l y r) (right black (node black bl be br) x ∷ p) b e k q h =
      Returns-bind
        (brother_left-Leaves black n (node black bl be br) x (node black l y r) (b, e, k, refl)
          (ground arith))
        λ u s.
          round-IsRedBlack p black n u s q.2 h.3 h.2
            λ v b e k q. d_adjust-IsRedBlack (grow black n) v p b e k q h.3
