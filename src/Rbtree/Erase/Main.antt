-- ===== src/Rbtree/Erase/Main.antt =====
-- tl_rbtree_erase as an operation on the list of the entries.
use common_tool.Base.{
  ◌≡◌, refl, sym, ◌∙◌, ap, subst, Bool, true, false, none, some, List, [], ◌∷◌, ◌++◌, append_assoc,
  arith, ℤ, IsOrder, length, length-append, ok, Returns, returns, Returns-bind, Returns-and,
}
use common_tool.Rbtree.{
  Color, red, black, Tree, leaf, node, Frame, left, right, Root, inorder, before, after, color,
  blacken,
}
use common_tool.Rbtree.Locate.{Location, unexist, located, lchild, rchild, locate_key}
use common_tool.Rbtree.Locate.Search.{Ends, Holds}
use common_tool.Rbtree.Locate.Place.{PlacedAt, IsPlaced, IsPlaced-left, IsPlaced-right}
use common_tool.Rbtree.Locate.Query.{locate_key-Ends, absent}
use common_tool.Rbtree.Shape.{
  grow, height, IsBalanced, IsColored, IsRedBlack, IsBalancedPath, IsColoredPath, Fits, Fits-black,
  Under, plug-IsRedBlack,
}
use common_tool.Rbtree.Ascending.{
  IsBelow, IsAscending, find, cut, cut-between, IsAscending-remove, IsBelow-of_ascending,
  IsBelow-equal,
}
use common_tool.Rbtree.Invariant.{IsTree}
use common_tool.Rbtree.Erase.{take_out, least, descend, delete, erase_at, erase}
use common_tool.Rbtree.Erase.Shape.{d_adjust-IsRedBlack}
use common_tool.Rbtree.Erase.Content.{Kept, take_out-Kept}

module _ {ℓ} {A : Type ℓ} where
  blacken-IsColored : (t : Tree A) → IsColored t → IsColored (blacken t)
  blacken-IsColored leaf k = tt
  blacken-IsColored (node c l e r) k = (k.0, k.1, tt, tt)

  take_out-IsRedBlack :
      (c : Color) (t : Tree A) (p : List (Frame A))
      → IsBalanced t
      → IsBalancedPath p (grow c (height t))
      → IsColored t
      → Under c (color t)
      → IsColoredPath p
      → Returns IsRedBlack (take_out c t p)
  unfolding take_out
  take_out-IsRedBlack red t p b q k u h =
      returns (plug-IsRedBlack t p b q k h (subst (Fits p) (sym u) (Fits-black p)))
  take_out-IsRedBlack black t p b q k u h =
      d_adjust-IsRedBlack (height t) t p b refl (blacken-IsColored t k) q h

  -- The successor's node is taken out.
  descend-IsRedBlack :
      (l : Tree A) (c : Color) (e : A) (r : Tree A) (p : List (Frame A))
      → IsPlaced (node c l e r) p
      → Returns IsRedBlack
          (take_out (descend l c e r p).tint (descend l c e r p).rest (descend l c e r p).path)
  unfolding descend
  descend-IsRedBlack leaf c e r p h =
      let b = h.balanced in
      take_out-IsRedBlack c r p b.1 (subst (λ n. IsBalancedPath p (grow c n)) b.2 h.balanced_path)
        h.colored.1 h.colored.3 h.colored_path
  descend-IsRedBlack (node c' l' e' r') c e r p h =
      descend-IsRedBlack l' c' e' r' (left c e r ∷ p) (IsPlaced-left h)

  -- Where it stands among the entries.
  descend-split :
      (l : Tree A) (c : Color) (e : A) (r : Tree A) (p : List (Frame A))
      → (before (descend l c e r p).path ≡ before p)
        × (least l e ∷ (inorder (descend l c e r p).rest ++ after (descend l c e r p).path)
            ≡ inorder (node c l e r) ++ after p)
  unfolding descend least
  descend-split leaf c e r p = (refl, refl)
  descend-split (node c' l' e' r') c e r p =
      let s = descend-split l' c' e' r' (left c e r ∷ p) in (s.0, s.1 ∙ simp append_assoc)

  delete-IsRedBlack :
      (c : Color) (l : Tree A) (e : A) (r : Tree A) (p : List (Frame A))
      → IsPlaced (node c l e r) p
      → Returns IsRedBlack (delete c l e r p)
  unfolding delete
  delete-IsRedBlack c leaf e r p h =
      let b = h.balanced in
      take_out-IsRedBlack c r p b.1 (subst (λ n. IsBalancedPath p (grow c n)) b.2 h.balanced_path)
        h.colored.1 h.colored.3 h.colored_path
  delete-IsRedBlack c (node c₁ l₁ e₁ r₁) e leaf p h =
      take_out-IsRedBlack c (node c₁ l₁ e₁ r₁) p h.balanced.0 h.balanced_path h.colored.0
        h.colored.2 h.colored_path
  delete-IsRedBlack c (node c₁ l₁ e₁ r₁) e (node c₂ l₂ e₂ r₂) p h =
      let s : IsPlaced (node c (node c₁ l₁ e₁ r₁) (least l₂ e₂) (node c₂ l₂ e₂ r₂)) p = record {
        balanced = h.balanced;
        balanced_path = h.balanced_path;
        colored = h.colored;
        colored_path = h.colored_path;
        fits = h.fits;
      } in
      descend-IsRedBlack l₂ c₂ e₂ r₂ (right c (node c₁ l₁ e₁ r₁) (least l₂ e₂) ∷ p)
        (IsPlaced-right s)

  delete-Kept :
      (c : Color) (l : Tree A) (e : A) (r : Tree A) (p : List (Frame A))
      → Kept (before p ++ (inorder l ++ (inorder r ++ after p))) (delete c l e r p)
  unfolding delete
  delete-Kept c leaf e r p = take_out-Kept c r p
  delete-Kept c (node c₁ l₁ e₁ r₁) e leaf p = take_out-Kept c (node c₁ l₁ e₁ r₁) p
  delete-Kept c (node c₁ l₁ e₁ r₁) e (node c₂ l₂ e₂ r₂) p =
      let p' = right c (node c₁ l₁ e₁ r₁) (least l₂ e₂) ∷ p in
      let s = descend l₂ c₂ e₂ r₂ p' in
      let xs = inorder (node c₁ l₁ e₁ r₁) in
      let rest = inorder s.rest ++ after s.path in
      let split = descend-split l₂ c₂ e₂ r₂ p' in
      subst (λ l. Kept l (take_out s.tint s.rest s.path))
        (ap (λ l. l ++ rest) split.0
          ∙ append_assoc (before p) (xs ++ least l₂ e₂ ∷ []) rest
          ∙ ap (λ l. before p ++ l)
              (append_assoc xs (least l₂ e₂ ∷ []) rest ∙ ap (λ l. xs ++ l) split.1))
        (take_out-Kept s.tint s.rest s.path)

module _ {ℓ κ} {K : Type ℓ} {V : Type κ} (kc : K → K → ℤ) (ord : IsOrder kc) where
  -- What an erasure of a key leaves that the tree has with the entry `e`.
  pub record Erased (root : Root (K × V)) (kv e : K × V) (r : Root (K × V) × (K × V) × Bool)
      : Type (ℓ ⊔ κ) where
    pub valid : IsTree kc r.0
    pub entries : inorder r.0.first ≡ cut kc kv.0 (inorder root.first)
    pub value : r.1 ≡ (kv.0, e.1)
    pub success : r.2 ≡ true

  erase_found :
      (root : Root (K × V)) (kv : K × V) (c : Color) (l : Tree (K × V)) (e : K × V)
      (r : Tree (K × V)) (p : List (Frame (K × V)))
      → IsTree kc root
      → Holds kc kv.0 (inorder root.first) (node c l e r) e p
      → IsPlaced (node c l e r) p
      → Returns (Erased root kv e) (erase_at root kv (located c l e r p))
  unfolding erase_at
  erase_found root kv c l e r p v s h =
      let xs = before p ++ inorder l in
      let ys = inorder r ++ after p in
      let all : xs ++ e ∷ ys ≡ inorder root.first =
        append_assoc (before p) (inorder l) (e ∷ ys)
        ∙ ap (λ l. before p ++ l) (sym (append_assoc (inorder l) (e ∷ inorder r) (after p)))
        ∙ s.all in
      let asc : IsAscending kc (xs ++ e ∷ ys) = subst (IsAscending kc) (sym all) v.ascending in
      let low : IsBelow kc kv.0 xs =
        IsBelow-equal kc ord e.0 kv.0 xs s.equal (IsBelow-of_ascending kc xs e ys asc) in
      Returns-bind
        (Returns-and (delete-IsRedBlack c l e r p h)
          λ u t. subst (Kept (before p ++ (inorder l ++ ys))) t (delete-Kept c l e r p))
        λ t (shape, kept).
          let same : inorder t ≡ xs ++ ys = kept ∙ sym (append_assoc (before p) (inorder l) ys) in
          returns (record {
            valid = record {
              shape = shape;
              ascending = subst (IsAscending kc) (sym same) (IsAscending-remove kc ord xs e ys asc);
              counted = omega (
                arith,
                v.counted,
                ap length same,
                ap length all,
                length-append xs (e ∷ ys),
                length-append xs ys,
              );
            };
            entries =
                same ∙ sym (cut-between kc ord kv.0 xs e ys low s.equal) ∙ ap (cut kc kv.0) all;
            value = refl;
            success = refl;
          })

  erase_at-Erased :
      (root : Root (K × V)) (kv e : K × V) (loc : Location (K × V))
      → IsTree kc root
      → Ends kc kv.0 (inorder root.first) loc
      → PlacedAt loc
      → find kc kv.0 (inorder root.first) ≡ some e
      → Returns (Erased root kv e) (erase_at root kv loc)
  erase_at-Erased root kv e (located c l f r p) v s h old =
      let same : f ≡ e = ground (arith, s.found) in
      subst (λ e. Returns (Erased root kv e) (erase_at root kv (located c l f r p))) same
        (erase_found root kv c l f r p v s h)
  erase_at-Erased root kv e unexist v s h old =
      absurd (ground (arith, absent kc ord kv.0 (inorder root.first) [] s))
  erase_at-Erased root kv e (lchild c f r p) v s h old =
      absurd (ground (arith, absent kc ord kv.0 (inorder root.first) (left c f r ∷ p) s))
  erase_at-Erased root kv e (rchild c l f p) v s h old =
      absurd (ground (arith, absent kc ord kv.0 (inorder root.first) (right c l f ∷ p) s))

  -- On a valid tree that has the key, tl_rbtree_erase returns 0 and the value of the entry, and leaves
  -- a valid tree of the other entries.
  pub erase_correct :
      (root : Root (K × V)) (kv e : K × V)
      → IsTree kc root
      → find kc kv.0 (inorder root.first) ≡ some e
      → Returns (Erased root kv e) (erase kc root kv)
  unfolding erase
  erase_correct root kv e v old =
      let at = locate_key-Ends kc ord root kv.0 v in
      erase_at-Erased root kv e (locate_key kc root kv.0) v at.0 at.1 old

  erase_at-absent :
      (root : Root (K × V)) (kv : K × V) (loc : Location (K × V))
      → Ends kc kv.0 (inorder root.first) loc
      → find kc kv.0 (inorder root.first) ≡ none
      → erase_at root kv loc ≡ ok (root, kv, false)
  unfolding erase_at
  erase_at-absent root kv (located c l f r p) s new = absurd (ground (arith, s.found))
  erase_at-absent root kv unexist s new = refl
  erase_at-absent root kv (lchild c f r p) s new = refl
  erase_at-absent root kv (rchild c l f p) s new = refl

  -- On a key that a valid tree lacks, tl_rbtree_erase returns -1 and changes nothing.
  pub erase-absent :
      (root : Root (K × V)) (kv : K × V)
      → IsTree kc root
      → find kc kv.0 (inorder root.first) ≡ none
      → erase kc root kv ≡ ok (root, kv, false)
  unfolding erase
  erase-absent root kv v new =
      erase_at-absent root kv (locate_key kc root kv.0) (locate_key-Ends kc ord root kv.0 v).0 new
