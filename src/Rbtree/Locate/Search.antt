-- ===== src/Rbtree/Locate/Search.antt =====
-- Where the search ends: at the entry with the key, or between the entries below and above it.
use common_tool.Base.{
  ◌≡◌, sym, ◌∙◌, ap, subst, true, some, List, [], ◌∷◌, ◌++◌, append_assoc, ℤ, is_neg, is_zero,
  IsOrder, Bool-cases, inl, inr,
}
use common_tool.Rbtree.{Tree, leaf, node, Frame, left, right, inorder, before, after}
use common_tool.Rbtree.Locate.{Location, unexist, located, lchild, rchild, missing, locate}
use common_tool.Rbtree.Ascending.{
  IsBelow, IsAbove, IsAscending, find, IsBelow-append, IsAbove-append, IsAscending-parts,
  IsBelow-of_ascending, gt_of, IsAbove-trans, IsBelow-trans, find-IsBelow, find_head, IsBelow-equal,
}

module _ {ℓ κ} {K : Type ℓ} {V : Type κ} (kc : K → K → ℤ) (key : K) (whole : List (K × V)) where
  -- A path that splits the entries at the key.
  pub record Splits (p : List (Frame (K × V))) : Type (ℓ ⊔ κ) where
    pub all : before p ++ after p ≡ whole
    pub below : IsBelow kc key (before p)
    pub above : IsAbove kc key (after p)

  pub record Holds (t : Tree (K × V)) (e : K × V) (p : List (Frame (K × V))) : Type (ℓ ⊔ κ) where
    pub all : before p ++ (inorder t ++ after p) ≡ whole
    pub equal : is_zero (kc key e.0) ≡ true
    pub found : find kc key whole ≡ some e

  -- What each end of the search says of the entries.
  abbrev pub Ends : Location (K × V) → Type (ℓ ⊔ κ)
  Ends unexist = Splits []
  Ends (located c l e r p) = Holds (node c l e r) e p
  Ends (lchild c e r p) = Splits (left c e r ∷ p)
  Ends (rchild c l e p) = Splits (right c l e ∷ p)

module _ {ℓ κ} {K : Type ℓ} {V : Type κ} (kc : K → K → ℤ) (ord : IsOrder kc) (key : K) where
  missing-Ends :
      (whole : List (K × V)) (p : List (Frame (K × V)))
      → Splits kc key whole p
      → Ends kc key whole (missing p)
  missing-Ends whole [] s = s
  missing-Ends whole (left c e r ∷ p) s = s
  missing-Ends whole (right c l e ∷ p) s = s

  module _ (whole : List (K × V)) (l : Tree (K × V)) (e : K × V) (r : Tree (K × V))
      (p : List (Frame (K × V)))
      (all : before p ++ (inorder l ++ e ∷ inorder r ++ after p) ≡ whole) where
    middle : IsAscending kc whole → IsAscending kc (inorder l ++ e ∷ inorder r)
    middle asc =
        let whole' = subst (IsAscending kc) (sym all) asc in
        let tail = (IsAscending-parts kc (before p) _ whole').1 in
        (IsAscending-parts kc (inorder l ++ e ∷ inorder r) (after p) tail).0

    found_here :
        IsAscending kc whole
        → IsBelow kc key (before p)
        → is_zero (kc key e.0) ≡ true
        → find kc key whole ≡ some e
    found_here asc low hit =
        let low' =
          IsBelow-equal kc ord e.0 key (inorder l) hit
            (IsBelow-of_ascending kc (inorder l) e (inorder r) (middle asc)) in
        ap (find kc key) (sym (simp append_assoc at all))
        ∙ find-IsBelow kc ord key (before p) _ low
        ∙ find-IsBelow kc ord key (inorder l) (e ∷ (inorder r ++ after p)) low'
        ∙ find_head kc key e (inorder r ++ after p) hit

  pub locate-Ends :
      (whole : List (K × V)) (t : Tree (K × V)) (p : List (Frame (K × V)))
      → before p ++ (inorder t ++ after p) ≡ whole
      → IsAscending kc whole
      → IsBelow kc key (before p)
      → IsAbove kc key (after p)
      → Ends kc key whole (locate kc key t p)
  unfolding locate
  locate-Ends whole leaf p all asc low high =
      missing-Ends whole p (record { all = all; below = low; above = high })
  locate-Ends whole (node c l e r) p all asc low high =
      let asc' : IsAscending kc (inorder l ++ e ∷ inorder r) = middle whole l e r p all asc in
      elim (Bool-cases (is_zero (kc key e.0))) [
        | inl hit ↦
            rw hit
              (record { all = all; equal = hit; found = found_here whole l e r p all asc low hit })
        | inr miss ↦ elim (Bool-cases (is_neg (kc key e.0))) [
          | inl lt ↦
              rw (miss, lt)
                (locate-Ends whole l (left c e r ∷ p) (simp append_assoc at all) asc low (
                  lt,
                  IsAbove-append kc key (inorder r) (after p)
                      (IsAbove-trans kc ord key e.0 (inorder r) lt
                        (IsAscending-parts kc (inorder l) (e ∷ inorder r) asc').1.0)
                      high,
                ))
          | inr gt ↦
              rw (miss, gt)
                (locate-Ends whole r (right c l e ∷ p)
                  (simp append_assoc (simp append_assoc at all)) asc
                  (IsBelow-append kc key (before p) (inorder l ++ e ∷ []) low (
                    IsBelow-append kc key (inorder l) (e ∷ [])
                      (IsBelow-trans kc ord e.0 key (inorder l) (gt_of kc ord key e.0 miss gt)
                        (IsBelow-of_ascending kc (inorder l) e (inorder r) asc'))
                      (gt_of kc ord key e.0 miss gt, tt)))
                  high)
        ]
      ]
