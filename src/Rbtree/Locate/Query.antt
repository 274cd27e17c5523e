-- ===== src/Rbtree/Locate/Query.antt =====
-- Where the search of a valid tree ends, and tl_rbtree_query.
use common_tool.Base.{
  ◌≡◌, sym, ◌∙◌, ap, true, false, none, some, List, [], ◌∷◌, append-nil, ℤ, IsOrder,
}
use common_tool.Rbtree.{Frame, left, right, Root, inorder, before, after}
use common_tool.Rbtree.Locate.{
  Location, unexist, located, lchild, rchild, locate_key, query, query_at,
}
use common_tool.Rbtree.Locate.Search.{Ends, Splits, locate-Ends}
use common_tool.Rbtree.Locate.Place.{PlacedAt, locate-PlacedAt}
use common_tool.Rbtree.Ascending.{find, find-IsBelow, find-IsAbove}
use common_tool.Rbtree.Invariant.{IsTree}

module _ {ℓ κ} {K : Type ℓ} {V : Type κ} (kc : K → K → ℤ) (ord : IsOrder kc) where
  pub absent :
      (key : K) (whole : List (K × V)) (p : List (Frame (K × V)))
      → Splits kc key whole p
      → find kc key whole ≡ none
  absent key whole p s =
      ap (find kc key) (sym s.all)
      ∙ find-IsBelow kc ord key (before p) (after p) s.below
      ∙ find-IsAbove kc ord key (after p) s.above

  -- Where the search of a valid tree ends.
  pub locate_key-Ends :
      (root : Root (K × V)) (key : K)
      → IsTree kc root
      → Ends kc key (inorder root.first) (locate_key kc root key)
        × PlacedAt (locate_key kc root key)
  unfolding locate_key
  locate_key-Ends root key v = (
    locate-Ends kc ord key (inorder root.first) root.first [] (append-nil (inorder root.first))
        v.ascending tt tt,
    locate-PlacedAt kc key root.first [] (record {
      balanced = v.shape.balanced;
      balanced_path = tt;
      colored = v.shape.colored;
      colored_path = tt;
      fits = v.shape.root;
    }),
  )

  query_at-find :
      (kv : K × V) (whole : List (K × V)) (loc : Location (K × V))
      → Ends kc kv.0 whole loc
      → query_at kc kv loc
        ≡ elim (find kc kv.0 whole) [ none ↦ (kv, false) | some e ↦ ((kv.0, e.1), true) ]
  unfolding query_at
  query_at-find kv whole unexist s = rw (absent kv.0 whole [] s)
  query_at-find kv whole (located c l e r p) s = rw s.found
  query_at-find kv whole (lchild c e r p) s = rw (absent kv.0 whole (left c e r ∷ p) s)
  query_at-find kv whole (rchild c l e p) s = rw (absent kv.0 whole (right c l e ∷ p) s)

  -- On a valid tree tl_rbtree_query finds exactly the entry with the key: it returns 0 and its value,
  -- or -1 and leaves `*pkv` alone.
  pub query_correct :
      (root : Root (K × V)) (kv : K × V)
      → IsTree kc root
      → query kc root kv ≡ elim (find kc kv.0 (inorder root.first)) [
        | none ↦ (kv, false)
        | some e ↦ ((kv.0, e.1), true)
      ]
  unfolding query
  query_correct root kv v =
      query_at-find kv (inorder root.first) (locate_key kc root kv.0)
        (locate_key-Ends root kv.0 v).0
