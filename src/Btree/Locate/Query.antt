-- ===== src/Btree/Locate/Query.antt =====
-- tl_btree_query of trunk/src/tl_btree2.c on a valid tree.
use common_tool.Base.{
  ◌≡◌, refl, ◌∙◌, ap, true, false, List, ◌++◌, none, some, arith, ℤ, IsOrder, ok, Returns-inv,
  load-ok,
}
use common_tool.Rbtree.Ascending.{IsBelow, IsAbove, find, find-IsBelow, find-IsAbove}
use common_tool.Btree.{Root}
use common_tool.Btree.Contents.{entries}
use common_tool.Btree.Invariant.{IsBtree}
use common_tool.Btree.Locate.{Location, query_at, query}
use common_tool.Btree.Locate.Found.{Found, found_at, gap_found, nothing}
use common_tool.Btree.Locate.Main.{locate_key-Found}

module _ {K V : Type 0} (kc : K → K → ℤ) (ord : IsOrder kc) where
  pub find-gap :
      (key : K) (whole front back : List (K × V))
      → whole ≡ front ++ back
      → IsBelow kc key front
      → IsAbove kc key back
      → find kc key whole ≡ none
  find-gap key whole front back e b a =
      ap (find kc key) e ∙ find-IsBelow kc ord key front back b ∙ find-IsAbove kc ord key back a

  query_at-find :
      {fork : _} (kv : K × V) (whole : List (K × V)) (loc : Location (K × V))
      → Found kc fork kv.0 whole loc
      → query_at kc kv loc
        ≡ ok (elim (find kc kv.0 whole) [ none ↦ (kv, false) | some e ↦ ((kv.0, e.1), true) ])
  unfolding query_at find
  query_at-find kv whole _ (found_at h node idx p n low q e l hit found) =
      rw (load-ok node.pkv idx kv (omega (arith, n.room.room_keys, n.room.fits)), found kv) refl
  query_at-find kv whole _ (gap_found node idx p n low q l front back ef eb e b a) =
      rw (find-gap kv.0 whole front back e b a) refl
  query_at-find kv whole _ (nothing e) = rw e refl

  -- On a valid tree tl_btree_query finds exactly the entry with the key: it returns 0 and its value,
  -- or -1 and leaves `*pkv` alone.
  pub query_matches_find :
      (root : Root (K × V)) (kv : K × V)
      → IsBtree kc root
      → query kc root kv
        ≡ ok (elim (find kc kv.0 (entries root.first)) [
          | none ↦ (kv, false)
          | some e ↦ ((kv.0, e.1), true)
        ])
  unfolding query
  query_matches_find root kv v =
      let at = Returns-inv (locate_key-Found kc ord root.m_fork kv.0 v.small root v refl) in
      rw at.1 (query_at-find kv (entries root.first) at.0 at.2)
