-- ===== src/Btree/Locate/Main.antt =====
-- Where `tb_locate_key` of trunk/src/tl_btree2.c ends on a valid tree.
use common_tool.Base.{
  ℕ, zero, suc, ◌+◌, ◌^◌, ◌≤◌, ◌≡◌, refl, sym, subst, List, ◌++◌, Option, none, some, arith, get_or,
  take, append-nil, ℤ, IsOrder, inl, inr, ok, Returns, returns, Returns-bind, load-ok,
}
use common_tool.Rbtree.Ascending.{IsBelow, IsAbove, IsAscending}
use common_tool.Btree.{Sub, Way, top, under, Tree, Root}
use common_tool.Btree.Contents.{below, before, after, contents, lefts, rights, entries}
use common_tool.Btree.Invariant.{IsNode, IsWay, IsShape, IsBtree, least, Room-Shows}
use common_tool.Btree.Order.{IsAscending-weave}
use common_tool.Btree.Locate.{no_node, locate_loop, locate_key}
use common_tool.Btree.Locate.Place.{bsearch_node-At}
use common_tool.Btree.Locate.Hit.{
  leaf_child, inner_child, At-cases, hit_here, hit-true, hit-false, found_here,
}
use common_tool.Btree.Locate.Opening.{node-IsAscending, gap_here}
use common_tool.Btree.Locate.Found.{Found, found_at, gap_found, nothing}

module _ {K V : Type 0} (kc : K → K → ℤ) (ord : IsOrder kc) (fork : ℕ) (key : K)
    (small : fork ≤ 2 ^ 30) where
  pub locate_loop-Found :
      (h : ℕ) (node : Sub (K × V) (suc h)) (p : Way (K × V) h) (whole : List (K × V))
      → IsNode fork h node
      → least fork h p ≤ node.cnt_used
      → IsWay fork h p
      → whole ≡ lefts h p ++ (contents (suc h) node ++ rights h p)
      → IsAscending kc whole
      → IsBelow kc key (lefts h p)
      → IsAbove kc key (rights h p)
      → Returns (Found kc fork key whole) (locate_loop kc h key node p)
  unfolding locate_loop
  locate_loop-Found zero node p whole n low q e asc lower upper =
      let ks = take node.cnt_used node.pkv in
      let shown = Room-Shows fork node n.room in
      let part =
        IsAscending-weave kc (contents 0) ks (take (node.cnt_used + 1) node.pc)
          (node-IsAscending kc ord fork key 0 node p whole e asc) in
      Returns-bind (bsearch_node-At kc ord node key part (omega (arith, n.room.fits, small)))
        λ idx at. elim (At-cases kc ord fork key ks idx at) [
          | inl (l, z) ↦ rw (hit-true kc ord fork key node idx n.room l z) (
              returns (
                found_at 0 node idx p n low q e (omega (arith, shown.used))
                  (hit_here kc ord fork key node idx n.room l z)
                  (found_here kc ord fork key 0 node p whole idx n e asc l z)))
          | inr (l, b, a) ↦
              let c = get_or node.pc idx none in
              let front =
                lefts 0 p ++ before (contents 0) idx ks (take (node.cnt_used + 1) node.pc) in
              let back =
                after (contents 0) idx ks (take (node.cnt_used + 1) node.pc) ++ rights 0 p in
              let g = gap_here kc ord fork key 0 node p whole idx n e asc lower upper l b a in
              let no_child = leaf_child (K × V) fork c g.kid in
              rw
                (
                  hit-false kc ord fork key node idx n.room a,
                  load-ok node.pc idx none g.readable,
                  no_child,
                )
                (returns (
                  gap_found node idx p n low q g.within front back refl refl
                    (subst (λ c. whole ≡ front ++ (below (contents 0) c ++ back)) no_child g.all)
                    g.lower g.upper))
        ]
  locate_loop-Found (suc h) node p whole n low q e asc lower upper =
      let ks = take node.cnt_used node.pkv in
      let shown = Room-Shows fork node n.room in
      let part =
        IsAscending-weave kc (contents (suc h)) ks (take (node.cnt_used + 1) node.pc)
          (node-IsAscending kc ord fork key (suc h) node p whole e asc) in
      Returns-bind (bsearch_node-At kc ord node key part (omega (arith, n.room.fits, small)))
        λ idx at. elim (At-cases kc ord fork key ks idx at) [
          | inl (l, z) ↦ rw (hit-true kc ord fork key node idx n.room l z) (
              returns (
                found_at (suc h) node idx p n low q e (omega (arith, shown.used))
                  (hit_here kc ord fork key node idx n.room l z)
                  (found_here kc ord fork key (suc h) node p whole idx n e asc l z)))
          | inr (l, b, a) ↦
              let c = get_or node.pc idx none in
              let front =
                lefts (suc h) p
                ++ before (contents (suc h)) idx ks (take (node.cnt_used + 1) node.pc) in
              let back =
                after (contents (suc h)) idx ks (take (node.cnt_used + 1) node.pc)
                ++ rights (suc h) p in
              let g = gap_here kc ord fork key (suc h) node p whole idx n e asc lower upper l b a in
              let child = inner_child fork h c g.kid in
              rw
                (
                  hit-false kc ord fork key node idx n.room a,
                  load-ok node.pc idx none g.readable,
                  child.1,
                )
                (locate_loop-Found h child.0 (under node idx p) whole child.3 child.2
                  (n, g.within, low, q)
                  (subst (λ c. whole ≡ front ++ (below (contents (suc h)) c ++ back)) child.1 g.all)
                  asc g.lower g.upper)
        ]

  start_search :
      (first : Option (Tree (K × V)))
      → IsAscending kc (entries first)
      → IsShape fork first
      → Returns
          (Found kc fork key (entries first))
          (elim first [ none ↦ ok no_node | some t ↦ locate_loop kc t.0 key t.1 top ])
  start_search none asc s = returns (nothing refl)
  start_search (some t) asc s =
      locate_loop-Found t.0 t.1 top (entries (some t)) s.1 s.0 tt
        (sym (append-nil (entries (some t)))) asc tt tt

  -- Where the search of a valid tree ends.
  pub locate_key-Found :
      (root : Root (K × V))
      → IsBtree kc root
      → root.m_fork ≡ fork
      → Returns (Found kc fork key (entries root.first)) (locate_key kc root key)
  unfolding locate_key
  locate_key-Found root v e =
      start_search root.first v.ascending (subst (λ n. IsShape n root.first) e v.shape)
