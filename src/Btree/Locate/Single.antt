-- ===== src/Btree/Locate/Single.antt =====
-- `tb_locate_key` of trunk/src/tl_btree2.c in a tree of one node.
use common_tool.Base.{
  ℕ, ◌+◌, ◌≤◌, ◌≡◌, refl, sym, take, get_or, none, some, [], ◌++◌, append-nil, arith, ℤ, IsOrder,
  inl, inr, load-ok, Returns, returns, Returns-bind,
}
use common_tool.Rbtree.Ascending.{find}
use common_tool.Btree.{Root, Sub, top}
use common_tool.Btree.Contents.{contents}
use common_tool.Btree.Invariant.{IsBtree}
use common_tool.Btree.Locate.{Location, missing, locate_loop, locate_key}
use common_tool.Btree.Locate.Hit.{At-cases, hit-false, found_here, leaf_child, entry_there}
use common_tool.Btree.Locate.Opening.{gap_here}
use common_tool.Btree.Locate.Place.{bsearch_node-At}
use common_tool.Btree.Order.{IsAscending-weave}

-- The tree has one node.
abbrev pub single : {A : Type 0} → ℕ → ℕ → Sub A 1 → Root A
single fork cnt leaf = record { m_fork = fork; first = some (0, leaf); cnt_key = cnt }

-- The node that the search of it ends in.
pub record IsTheLeaf {A : Type 0} (leaf : Sub A 1) (loc : Location A) : Type 0 where
  pub place : ℕ
  pub same : loc ≡ missing 0 leaf place top
  pub within : place ≤ leaf.cnt_used

module _ {K V : Type 0} (kc : K → K → ℤ) (ord : IsOrder kc) (fork cnt : ℕ)
    (leaf : Sub (K × V) 1) where
  pub leaf_search :
      (key : K)
      → IsBtree kc (single fork cnt leaf)
      → find kc key (contents 1 leaf) ≡ none
      → Returns (IsTheLeaf leaf) (locate_key kc (single fork cnt leaf) key)
  unfolding locate_key locate_loop
  leaf_search key v new =
      let n = v.shape.1 in
      let ks = take leaf.cnt_used leaf.pkv in
      let whole = contents 1 leaf in
      let e : whole ≡ whole ++ [] = sym (append-nil whole) in
      Returns-bind
        (bsearch_node-At kc ord leaf key
          (IsAscending-weave kc (contents 0) ks (take (leaf.cnt_used + 1) leaf.pc) v.ascending)
          (omega (arith, n.room.fits, v.small)))
        λ idx at. elim (At-cases kc ord fork key ks idx at) [
          | inl (l, z) ↦
              let d = entry_there ks idx l in
              absurd (
                ground (
                  arith,
                  found_here kc ord fork key 0 leaf top whole idx n e v.ascending l z d,
                  new,
                ))
          | inr (l, b, a) ↦
              let c = get_or leaf.pc idx none in
              let g = gap_here kc ord fork key 0 leaf top whole idx n e v.ascending tt tt l b a in
              let no_child = leaf_child (K × V) fork c g.kid in
              rw
                (
                  hit-false kc ord fork key leaf idx n.room a,
                  load-ok leaf.pc idx none g.readable,
                  no_child,
                )
                (returns (record { place = idx; same = refl; within = g.within }))
        ]
