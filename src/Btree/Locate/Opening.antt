-- ===== src/Btree/Locate/Opening.antt =====
-- What stands around the child that `tb_locate_key` of trunk/src/tl_btree2.c goes down to.
use common_tool.Base.{
  ℕ, suc, ◌+◌, ◌≤◌, ◌<◌, ◌≡◌, ◌∙◌, ap, subst, List, ◌++◌, Option, none, arith, length, get_or, take,
  drop, get_or-take, ℤ, IsOrder,
}
use common_tool.Rbtree.Ascending.{
  IsBelow, IsAbove, IsAscending, IsAbove-append, IsBelow-append, IsAscending-parts,
}
use common_tool.Btree.{Sub, Way}
use common_tool.Btree.Contents.{below, before, after, contents, lefts, rights, weave-get}
use common_tool.Btree.Invariant.{IsKid, IsNode, Room-Shows, All-get_or}
use common_tool.Btree.Plug.{regroup}
use common_tool.Btree.Order.{IsBelow-before, IsAbove-after}

module _ {K V : Type 0} (kc : K → K → ℤ) (ord : IsOrder kc) (fork : ℕ) (key : K) where
  -- What stands around a child that the key leads to.
  pub record Opening (h : ℕ) (node : Sub (K × V) (suc h)) (p : Way (K × V) h) (whole : List (K × V))
      (idx : ℕ) (c : Option (Sub (K × V) h)) : Type 0 where
    pub kid : IsKid (K × V) fork h c
    pub within : idx ≤ node.cnt_used
    pub readable : idx < length node.pc
    pub all :
        whole
        ≡ (lefts h p
            ++ before
                (contents h)
                idx
                (take node.cnt_used node.pkv)
                (take (node.cnt_used + 1) node.pc))
          ++ (below (contents h) c
              ++ (after
                    (contents h)
                    idx
                    (take node.cnt_used node.pkv)
                    (take (node.cnt_used + 1) node.pc)
                  ++ rights h p))
    pub lower : IsBelow kc key (
        lefts h p
        ++ before (contents h) idx (take node.cnt_used node.pkv) (take (node.cnt_used + 1) node.pc))
    pub upper : IsAbove kc key (
        after (contents h) idx (take node.cnt_used node.pkv) (take (node.cnt_used + 1) node.pc)
        ++ rights h p)

  pub node-IsAscending :
      (h : ℕ) (node : Sub (K × V) (suc h)) (p : Way (K × V) h) (whole : List (K × V))
      → whole ≡ lefts h p ++ (contents (suc h) node ++ rights h p)
      → IsAscending kc whole
      → IsAscending kc (contents (suc h) node)
  node-IsAscending h node p whole e asc =
      (IsAscending-parts kc (contents (suc h) node) (rights h p)
        (IsAscending-parts kc (lefts h p) (contents (suc h) node ++ rights h p)
          (subst (IsAscending kc) e asc)).1).0

  pub gap_here :
      (h : ℕ) (node : Sub (K × V) (suc h)) (p : Way (K × V) h) (whole : List (K × V)) (idx : ℕ)
      → IsNode fork h node
      → whole ≡ lefts h p ++ (contents (suc h) node ++ rights h p)
      → IsAscending kc whole
      → IsBelow kc key (lefts h p)
      → IsAbove kc key (rights h p)
      → idx ≤ length (take node.cnt_used node.pkv)
      → IsBelow kc key (take idx (take node.cnt_used node.pkv))
      → IsAbove kc key (drop idx (take node.cnt_used node.pkv))
      → Opening h node p whole idx (get_or node.pc idx none)
  gap_here h node p whole idx n e asc lower upper l b a =
      let f = contents {A = K × V} h in
      let ks = take node.cnt_used node.pkv in
      let cs = take (node.cnt_used + 1) node.pc in
      let c = get_or node.pc idx none in
      let shown = Room-Shows fork node n.room in
      let same : get_or cs idx none ≡ c =
        get_or-take (node.cnt_used + 1) node.pc idx none (omega (arith, shown.used)) in
      let part = node-IsAscending h node p whole e asc in
      record {
        kid =
            subst (IsKid (K × V) fork h) same (
              All-get_or (IsKid (K × V) fork h) idx cs none (omega (arith, shown.one_more)) n.kids);
        within = omega (arith, shown.used);
        readable = omega (arith, shown.used, n.room.room_kids, n.room.fits);
        all =
            e
            ∙ ap (λ x. lefts h p ++ (x ++ rights h p)) (weave-get f idx ks cs none shown.one_more l)
            ∙ ap
                (λ x.
                  lefts h p
                  ++ ((before f idx ks cs ++ (below f x ++ after f idx ks cs)) ++ rights h p))
                same
            ∙ regroup (lefts h p) (before f idx ks cs) (below f c) (after f idx ks cs) (rights h p);
        lower =
            IsBelow-append kc key (lefts h p) (before f idx ks cs) lower
              (IsBelow-before kc ord f key idx ks cs part b);
        upper =
            IsAbove-append kc key (after f idx ks cs) (rights h p)
              (IsAbove-after kc ord f key idx ks cs part a) upper;
      }
