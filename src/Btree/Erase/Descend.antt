-- ===== src/Btree/Erase/Descend.antt =====
-- The way down along the first children, in tl_btree_first, tl_btree_next and `erase_1` of
-- trunk/src/tl_btree2.c.
use common_tool.Base.{
  ℕ, zero, suc, ◌+◌, ◌≤◌, ◌≡◌, sym, ◌∙◌, ap, subst, List, ◌++◌, none, some, arith, get_or, take,
  append_assoc, append-nil, get_or-take, load-ok, Returns, returns,
}
use common_tool.Btree.{Sub, Way, top, under}
use common_tool.Btree.Contents.{below, before, after, contents, lefts, rights, weave-get}
use common_tool.Btree.Invariant.{IsKid, IsNode, IsWay, least, Room-Shows, All-get_or}
use common_tool.Btree.Locate.Hit.{leaf_child, inner_child}
use common_tool.Btree.Erase.{descend}

-- Each node of a path is the child that its parent has at the place.
abbrev pub Linked : {A : Type 0} (h : ℕ) → Sub A (suc h) → Way A h → Type 0
Linked h node top = Unit
Linked h node (under parent i p) = (get_or parent.pc i none ≡ some node) × Linked (suc h) parent p

-- A node of a tree, with the path to it.
pub record IsPlace {A : Type 0} (fork h : ℕ) (node : Sub A (suc h)) (p : Way A h) : Type 0 where
  pub whole : IsNode fork h node
  pub low : least fork h p ≤ node.cnt_used
  pub way : IsWay fork h p
  pub linked : Linked h node p

-- The leaf that begins with the first of the entries `ys`, behind the entries `xs`.
pub record First {A : Type 0} (fork : ℕ) (xs ys : List A) (r : (k : ℕ) × Sub A (suc k) × Way A k)
    : Type 0 where
  pub place : IsPlace fork r.0 r.1 r.2
  pub no_child : get_or r.1.pc 0 none ≡ none
  pub front : lefts r.0 r.2 ≡ xs
  pub back : contents (suc r.0) r.1 ++ rights r.0 r.2 ≡ ys

module _ {A : Type 0} (fork : ℕ) where
  pub child-IsKid :
      (h : ℕ) (node : Sub A (suc h)) (i : ℕ)
      → IsNode fork h node
      → i ≤ node.cnt_used
      → IsKid A fork h (get_or node.pc i none)
  child-IsKid h node i n k =
      let shown = Room-Shows fork node n.room in
      let cs = take (node.cnt_used + 1) node.pc in
      subst (IsKid A fork h) (get_or-take (node.cnt_used + 1) node.pc i none (omega arith))
        (All-get_or (IsKid A fork h) i cs none (omega (arith, shown.one_more, shown.used)) n.kids)

  -- The entries of a node around one of its children.
  pub contents-around :
      (h : ℕ) (node : Sub A (suc h)) (i : ℕ)
      → IsNode fork h node
      → i ≤ node.cnt_used
      → contents (suc h) node
        ≡ before (contents h) i (take node.cnt_used node.pkv) (take (node.cnt_used + 1) node.pc)
          ++ (below (contents h) (get_or node.pc i none)
              ++ after
                  (contents h)
                  i
                  (take node.cnt_used node.pkv)
                  (take (node.cnt_used + 1) node.pc))
  contents-around h node i n k =
      let shown = Room-Shows fork node n.room in
      let ks = take node.cnt_used node.pkv in
      let cs = take (node.cnt_used + 1) node.pc in
      weave-get (contents h) i ks cs none shown.one_more (omega (arith, shown.used))
      ∙ ap
          (λ c. before (contents h) i ks cs ++ (below (contents h) c ++ after (contents h) i ks cs))
          (get_or-take (node.cnt_used + 1) node.pc i none (omega arith))

  pub descend-First :
      (h : ℕ) (node : Sub A (suc h)) (p : Way A h) (xs ys : List A)
      → IsPlace fork h node p
      → lefts h p ≡ xs
      → contents (suc h) node ++ rights h p ≡ ys
      → Returns (First fork xs ys) (descend h node p)
  unfolding descend
  descend-First zero node p xs ys v front back =
      let no_child =
        leaf_child A fork (get_or node.pc 0 none) (child-IsKid 0 node 0 v.whole (omega arith)) in
      rw (load-ok node.pc 0 none (omega (arith, v.whole.room.room_kids)), no_child)
        (returns (record { place = v; no_child = no_child; front = front; back = back }))
  descend-First (suc h) node p xs ys v front back =
      let child =
        inner_child fork h (get_or node.pc 0 none)
          (child-IsKid (suc h) node 0 v.whole (omega arith)) in
      let ks = take node.cnt_used node.pkv in
      let cs = take (node.cnt_used + 1) node.pc in
      let a = after (contents (suc h)) 0 ks cs in
      rw (load-ok node.pc 0 none (omega (arith, v.whole.room.room_kids)), child.1)
        (descend-First h child.0 (under node 0 p) xs ys
          (record {
            whole = child.3;
            low = child.2;
            way = (v.whole, omega arith, v.low, v.way);
            linked = (child.1, v.linked);
          })
          (append-nil (lefts (suc h) p) ∙ front)
          (sym (append_assoc (contents (suc h) child.0) a (rights (suc h) p))
            ∙ ap (λ c. (below (contents (suc h)) c ++ a) ++ rights (suc h) p) (sym child.1)
            ∙ ap (λ l. l ++ rights (suc h) p)
                (sym (contents-around (suc h) node 0 v.whole (omega arith)))
            ∙ back))
