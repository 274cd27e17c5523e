-- ===== src/Btree/Cursor/Walk.antt =====
-- tl_btree_first and tl_btree_next of trunk/src/tl_btree2.c.
use common_tool.Base.{
  ℕ, zero, suc, ◌+◌, ◌≤◌, ◌≡◌, refl, sym, ◌∙◌, ap, ap₂, List, [], ◌∷◌, ◌++◌, Option, none, some,
  arith, length, get_or, take, append_assoc, append-nil, get_or-take, ltb, ◌==◌, Bool-cases, inl,
  inr, load-ok, ok, ◌>>=◌, Returns, returns, Returns-bind,
}
use common_tool.Btree.{Sub, Way, top, under, Tree, Root}
use common_tool.Btree.Contents.{below, weave, before, after, contents, lefts, rights, entries}
use common_tool.Btree.Invariant.{IsNode, IsShape, least, Room-Shows}
use common_tool.Btree.Ends.{weave-drop, before-next, after-end}
use common_tool.Btree.Locate.Hit.{leaf_child, inner_child}
use common_tool.Btree.Erase.Descend.{IsPlace, child-IsKid, contents-around, descend-First}
use common_tool.Btree.Cursor.{Cursor, climb_next, next_here, next_at, next, descend_first, first}
use common_tool.Btree.Cursor.Stands.{Stands, Steps, stop, stand}

pub least-positive : {A : Type 0} (fork h : ℕ) (p : Way A h) → 2 ≤ fork → 1 ≤ least fork h p
least-positive fork h top big = omega arith
least-positive fork h (under parent i p) big = ground arith

module _ {A : Type 0} (fork : ℕ) where
  pub parent-IsPlace :
      (h : ℕ) (node : Sub A (suc h)) (parent : Sub A (suc (suc h))) (i : ℕ) (p : Way A (suc h))
      → IsPlace fork h node (under parent i p)
      → IsPlace fork (suc h) parent p
  parent-IsPlace h node parent i p v = record {
    whole = v.way.0;
    low = v.way.2;
    way = v.way.3;
    linked = v.linked.1;
  }

  -- Nothing stands after the last child.
  pub nothing_after :
      (h : ℕ) (node : Sub A (suc h)) (i : ℕ)
      → IsNode fork h node
      → i ≡ node.cnt_used
      → after (contents h) i (take node.cnt_used node.pkv) (take (node.cnt_used + 1) node.pc) ≡ []
  nothing_after h node i n e =
      let shown = Room-Shows fork node n.room in
      let ks = take node.cnt_used node.pkv in
      let last : i ≡ length ks = omega (arith, shown.used) in
      ap (λ i. after (contents h) i ks (take (node.cnt_used + 1) node.pc)) last
      ∙ after-end (contents h) ks (take (node.cnt_used + 1) node.pc) shown.one_more

  -- All that a node has, where the last child is known.
  pub contents_upto :
      (h : ℕ) (node : Sub A (suc h)) (i : ℕ) (c : Option (Sub A h))
      → IsNode fork h node
      → i ≡ node.cnt_used
      → get_or node.pc i none ≡ c
      → contents (suc h) node
        ≡ before (contents h) i (take node.cnt_used node.pkv) (take (node.cnt_used + 1) node.pc)
          ++ below (contents h) c
  contents_upto h node i c n e k =
      let b =
        before (contents h) i (take node.cnt_used node.pkv) (take (node.cnt_used + 1) node.pc) in
      contents-around fork h node i n (omega arith)
      ∙ ap₂ (λ c a. b ++ (below (contents h) c ++ a)) k (nothing_after h node i n e)
      ∙ ap (λ l. b ++ l) (append-nil (below (contents h) c))

  climb_next-Steps :
      (h : ℕ) (node : Sub A (suc h)) (p : Way A h) (xs ys : List A)
      → IsPlace fork h node p
      → xs ≡ lefts h p ++ contents (suc h) node
      → ys ≡ rights h p
      → Steps fork xs ys (climb_next h p)
  unfolding climb_next
  climb_next-Steps h node top xs ys v front back = stop back
  climb_next-Steps h node (under parent i p) xs ys v front back =
      let v' = parent-IsPlace h node parent i p v in
      let f = contents {A = A} (suc h) in
      let ks = take parent.cnt_used parent.pkv in
      let cs = take (parent.cnt_used + 1) parent.pc in
      elim (Bool-cases (i == parent.cnt_used)) [
        | inl last ↦
            let nothing = nothing_after (suc h) parent i v'.whole (ground arith) in
            rw last (
              climb_next-Steps (suc h) parent p xs ys v'
                (front
                  ∙ append_assoc (lefts (suc h) p) (before f i ks cs) (f node)
                  ∙ ap (λ l. lefts (suc h) p ++ l)
                      (sym (
                        contents_upto (suc h) parent i (some node) v'.whole (ground arith)
                          v.linked.0)))
                (back ∙ ap (λ l. l ++ rights (suc h) p) nothing))
        | inr inner ↦ rw inner (
            stand fork (suc h) parent p v' i xs ys (ground (arith, v.way.1))
              (front
                ∙ append_assoc (lefts (suc h) p) (before f i ks cs) (f node)
                ∙ ap (λ c. lefts (suc h) p ++ (before f i ks cs ++ below f c)) (sym v.linked.0))
              back)
      ]

  next_here-Steps :
      (h : ℕ) (node : Sub A (suc h)) (p : Way A h) (idx : ℕ) (xs ys : List A)
      → IsPlace fork h node p
      → idx ≤ node.cnt_used
      → get_or node.pc idx none ≡ none
      → xs
        ≡ lefts h p
          ++ before
              (contents h)
              idx
              (take node.cnt_used node.pkv)
              (take (node.cnt_used + 1) node.pc)
      → ys
        ≡ after (contents h) idx (take node.cnt_used node.pkv) (take (node.cnt_used + 1) node.pc)
          ++ rights h p
      → Steps fork xs ys (next_here h node p idx)
  unfolding next_here
  next_here-Steps h node p idx xs ys v k no_child front back =
      let b =
        before (contents h) idx (take node.cnt_used node.pkv) (take (node.cnt_used + 1) node.pc) in
      elim (Bool-cases (ltb idx node.cnt_used)) [
        | inl inside ↦ rw inside (
            stand fork h node p v idx xs ys (ground arith)
              (front
                ∙ ap (λ l. lefts h p ++ l) (sym (append-nil b))
                ∙ ap (λ c. lefts h p ++ (b ++ below (contents h) c)) (sym no_child))
              back)
        | inr outside ↦ rw outside (
            climb_next-Steps h node p xs ys v
              (front
                ∙ ap (λ l. lefts h p ++ l)
                    (sym (
                      contents_upto h node idx none v.whole (ground arith) no_child
                      ∙ append-nil b)))
              (back ∙ ap (λ l. l ++ rights h p) (nothing_after h node idx v.whole (ground arith))))
      ]

  descend_first-Steps :
      (h : ℕ) (node : Sub A (suc h)) (p : Way A h) (xs ys : List A)
      → 2 ≤ fork
      → IsPlace fork h node p
      → lefts h p ≡ xs
      → contents (suc h) node ++ rights h p ≡ ys
      → Returns (λ c. Steps fork xs ys (some c)) (descend_first h node p)
  unfolding descend_first
  descend_first-Steps h node p xs ys big v front back =
      Returns-bind (descend-First fork h node p xs ys v front back) λ (k, leaf, q) r.
        let a =
          after (contents k) 0 (take leaf.cnt_used leaf.pkv) (take (leaf.cnt_used + 1) leaf.pc) in
        returns (
          stand fork k leaf q r.place 0 xs ys
            (omega (arith, r.place.low, least-positive fork k q big))
            (sym r.front
              ∙ sym (append-nil (lefts k q))
              ∙ ap (λ c. lefts k q ++ below (contents k) c) (sym r.no_child))
            (sym r.back
              ∙ ap (λ l. l ++ rights k q)
                  (contents-around fork k leaf 0 r.place.whole (omega arith))
              ∙ ap (λ c. (below (contents k) c ++ a) ++ rights k q) r.no_child))

  next_at-Steps :
      (h : ℕ) (node : Sub A (suc h)) (p : Way A h) (idx : ℕ) (xs ys : List A)
      → 2 ≤ fork
      → IsPlace fork h node p
      → idx ≤ node.cnt_used
      → xs
        ≡ lefts h p
          ++ before
              (contents h)
              idx
              (take node.cnt_used node.pkv)
              (take (node.cnt_used + 1) node.pc)
      → ys
        ≡ (below (contents h) (get_or node.pc idx none)
            ++ after
                (contents h)
                idx
                (take node.cnt_used node.pkv)
                (take (node.cnt_used + 1) node.pc))
          ++ rights h p
      → Returns (Steps fork xs ys) (next_at h node p idx)
  unfolding next_at
  next_at-Steps zero node p idx xs ys big v k front back =
      let no_child =
        leaf_child A fork (get_or node.pc idx none) (child-IsKid fork 0 node idx v.whole k) in
      let a =
        after (contents 0) idx (take node.cnt_used node.pkv) (take (node.cnt_used + 1) node.pc) in
      rw
        (
          load-ok node.pc idx none (omega (arith, v.whole.room.room_kids, v.whole.room.fits)),
          no_child,
        )
        (returns (
          next_here-Steps 0 node p idx xs ys v k no_child front
            (back ∙ ap (λ c. (below (contents 0) c ++ a) ++ rights 0 p) no_child)))
  next_at-Steps (suc h) node p idx xs ys big v k front back =
      let child =
        inner_child fork h (get_or node.pc idx none)
          (child-IsKid fork (suc h) node idx v.whole k) in
      let a =
        after (contents (suc h)) idx (take node.cnt_used node.pkv)
          (take (node.cnt_used + 1) node.pc) in
      rw
        (
          load-ok node.pc idx none (omega (arith, v.whole.room.room_kids, v.whole.room.fits)),
          child.1,
        )
        (Returns-bind
          (descend_first-Steps h child.0 (under node idx p) xs ys big
            (record {
              whole = child.3;
              low = child.2;
              way = (v.whole, k, v.low, v.way);
              linked = (child.1, v.linked);
            })
            (sym front)
            (sym (append_assoc (contents (suc h) child.0) a (rights (suc h) p))
              ∙ ap (λ c. (below (contents (suc h)) c ++ a) ++ rights (suc h) p) (sym child.1)
              ∙ sym back))
          λ c s. returns s)

  -- From a cursor on a valid tree with room for two entries in a node, tl_btree_next goes to the entry
  -- that follows in order, and returns -1 exactly behind the last one.
  pub next_at_entry-Steps :
      (c : Cursor A) (xs : List A) (e : A) (ys : List A)
      → 2 ≤ fork
      → Stands fork xs e ys c
      → Returns (Steps fork (xs ++ e ∷ []) ys) (next c)
  unfolding next
  next_at_entry-Steps c xs e ys big s =
      let h = c.height in
      let node = c.ploc in
      let i = c.idx_key in
      let ks = take node.cnt_used node.pkv in
      let cs = take (node.cnt_used + 1) node.pc in
      let shown = Room-Shows fork node s.place.whole.room in
      let w = weave (contents h) (take i ks) (take (i + 1) cs) in
      let key : get_or ks i e ≡ e = get_or-take node.cnt_used node.pkv i e s.within ∙ s.entry e in
      next_at-Steps h node c.path (i + 1) (xs ++ e ∷ []) ys big s.place (omega (arith, s.within))
        (ap (λ l. l ++ e ∷ []) s.front
          ∙ append_assoc (lefts h c.path) w (e ∷ [])
          ∙ ap (λ x. lefts h c.path ++ (w ++ x ∷ [])) (sym key)
          ∙ ap (λ l. lefts h c.path ++ l)
              (sym (
                before-next (contents h) i ks cs e shown.one_more
                  (omega (arith, shown.used, s.within)))))
        (s.back
          ∙ ap (λ l. l ++ rights h c.path)
              (weave-drop (contents h) (i + 1) ks cs none shown.one_more
                (omega (arith, shown.used, s.within)))
          ∙ ap (λ d. (below (contents h) d ++ after (contents h) (i + 1) ks cs) ++ rights h c.path)
              (get_or-take (node.cnt_used + 1) node.pc (i + 1) none (omega (arith, s.within))))

  start_first :
      (t : Option (Tree A))
      → 2 ≤ fork
      → IsShape fork t
      → Returns
          (Steps fork [] (entries t))
          (elim t [ none ↦ ok none | some t ↦ descend_first t.0 t.1 top >>= λ c. ok (some c) ])
  start_first none big s = returns (stop refl)
  start_first (some t) big s =
      Returns-bind
        (descend_first-Steps t.0 t.1 top [] (entries (some t)) big
          (record { whole = s.1; low = s.0; way = tt; linked = tt }) refl
          (append-nil (entries (some t))))
        λ c r. returns r

  -- tl_btree_first goes to the first entry of a valid tree with room for two entries in a node, and
  -- returns -1 exactly on an empty tree.
  pub first_entry-Steps :
      (root : Root A)
      → 2 ≤ fork
      → IsShape fork root.first
      → Returns (Steps fork [] (entries root.first)) (first root)
  unfolding first
  first_entry-Steps root big s = start_first root.first big s
