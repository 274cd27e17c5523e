-- ===== src/Btree/Cursor/Back.antt =====
-- tl_btree_last and tl_btree_prev of trunk/src/tl_btree2.c.
use common_tool.Base.{
  ℕ, zero, suc, ◌+◌, ◌-◌, ◌≤◌, ◌<◌, ◌≡◌, refl, sym, ◌∙◌, ap, ap₂, false, List, [], ◌∷◌, ◌++◌,
  Option, none, some, arith, get_or, take, drop, append_assoc, append-nil, get_or-take, get_or_any,
  ◌==◌, load-ok, ok, ◌>>=◌, Returns, returns, Returns-bind,
}
use common_tool.Btree.{Sub, Way, top, under, Tree, Root}
use common_tool.Btree.Contents.{below, weave, before, after, contents, lefts, rights, entries}
use common_tool.Btree.Invariant.{IsShape, Room-Shows}
use common_tool.Btree.Ends.{weave-take, after-drop, weave-drop, before-next}
use common_tool.Btree.Locate.Hit.{leaf_child, inner_child, entry_there}
use common_tool.Btree.Erase.Descend.{IsPlace, child-IsKid, contents-around}
use common_tool.Btree.Cursor.{Cursor, climb_prev, prev_here, prev_at, prev, descend_last, last}
use common_tool.Btree.Cursor.Stands.{Stands}
use common_tool.Btree.Cursor.Walk.{nothing_after, least-positive, parent-IsPlace, contents_upto}

-- What a step back finds between the entries `xs` and `ys`: the last of `xs`, or that there is none.
pub data StepsBack {A : Type 0} (fork : ℕ) (xs ys : List A) : Option (Cursor A) → Type 0 where
  no_more : xs ≡ [] → StepsBack fork xs ys none
  back_to :
      (c : Cursor A) (front : List A) (e : A)
      → xs ≡ front ++ e ∷ []
      → Stands fork front e ys c
      → StepsBack fork xs ys (some c)

module _ {A : Type 0} (fork : ℕ) where
  -- A cursor at the entry before the child `j`, where that child is passed.
  stand_back :
      (h : ℕ) (node : Sub A (suc h)) (p : Way A h) (i j : ℕ) (xs ys : List A)
      → j ≡ i + 1
      → IsPlace fork h node p
      → i < node.cnt_used
      → xs
        ≡ lefts h p
          ++ before (contents h) j (take node.cnt_used node.pkv) (take (node.cnt_used + 1) node.pc)
      → ys
        ≡ (below (contents h) (get_or node.pc j none)
            ++ after
                (contents h)
                j
                (take node.cnt_used node.pkv)
                (take (node.cnt_used + 1) node.pc))
          ++ rights h p
      → StepsBack fork xs ys (some (record { height = h; ploc = node; path = p; idx_key = i }))
  stand_back h node p i j xs ys next v k front back =
      let ks = take node.cnt_used node.pkv in
      let cs = take (node.cnt_used + 1) node.pc in
      let shown = Room-Shows fork node v.whole.room in
      let e = entry_there node.pkv i (omega (arith, v.whole.room.room_keys, v.whole.room.fits)) in
      let x = get_or node.pkv i e in
      let w = weave (contents h) (take i ks) (take (i + 1) cs) in
      let key : get_or ks i e ≡ x = get_or-take node.cnt_used node.pkv i e k in
      back_to _ (lefts h p ++ w) x
        (front
          ∙ ap (λ j. lefts h p ++ before (contents h) j ks cs) next
          ∙ ap (λ l. lefts h p ++ l)
              (before-next (contents h) i ks cs e shown.one_more (omega (arith, shown.used)))
          ∙ ap (λ x. lefts h p ++ (w ++ x ∷ [])) key
          ∙ sym (append_assoc (lefts h p) w (x ∷ [])))
        (record {
          place = v;
          within = k;
          entry = λ d.
              get_or_any node.pkv i d e (omega (arith, v.whole.room.room_keys, v.whole.room.fits));
          front = refl;
          back =
              back
              ∙ ap
                  (λ j.
                    (below (contents h) (get_or node.pc j none) ++ after (contents h) j ks cs)
                    ++ rights h p)
                  next
              ∙ ap (λ c. (below (contents h) c ++ after (contents h) (i + 1) ks cs) ++ rights h p)
                  (sym (get_or-take (node.cnt_used + 1) node.pc (i + 1) none (omega arith)))
              ∙ ap (λ l. l ++ rights h p)
                  (sym (
                    weave-drop (contents h) (i + 1) ks cs none shown.one_more
                      (omega (arith, shown.used))));
        })

  climb_prev-StepsBack :
      (h : ℕ) (node : Sub A (suc h)) (p : Way A h) (xs ys : List A)
      → IsPlace fork h node p
      → xs ≡ lefts h p
      → ys ≡ contents (suc h) node ++ rights h p
      → StepsBack fork xs ys (climb_prev h p)
  unfolding climb_prev
  climb_prev-StepsBack h node top xs ys v front back = no_more front
  climb_prev-StepsBack h node (under parent zero p) xs ys v front back =
      let v' = parent-IsPlace fork h node parent 0 p v in
      let a =
        after (contents (suc h)) 0 (take parent.cnt_used parent.pkv)
          (take (parent.cnt_used + 1) parent.pc) in
      climb_prev-StepsBack (suc h) parent p xs ys v' (front ∙ append-nil (lefts (suc h) p)) (
        back
        ∙ sym (append_assoc (contents (suc h) node) a (rights (suc h) p))
        ∙ ap (λ c. (below (contents (suc h)) c ++ a) ++ rights (suc h) p) (sym v.linked.0)
        ∙ ap (λ l. l ++ rights (suc h) p)
            (sym (contents-around fork (suc h) parent 0 v'.whole (omega arith))))
  climb_prev-StepsBack h node (under parent (suc i) p) xs ys v front back =
      let v' = parent-IsPlace fork h node parent (suc i) p v in
      let a =
        after (contents (suc h)) (suc i) (take parent.cnt_used parent.pkv)
          (take (parent.cnt_used + 1) parent.pc) in
      let not_first : (suc i == 0) ≡ false = ground arith in
      let lowered : suc i - 1 ≡ i = omega arith in
      rw (not_first, lowered)
        (stand_back (suc h) parent p i (suc i) xs ys (omega arith) v' (omega (arith, v.way.1)) front
          (back
            ∙ sym (append_assoc (contents (suc h) node) a (rights (suc h) p))
            ∙ ap (λ c. (below (contents (suc h)) c ++ a) ++ rights (suc h) p) (sym v.linked.0)))

  prev_here-StepsBack :
      (h : ℕ) (node : Sub A (suc h)) (p : Way A h) (idx : ℕ) (xs ys : List A)
      → IsPlace fork h node p
      → idx < node.cnt_used
      → get_or node.pc idx none ≡ none
      → xs
        ≡ lefts h p
          ++ before
              (contents h)
              idx
              (take node.cnt_used node.pkv)
              (take (node.cnt_used + 1) node.pc)
      → ys
        ≡ after (contents h) idx (take node.cnt_used node.pkv) (take (node.cnt_used + 1) node.pc)
          ++ rights h p
      → StepsBack fork xs ys (prev_here h node p idx)
  unfolding prev_here
  prev_here-StepsBack h node p zero xs ys v k no_child front back =
      let a =
        after (contents h) 0 (take node.cnt_used node.pkv) (take (node.cnt_used + 1) node.pc) in
      climb_prev-StepsBack h node p xs ys v (front ∙ append-nil (lefts h p)) (
        back
        ∙ ap (λ c. (below (contents h) c ++ a) ++ rights h p) (sym no_child)
        ∙ ap (λ l. l ++ rights h p) (sym (contents-around fork h node 0 v.whole (omega arith))))
  prev_here-StepsBack h node p (suc i) xs ys v k no_child front back =
      let a =
        after (contents h) (suc i) (take node.cnt_used node.pkv)
          (take (node.cnt_used + 1) node.pc) in
      stand_back h node p i (suc i) xs ys (omega arith) v (omega arith) front
        (back ∙ ap (λ c. (below (contents h) c ++ a) ++ rights h p) (sym no_child))

  descend_last-StepsBack :
      (h : ℕ) (node : Sub A (suc h)) (p : Way A h) (xs ys : List A)
      → 2 ≤ fork
      → IsPlace fork h node p
      → xs ≡ lefts h p ++ contents (suc h) node
      → ys ≡ rights h p
      → Returns (λ c. StepsBack fork xs ys (some c)) (descend_last h node p)
  unfolding descend_last
  descend_last-StepsBack zero node p xs ys big v front back =
      let i = node.cnt_used in
      let b =
        before (contents 0) i (take node.cnt_used node.pkv) (take (node.cnt_used + 1) node.pc) in
      let no_child =
        leaf_child A fork (get_or node.pc i none)
          (child-IsKid fork 0 node i v.whole (omega arith)) in
      let some_entry : 1 ≤ node.cnt_used = omega (arith, v.low, least-positive fork 0 p big) in
      rw
        (
          load-ok node.pc i none (omega (arith, v.whole.room.room_kids, v.whole.room.fits)),
          no_child,
        )
        (returns (
          stand_back 0 node p (i - 1) i xs ys (omega arith) v (omega arith)
            (front
              ∙ ap (λ l. lefts 0 p ++ l)
                  (contents_upto fork 0 node i none v.whole refl no_child ∙ append-nil b))
            (back
              ∙ ap₂ (λ c a. (below (contents 0) c ++ a) ++ rights 0 p) (sym no_child)
                  (sym (nothing_after fork 0 node i v.whole refl)))))
  descend_last-StepsBack (suc h) node p xs ys big v front back =
      let i = node.cnt_used in
      let b =
        before (contents (suc h)) i (take node.cnt_used node.pkv)
          (take (node.cnt_used + 1) node.pc) in
      let child =
        inner_child fork h (get_or node.pc i none)
          (child-IsKid fork (suc h) node i v.whole (omega arith)) in
      rw
        (load-ok node.pc i none (omega (arith, v.whole.room.room_kids, v.whole.room.fits)), child.1)
        (descend_last-StepsBack h child.0 (under node i p) xs ys big
          (record {
            whole = child.3;
            low = child.2;
            way = (v.whole, omega arith, v.low, v.way);
            linked = (child.1, v.linked);
          })
          (front
            ∙ ap (λ l. lefts (suc h) p ++ l)
                (contents_upto fork (suc h) node i (some child.0) v.whole refl child.1)
            ∙ sym (append_assoc (lefts (suc h) p) b (contents (suc h) child.0)))
          (back
            ∙ ap (λ l. l ++ rights (suc h) p)
                (sym (nothing_after fork (suc h) node i v.whole refl))))

  prev_at-StepsBack :
      (h : ℕ) (node : Sub A (suc h)) (p : Way A h) (idx : ℕ) (xs ys : List A)
      → 2 ≤ fork
      → IsPlace fork h node p
      → idx < node.cnt_used
      → xs
        ≡ lefts h p
          ++ (before
                (contents h)
                idx
                (take node.cnt_used node.pkv)
                (take (node.cnt_used + 1) node.pc)
              ++ below (contents h) (get_or node.pc idx none))
      → ys
        ≡ after (contents h) idx (take node.cnt_used node.pkv) (take (node.cnt_used + 1) node.pc)
          ++ rights h p
      → Returns (StepsBack fork xs ys) (prev_at h node p idx)
  unfolding prev_at
  prev_at-StepsBack zero node p idx xs ys big v k front back =
      let b =
        before (contents 0) idx (take node.cnt_used node.pkv) (take (node.cnt_used + 1) node.pc) in
      let no_child =
        leaf_child A fork (get_or node.pc idx none)
          (child-IsKid fork 0 node idx v.whole (omega arith)) in
      rw
        (
          load-ok node.pc idx none (omega (arith, v.whole.room.room_kids, v.whole.room.fits)),
          no_child,
        )
        (returns (
          prev_here-StepsBack 0 node p idx xs ys v k no_child
            (front
              ∙ ap (λ c. lefts 0 p ++ (b ++ below (contents 0) c)) no_child
              ∙ ap (λ l. lefts 0 p ++ l) (append-nil b))
            back))
  prev_at-StepsBack (suc h) node p idx xs ys big v k front back =
      let b =
        before (contents (suc h)) idx (take node.cnt_used node.pkv)
          (take (node.cnt_used + 1) node.pc) in
      let child =
        inner_child fork h (get_or node.pc idx none)
          (child-IsKid fork (suc h) node idx v.whole (omega arith)) in
      rw
        (
          load-ok node.pc idx none (omega (arith, v.whole.room.room_kids, v.whole.room.fits)),
          child.1,
        )
        (Returns-bind
          (descend_last-StepsBack h child.0 (under node idx p) xs ys big
            (record {
              whole = child.3;
              low = child.2;
              way = (v.whole, omega arith, v.low, v.way);
              linked = (child.1, v.linked);
            })
            (front
              ∙ ap (λ c. lefts (suc h) p ++ (b ++ below (contents (suc h)) c)) child.1
              ∙ sym (append_assoc (lefts (suc h) p) b (contents (suc h) child.0)))
            back)
          λ c s. returns s)

  -- From a cursor on a valid tree with room for two entries in a node, tl_btree_prev goes to the entry
  -- before it in order, and returns -1 exactly at the first one.
  pub prev_at_entry-StepsBack :
      (c : Cursor A) (xs : List A) (e : A) (ys : List A)
      → 2 ≤ fork
      → Stands fork xs e ys c
      → Returns (StepsBack fork xs (e ∷ ys)) (prev c)
  unfolding prev
  prev_at_entry-StepsBack c xs e ys big s =
      let h = c.height in
      let node = c.ploc in
      let i = c.idx_key in
      let ks = take node.cnt_used node.pkv in
      let cs = take (node.cnt_used + 1) node.pc in
      let shown = Room-Shows fork node s.place.whole.room in
      let w = weave (contents h) (drop (i + 1) ks) (drop (i + 1) cs) in
      let key : get_or ks i e ≡ e = get_or-take node.cnt_used node.pkv i e s.within ∙ s.entry e in
      prev_at-StepsBack h node c.path i xs (e ∷ ys) big s.place s.within
        (s.front
          ∙ ap (λ l. lefts h c.path ++ l)
              (weave-take (contents h) i ks cs none shown.one_more
                (omega (arith, shown.used, s.within)))
          ∙ ap (λ d. lefts h c.path ++ (before (contents h) i ks cs ++ below (contents h) d))
              (get_or-take (node.cnt_used + 1) node.pc i none (omega (arith, s.within))))
        (ap (λ l. e ∷ l) s.back
          ∙ ap (λ x. x ∷ (w ++ rights h c.path)) (sym key)
          ∙ ap (λ l. l ++ rights h c.path)
              (sym (
                after-drop (contents h) i ks cs e shown.one_more
                  (omega (arith, shown.used, s.within)))))

  start_last :
      (t : Option (Tree A))
      → 2 ≤ fork
      → IsShape fork t
      → Returns
          (StepsBack fork (entries t) [])
          (elim t [ none ↦ ok none | some t ↦ descend_last t.0 t.1 top >>= λ c. ok (some c) ])
  start_last none big s = returns (no_more refl)
  start_last (some t) big s =
      Returns-bind
        (descend_last-StepsBack t.0 t.1 top (entries (some t)) [] big
          (record { whole = s.1; low = s.0; way = tt; linked = tt }) refl refl)
        λ c r. returns r

  -- tl_btree_last goes to the last entry of a valid tree with room for two entries in a node, and
  -- returns -1 exactly on an empty tree.
  pub last_entry-StepsBack :
      (root : Root A)
      → 2 ≤ fork
      → IsShape fork root.first
      → Returns (StepsBack fork (entries root.first) []) (last root)
  unfolding last
  last_entry-StepsBack root big s = start_last root.first big s
