-- ===== src/Btree/Cursor/Stands.antt =====
-- Where a cursor of trunk/src/tl_btree2.c stands among the entries of its tree.
use common_tool.Base.{
  ℕ, suc, ◌+◌, ◌<◌, ◌≡◌, refl, sym, ◌∙◌, ap, List, [], ◌∷◌, ◌++◌, Option, none, some, arith, get_or,
  take, drop, get_or-take, get_or_any,
}
use common_tool.Btree.{Sub, Way}
use common_tool.Btree.Contents.{below, weave, before, after, contents, lefts, rights}
use common_tool.Btree.Invariant.{Room-Shows}
use common_tool.Btree.Ends.{weave-take, after-drop}
use common_tool.Btree.Erase.Descend.{IsPlace}
use common_tool.Btree.Locate.Hit.{entry_there}
use common_tool.Btree.Cursor.{Cursor}

-- At the entry `e`, with the entries `xs` before it and `ys` after it.
pub record Stands {A : Type 0} (fork : ℕ) (xs : List A) (e : A) (ys : List A) (c : Cursor A)
    : Type 0 where
  pub place : IsPlace fork c.height c.ploc c.path
  pub within : c.idx_key < c.ploc.cnt_used
  pub entry : (d : A) → get_or c.ploc.pkv c.idx_key d ≡ e
  pub front :
      xs
      ≡ lefts c.height c.path
        ++ weave
            (contents c.height)
            (take c.idx_key (take c.ploc.cnt_used c.ploc.pkv))
            (take (c.idx_key + 1) (take (c.ploc.cnt_used + 1) c.ploc.pc))
  pub back :
      ys
      ≡ weave
          (contents c.height)
          (drop (c.idx_key + 1) (take c.ploc.cnt_used c.ploc.pkv))
          (drop (c.idx_key + 1) (take (c.ploc.cnt_used + 1) c.ploc.pc))
        ++ rights c.height c.path

-- What a step finds between the entries `xs` and `ys`: the first of `ys`, or that there is none.
pub data Steps {A : Type 0} (fork : ℕ) (xs ys : List A) : Option (Cursor A) → Type 0 where
  stop : ys ≡ [] → Steps fork xs ys none
  go :
      (c : Cursor A) (e : A) (rest : List A)
      → ys ≡ e ∷ rest
      → Stands fork xs e rest c
      → Steps fork xs ys (some c)

module _ {A : Type 0} (fork h : ℕ) (node : Sub A (suc h)) (p : Way A h)
    (v : IsPlace fork h node p) where
  -- A cursor at the entry behind the child `i`, where that child is passed.
  pub stand :
      (i : ℕ) (xs ys : List A)
      → i < node.cnt_used
      → xs
        ≡ lefts h p
          ++ (before (contents h) i (take node.cnt_used node.pkv) (take (node.cnt_used + 1) node.pc)
              ++ below (contents h) (get_or node.pc i none))
      → ys
        ≡ after (contents h) i (take node.cnt_used node.pkv) (take (node.cnt_used + 1) node.pc)
          ++ rights h p
      → Steps fork xs ys (some (record { height = h; ploc = node; path = p; idx_key = i }))
  stand i xs ys k front back =
      let ks = take node.cnt_used node.pkv in
      let cs = take (node.cnt_used + 1) node.pc in
      let shown = Room-Shows fork node v.whole.room in
      let e = entry_there node.pkv i (omega (arith, v.whole.room.room_keys, v.whole.room.fits)) in
      let w = weave (contents h) (drop (i + 1) ks) (drop (i + 1) cs) in
      let key : get_or ks i e ≡ get_or node.pkv i e = get_or-take node.cnt_used node.pkv i e k in
      go _ (get_or node.pkv i e) (w ++ rights h p)
        (back
          ∙ ap (λ l. l ++ rights h p)
              (after-drop (contents h) i ks cs e shown.one_more (omega (arith, shown.used)))
          ∙ ap (λ x. (x ∷ w) ++ rights h p) key)
        (record {
          place = v;
          within = k;
          entry = λ d.
              get_or_any node.pkv i d e (omega (arith, v.whole.room.room_keys, v.whole.room.fits));
          front =
              front
              ∙ ap (λ c. lefts h p ++ (before (contents h) i ks cs ++ below (contents h) c))
                  (sym (get_or-take (node.cnt_used + 1) node.pc i none (omega arith)))
              ∙ ap (λ l. lefts h p ++ l)
                  (sym (
                    weave-take (contents h) i ks cs none shown.one_more
                      (omega (arith, shown.used))));
          back = refl;
        })
