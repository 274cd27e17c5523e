-- ===== src/Btree/Plug.antt =====
-- A node of trunk/src/tl_btree2.c seen from the root.
use common_tool.Base.{
  ℕ, suc, ◌+◌, ◌≤◌, ◌≡◌, refl, sym, ◌∙◌, ap, subst, List, ◌++◌, Option, some, arith, set, take,
  append_assoc, append-nil, length-set, Returns, returns, Returns-bind, Returns-map, store-ok,
}
use common_tool.Btree.{Sub, Way, top, under, Tree, setchild, plug}
use common_tool.Btree.Contents.{below, weave, before, after, contents, lefts, rights, weave-set}
use common_tool.Btree.Invariant.{All, IsKid, IsNode, IsWay, least, All-set, take-set, Room-Shows}

-- A whole tree with the entries `xs`.
pub record Whole {A : Type 0} (fork : ℕ) (xs : List A) (t : Tree A) : Type 0 where
  pub filled : 1 ≤ t.1.cnt_used
  pub node : IsNode fork t.0 t.1
  pub all : contents (suc t.0) t.1 ≡ xs

-- A child exchanged for another.
pub record Exchanged {A : Type 0} (fork h : ℕ) (parent parent' : Sub A (suc h)) (i : ℕ)
    (c : Option (Sub A h)) : Type 0 where
  pub used : parent'.cnt_used ≡ parent.cnt_used
  pub keys : parent'.pkv ≡ parent.pkv
  pub kids : parent'.pc ≡ set parent.pc i c
  pub node : IsNode fork h parent'
  pub all :
      contents (suc h) parent'
      ≡ before
          (contents h)
          i
          (take parent.cnt_used parent.pkv)
          (take (parent.cnt_used + 1) parent.pc)
        ++ (below (contents h) c
            ++ after
                (contents h)
                i
                (take parent.cnt_used parent.pkv)
                (take (parent.cnt_used + 1) parent.pc))

-- Five lists in a row.
pub regroup {ℓ} :
    {A : Type ℓ} (a b c d e : List A) → a ++ ((b ++ (c ++ d)) ++ e) ≡ (a ++ b) ++ (c ++ (d ++ e))
regroup a b c d e = simp append_assoc

module _ {A : Type 0} (fork : ℕ) where
  pub setchild-Exchanged :
      (h : ℕ) (parent : Sub A (suc h)) (i : ℕ) (c : Option (Sub A h))
      → IsNode fork h parent
      → i ≤ parent.cnt_used
      → IsKid A fork h c
      → Returns (λ parent'. Exchanged fork h parent parent' i c) (setchild parent i c)
  setchild-Exchanged h parent i c n k good =
      let shown = Room-Shows fork parent n.room in
      let ks = take parent.cnt_used parent.pkv in
      let cs = take (parent.cnt_used + 1) parent.pc in
      rw (store-ok parent.pc i c (omega (arith, n.room.room_kids, n.room.fits))) (
        returns (record {
          used = refl;
          keys = refl;
          kids = refl;
          node = record {
            room = record {
              room_keys = n.room.room_keys;
              room_kids = length-set parent.pc i c ∙ n.room.room_kids;
              fits = n.room.fits;
            };
            kids =
                subst (All (IsKid A fork h)) (sym (take-set (parent.cnt_used + 1) i parent.pc c))
                  (All-set (IsKid A fork h) i cs c n.kids good);
          };
          all =
              ap (weave (contents h) ks) (take-set (parent.cnt_used + 1) i parent.pc c)
              ∙ weave-set (contents h) i ks cs c shown.one_more (omega (arith, shown.used));
        }))

  pub plug-Whole :
      (h : ℕ) (node : Sub A (suc h)) (p : Way A h)
      → IsNode fork h node
      → least fork h p ≤ node.cnt_used
      → IsWay fork h p
      → Returns (Whole fork (lefts h p ++ (contents (suc h) node ++ rights h p))) (plug h node p)
  unfolding plug
  plug-Whole h node top n l q =
      returns (record { filled = l; node = n; all = sym (append-nil (contents (suc h) node)) })
  plug-Whole h node (under parent i p) n l q =
      let f = contents {A = A} (suc h) in
      let ks = take parent.cnt_used parent.pkv in
      let cs = take (parent.cnt_used + 1) parent.pc in
      Returns-bind (setchild-Exchanged (suc h) parent i (some node) q.0 q.1 (l, n.room, n.kids))
        λ b e. Returns-map (plug-Whole (suc h) b p e.node (omega (arith, e.used, q.2)) q.3) λ t w.
          record {
            filled = w.filled;
            node = w.node;
            all =
                w.all
                ∙ ap (λ l. lefts (suc h) p ++ (l ++ rights (suc h) p)) e.all
                ∙ regroup (lefts (suc h) p) (before f i ks cs) (f node) (after f i ks cs)
                    (rights (suc h) p);
          }
