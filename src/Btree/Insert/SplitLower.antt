-- ===== src/Btree/Insert/SplitLower.antt =====
-- insert_3 of trunk/src/tl_btree2.c where the entry stays in the old node.
use common_tool.Base.{
  ℕ, ◌+◌, ◌-◌, ◌≤◌, ◌<◌, ◌≡◌, List, Option, arith, length, get_or, take, drop, length-take,
  length-drop, get_or-take, get_or_any, load-ok, ok, ◌>>=◌, Returns, returns, Returns-bind,
}
use common_tool.Btree.{Node, getkv}
use common_tool.Btree.Insert.{insert_2, move}
use common_tool.Btree.Insert.Entry.{insert_2-Shows}
use common_tool.Btree.Insert.Halves.{move-Shows}
use common_tool.Btree.Arrays.{insert_at, length-insert_at, get_or-insert_at, get_or-drop}
use common_tool.Btree.Shows.{Shows, spread}
use common_tool.Btree.Insert.Spread.{get_or-spread, length-spread, Shows-same, Shows-take, Halves}

module _ {A : Type 0} {C : Type 0} (fork : ℕ) (pnew node : Node A C) (ks : List A)
    (cs : List (Option C)) (idx : ℕ) (kv : A) (pl pr : Option C) (s : Shows fork node ks cs)
    (is_full : length ks ≡ fork) (big : 1 ≤ fork) (h : idx ≤ length ks) (a : length pnew.pkv ≡ fork)
    (b : length pnew.pc ≡ fork + 1) (z : pnew.cnt_used ≡ 0) where
  pub split-in_old :
      (at : ℕ)
      → idx < at
      → at < length ks
      → Returns
          (λ (sep, n, n'). Halves fork at (insert_at idx kv ks) (spread idx pl pr cs) sep n n')
          (getkv node (at - 1) >>= λ sep. move pnew node at >>= λ pnew.
            insert_2 (record node { cnt_used = at - 1 }) idx kv pl pr >>= λ node.
            ok (sep, node, pnew))
  split-in_old at k l = rw (load-ok node.pkv (at - 1) kv (omega (arith, s.room_keys))) (
      Returns-bind (move-Shows kv fork pnew node ks cs at s a b z l) λ n m.
        Returns-bind
          (insert_2-Shows fork (record node { cnt_used = at - 1 }) (take (at - 1) ks)
            (take (at - 1 + 1) cs) idx kv pl pr
            (Shows-take fork (at - 1) node ks cs s (omega arith))
            (omega (arith, length-take (at - 1) ks)) (omega (arith, length-take (at - 1) ks)))
          λ n' m'. returns (record {
            lower =
                Shows-same fork n' (insert_at idx kv (take (at - 1) ks))
                  (take at (insert_at idx kv ks)) (spread idx pl pr (take (at - 1 + 1) cs))
                  (take (at + 1) (spread idx pl pr cs)) m'
                  (omega (
                    arith,
                    length-take (at - 1) ks,
                    length-insert_at idx kv (take (at - 1) ks),
                    length-take at (insert_at idx kv ks),
                    length-insert_at idx kv ks,
                  ))
                  (omega (
                    arith,
                    s.one_more,
                    length-take (at - 1 + 1) cs,
                    length-spread idx pl pr (take (at - 1 + 1) cs),
                    length-take (at + 1) (spread idx pl pr cs),
                    length-spread idx pl pr cs,
                  ))
                  (λ j d p. ground (
                    arith,
                    length-take (at - 1) ks,
                    length-insert_at idx kv (take (at - 1) ks),
                    get_or-insert_at idx kv (take (at - 1) ks) j d,
                    get_or-take (at - 1) ks j d,
                    get_or-take (at - 1) ks (j - 1) d,
                    get_or-take at (insert_at idx kv ks) j d,
                    get_or-insert_at idx kv ks j d h,
                  ))
                  (λ j d p. ground (
                    arith,
                    s.one_more,
                    length-take (at - 1 + 1) cs,
                    length-spread idx pl pr (take (at - 1 + 1) cs),
                    get_or-spread idx pl pr (take (at - 1 + 1) cs) j d,
                    get_or-take (at - 1 + 1) cs j d,
                    get_or-take (at - 1 + 1) cs (j - 1) d,
                    get_or-take (at + 1) (spread idx pl pr cs) j d,
                    get_or-spread idx pl pr cs j d,
                  ));
            upper =
                Shows-same fork n (drop at ks) (drop (at + 1) (insert_at idx kv ks)) (drop at cs)
                  (drop (at + 1) (spread idx pl pr cs)) m
                  (omega (
                    arith,
                    length-drop at ks,
                    length-drop (at + 1) (insert_at idx kv ks),
                    length-insert_at idx kv ks,
                  ))
                  (omega (
                    arith,
                    s.one_more,
                    length-drop at cs,
                    length-drop (at + 1) (spread idx pl pr cs),
                    length-spread idx pl pr cs,
                  ))
                  (λ j d p. ground (
                    arith,
                    length-drop at ks,
                    get_or-drop at ks j d,
                    get_or-drop (at + 1) (insert_at idx kv ks) j d,
                    get_or-insert_at idx kv ks (at + 1 + j) d h,
                  ))
                  (λ j d p. ground (
                    arith,
                    s.one_more,
                    length-drop at cs,
                    get_or-drop at cs j d,
                    get_or-drop (at + 1) (spread idx pl pr cs) j d,
                    get_or-spread idx pl pr cs (at + 1 + j) d,
                  ));
            between = ground (
              arith,
              get_or-insert_at idx kv ks at (get_or node.pkv (at - 1) kv) h,
              get_or_any ks (at - 1) kv (get_or node.pkv (at - 1) kv),
              s.keys (at - 1) kv,
            );
          }))
