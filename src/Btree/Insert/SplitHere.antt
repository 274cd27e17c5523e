-- ===== src/Btree/Insert/SplitHere.antt =====
-- insert_3 of trunk/src/tl_btree2.c where the entry goes up.
use common_tool.Base.{
  ℕ, ◌+◌, ◌≤◌, ◌<◌, ◌≡◌, ◌∙◌, List, Option, arith, length, length-set, length-take, length-drop,
  get_or-set, get_or-take, store-ok, ok, ◌>>=◌, Returns, returns, Returns-bind,
}
use common_tool.Btree.{Node, setchild}
use common_tool.Btree.Insert.{move}
use common_tool.Btree.Insert.Halves.{move-Shows}
use common_tool.Btree.Arrays.{insert_at, length-insert_at, get_or-insert_at, get_or-drop}
use common_tool.Btree.Shows.{Shows, spread}
use common_tool.Btree.Insert.Spread.{get_or-spread, length-spread, Halves}

module _ {A : Type 0} {C : Type 0} (fork : ℕ) (pnew node : Node A C) (ks : List A)
    (cs : List (Option C)) (idx : ℕ) (kv : A) (pl pr : Option C) (s : Shows fork node ks cs)
    (is_full : length ks ≡ fork) (big : 1 ≤ fork) (h : idx ≤ length ks) (a : length pnew.pkv ≡ fork)
    (b : length pnew.pc ≡ fork + 1) (z : pnew.cnt_used ≡ 0) where
  pub split-here :
      (at : ℕ)
      → at ≡ idx
      → at < length ks
      → Returns
          (λ (sep, n, n'). Halves fork at (insert_at idx kv ks) (spread idx pl pr cs) sep n n')
          (move pnew node at >>= λ pnew. setchild (record node { cnt_used = at }) at pl >>= λ node.
            setchild pnew 0 pr >>= λ pnew. ok (kv, node, pnew))
  split-here at e k = Returns-bind (move-Shows kv fork pnew node ks cs at s a b z k) λ n m.
      rw
        (
          store-ok node.pc at pl (omega (arith, s.room_kids)),
          store-ok n.pc 0 pr (omega (arith, m.room_kids)),
        )
        (returns (record {
          lower = record {
            room_keys = s.room_keys;
            room_kids = length-set node.pc at pl ∙ s.room_kids;
            used = omega (arith, length-take at (insert_at idx kv ks), length-insert_at idx kv ks);
            one_more = omega (
              arith,
              length-take at (insert_at idx kv ks),
              length-insert_at idx kv ks,
              length-take (at + 1) (spread idx pl pr cs),
              length-spread idx pl pr cs,
              s.one_more,
            );
            fits = omega (arith, length-take at (insert_at idx kv ks), length-insert_at idx kv ks);
            keys = λ j d p. ground (
              arith,
              length-take at (insert_at idx kv ks),
              s.keys j d,
              get_or-take at (insert_at idx kv ks) j d,
              get_or-insert_at idx kv ks j d h,
            );
            kids = λ j d p. ground (
              arith,
              length-take (at + 1) (spread idx pl pr cs),
              s.one_more,
              s.room_kids,
              s.kids j d,
              get_or-set node.pc at j pl d,
              get_or-take (at + 1) (spread idx pl pr cs) j d,
              get_or-spread idx pl pr cs j d,
            );
          };
          upper = record {
            room_keys = m.room_keys;
            room_kids = length-set n.pc 0 pr ∙ m.room_kids;
            used = omega (
              arith,
              m.used,
              length-drop at ks,
              length-drop (at + 1) (insert_at idx kv ks),
              length-insert_at idx kv ks,
            );
            one_more = omega (
              arith,
              length-drop (at + 1) (insert_at idx kv ks),
              length-insert_at idx kv ks,
              length-drop (at + 1) (spread idx pl pr cs),
              length-spread idx pl pr cs,
              s.one_more,
            );
            fits =
                omega
                  (arith, length-drop (at + 1) (insert_at idx kv ks), length-insert_at idx kv ks);
            keys = λ j d p. ground (
              arith,
              length-drop (at + 1) (insert_at idx kv ks),
              length-insert_at idx kv ks,
              length-drop at ks,
              m.keys j d,
              get_or-drop at ks j d,
              get_or-drop (at + 1) (insert_at idx kv ks) j d,
              get_or-insert_at idx kv ks (at + 1 + j) d h,
            );
            kids = λ j d p. ground (
              arith,
              length-drop (at + 1) (spread idx pl pr cs),
              length-spread idx pl pr cs,
              length-drop at cs,
              s.one_more,
              m.room_kids,
              m.kids j d,
              get_or-set n.pc 0 j pr d,
              get_or-drop at cs j d,
              get_or-drop (at + 1) (spread idx pl pr cs) j d,
              get_or-spread idx pl pr cs (at + 1 + j) d,
            );
          };
          between = ground (arith, get_or-insert_at idx kv ks at kv h);
        }))
