-- ===== src/Btree/Insert/Entry.antt =====
-- insert_2 of trunk/src/tl_btree2.c on the lists of the keys and children of a node.
use common_tool.Base.{
  ℕ, ◌+◌, ◌-◌, ◌≤◌, ◌<◌, ◌∙◌, List, Option, arith, length, set, length-set, get_or-set, store-ok,
  Returns, returns, Returns-bind,
}
use common_tool.Btree.{Node}
use common_tool.Btree.Insert.{insert_2}
use common_tool.Btree.Arrays.{insert_at, length-insert_at, get_or-insert_at, shift_right-Opened}
use common_tool.Btree.Shows.{Shows, spread}

module _ {A : Type 0} {C : Type 0} where
  pub insert_2-Shows :
      (fork : ℕ) (node : Node A C) (ks : List A) (cs : List (Option C)) (idx : ℕ) (kv : A)
      (pl pr : Option C)
      → Shows fork node ks cs
      → idx ≤ length ks
      → length ks < fork
      → Returns
          (λ node'. Shows fork node' (insert_at idx kv ks) (spread idx pl pr cs))
          (insert_2 node idx kv pl pr)
  unfolding insert_2
  insert_2-Shows fork node ks cs idx kv pl pr s h k =
      Returns-bind
        (shift_right-Opened kv node idx (omega (arith, s.used)) (omega (arith, s.used, s.room_keys))
          (omega (arith, s.room_keys, s.room_kids)))
        λ n o.
          rw
            (
              store-ok n.pkv idx kv (omega (arith, o.keys, s.room_keys)),
              store-ok n.pc idx pl (omega (arith, o.kids, s.room_kids)),
              store-ok (set n.pc idx pl) (idx + 1) pr
                  (omega (arith, length-set n.pc idx pl, o.kids, s.room_kids)),
            )
            (returns (record {
              room_keys = length-set n.pkv idx kv ∙ o.keys ∙ s.room_keys;
              room_kids =
                  length-set (set n.pc idx pl) (idx + 1) pr
                  ∙ length-set n.pc idx pl
                  ∙ o.kids
                  ∙ s.room_kids;
              used = omega (arith, o.used, s.used, length-insert_at idx kv ks);
              one_more = omega (
                arith,
                s.one_more,
                length-insert_at idx kv ks,
                length-insert_at (idx + 1) pr (set cs idx pl),
                length-set cs idx pl,
              );
              fits = omega (arith, length-insert_at idx kv ks);
              keys = λ j d p. ground (
                arith,
                get_or-set n.pkv idx j kv d,
                o.open_keys j d,
                o.keys,
                s.room_keys,
                s.used,
                s.keys j d,
                s.keys (j - 1) d,
                length-insert_at idx kv ks,
                get_or-insert_at idx kv ks j d h,
              );
              kids = λ j d p. ground (
                arith,
                get_or-set (set n.pc idx pl) (idx + 1) j pr d,
                length-set n.pc idx pl,
                get_or-set n.pc idx j pl d,
                o.open_kids j d,
                o.kids,
                s.room_kids,
                s.used,
                s.one_more,
                s.fits,
                s.kids j d,
                s.kids (j - 1) d,
                length-set cs idx pl,
                length-insert_at (idx + 1) pr (set cs idx pl),
                get_or-insert_at (idx + 1) pr (set cs idx pl) j d,
                get_or-set cs idx j pl d,
                get_or-set cs idx (j - 1) pl d,
              );
            }))
