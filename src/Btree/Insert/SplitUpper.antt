-- ===== src/Btree/Insert/SplitUpper.antt =====
-- insert_3 of trunk/src/tl_btree2.c where the entry goes to the new node.
use common_tool.Base.{
  ℕ, ◌+◌, ◌-◌, ◌≤◌, ◌<◌, ◌≡◌, List, [], ◌∷◌, Option, none, arith, ltb, length, get_or, take, drop,
  length-take, length-drop, get_or-take, get_or_any, load-ok, ok, ◌>>=◌, Returns, returns,
  Returns-bind, Returns-map, Bool-cases, inl, inr,
}
use common_tool.Btree.{Node, getkv}
use common_tool.Btree.Insert.{insert_2, move}
use common_tool.Btree.Insert.Entry.{insert_2-Shows}
use common_tool.Btree.Insert.Halves.{move-Shows}
use common_tool.Btree.Arrays.{insert_at, length-insert_at, get_or-insert_at, get_or-drop}
use common_tool.Btree.Shows.{Shows, spread}
use common_tool.Btree.Insert.Spread.{
  get_or-spread, length-spread, Shows-same, Shows-take, Halves, Tail, move-nothing,
}

module _ {A : Type 0} {C : Type 0} (fork : ℕ) (pnew node : Node A C) (ks : List A)
    (cs : List (Option C)) (idx : ℕ) (kv : A) (pl pr : Option C) (s : Shows fork node ks cs)
    (is_full : length ks ≡ fork) (big : 1 ≤ fork) (h : idx ≤ length ks) (a : length pnew.pkv ≡ fork)
    (b : length pnew.pc ≡ fork + 1) (z : pnew.cnt_used ≡ 0) where
  pub move-Tail :
      (at : ℕ) → at ≤ length ks → Returns (λ n. Tail fork at ks cs n) (move pnew node at)
  move-Tail at k = elim (Bool-cases (ltb at (length ks))) [
    | inl more ↦
        Returns-map (move-Shows kv fork pnew node ks cs at s a b z (ground arith)) λ n m. record {
          first_kids = drop at cs;
          shown = m;
          same = λ j d p. get_or-drop at cs j d;
        }
    | inr no_more ↦
        let ends : at ≡ length ks = ground arith in
        rw (move-nothing pnew node at (ground (arith, s.used))) (
          returns (record {
            first_kids = get_or pnew.pc 0 none ∷ [];
            shown = record {
              room_keys = a;
              room_kids = b;
              used = omega (arith, z, length-drop at ks, ends);
              one_more = omega (arith, length-drop at ks, ends);
              fits = omega (arith, length-drop at ks, ends);
              keys = λ j d p. absurd (omega (arith, length-drop at ks, ends));
              kids = λ j d p. ground (arith, get_or_any pnew.pc 0 none d);
            };
            same = λ j d p. absurd (omega (arith, ends));
          }))
  ]

  pub split-in_new :
      (at : ℕ)
      → at < idx
      → Returns
          (λ (sep, n, n'). Halves fork at (insert_at idx kv ks) (spread idx pl pr cs) sep n n')
          (getkv node at >>= λ sep. move pnew node (at + 1) >>= λ pnew.
            insert_2 pnew (idx - (at + 1)) kv pl pr >>= λ pnew.
            ok (sep, record node { cnt_used = at }, pnew))
  split-in_new at k =
      let i = idx - (at + 1) in
      rw (load-ok node.pkv at kv (omega (arith, s.room_keys))) (
        Returns-bind (move-Tail (at + 1) (omega arith)) λ n m.
          Returns-bind
            (insert_2-Shows fork n (drop (at + 1) ks) m.first_kids i kv pl pr m.shown
              (omega (arith, length-drop (at + 1) ks)) (omega (arith, length-drop (at + 1) ks)))
            λ n' m'. returns (record {
              lower =
                  Shows-same fork (record node { cnt_used = at }) (take at ks)
                    (take at (insert_at idx kv ks)) (take (at + 1) cs)
                    (take (at + 1) (spread idx pl pr cs))
                    (Shows-take fork at node ks cs s (omega arith))
                    (omega (
                      arith,
                      length-take at ks,
                      length-take at (insert_at idx kv ks),
                      length-insert_at idx kv ks,
                    ))
                    (omega (
                      arith,
                      s.one_more,
                      length-take (at + 1) cs,
                      length-take (at + 1) (spread idx pl pr cs),
                      length-spread idx pl pr cs,
                    ))
                    (λ j d p. ground (
                      arith,
                      length-take at ks,
                      get_or-take at ks j d,
                      get_or-take at (insert_at idx kv ks) j d,
                      get_or-insert_at idx kv ks j d h,
                    ))
                    (λ j d p. ground (
                      arith,
                      s.one_more,
                      length-take (at + 1) cs,
                      get_or-take (at + 1) cs j d,
                      get_or-take (at + 1) (spread idx pl pr cs) j d,
                      get_or-spread idx pl pr cs j d,
                    ));
              upper =
                  Shows-same fork n' (insert_at i kv (drop (at + 1) ks))
                    (drop (at + 1) (insert_at idx kv ks)) (spread i pl pr m.first_kids)
                    (drop (at + 1) (spread idx pl pr cs)) m'
                    (omega (
                      arith,
                      length-drop (at + 1) ks,
                      length-insert_at i kv (drop (at + 1) ks),
                      length-drop (at + 1) (insert_at idx kv ks),
                      length-insert_at idx kv ks,
                    ))
                    (omega (
                      arith,
                      s.one_more,
                      m.shown.one_more,
                      length-drop (at + 1) ks,
                      length-spread i pl pr m.first_kids,
                      length-drop (at + 1) (spread idx pl pr cs),
                      length-spread idx pl pr cs,
                    ))
                    (λ j d p. ground (
                      arith,
                      length-drop (at + 1) ks,
                      length-insert_at i kv (drop (at + 1) ks),
                      get_or-insert_at i kv (drop (at + 1) ks) j d,
                      get_or-drop (at + 1) ks j d,
                      get_or-drop (at + 1) ks (j - 1) d,
                      get_or-drop (at + 1) (insert_at idx kv ks) j d,
                      get_or-insert_at idx kv ks (at + 1 + j) d h,
                    ))
                    (λ j d p. ground (
                      arith,
                      s.one_more,
                      m.shown.one_more,
                      length-drop (at + 1) ks,
                      length-spread i pl pr m.first_kids,
                      get_or-spread i pl pr m.first_kids j d,
                      m.same j d,
                      m.same (j - 1) d,
                      get_or-drop (at + 1) (spread idx pl pr cs) j d,
                      get_or-spread idx pl pr cs (at + 1 + j) d,
                    ));
              between = ground (
                arith,
                get_or-insert_at idx kv ks at (get_or node.pkv at kv) h,
                get_or_any ks at kv (get_or node.pkv at kv),
                s.keys at kv,
              );
            }))
