-- ===== src/Btree/Insert/Halves.antt =====
-- The loop of insert_3 of trunk/src/tl_btree2.c that moves the upper entries to the new node.
use common_tool.Base.{
  ℕ, zero, suc, ◌+◌, ◌-◌, ◌*◌, ◌≤◌, ◌<◌, ◌≡◌, refl, ◌∙◌, true, ◌&&◌, List, Option, none, arith, ltb,
  leb, if◌then◌else◌, length, get_or, set, drop, length-set, length-drop, get_or-set, get_or_any,
  load-ok, store-ok, Returns, returns, Returns-bind, Returns-map,
}
use common_tool.Btree.{Node, minc}
use common_tool.Btree.Insert.{move_loop, move}
use common_tool.Btree.Arrays.{get_or-drop}
use common_tool.Btree.Shows.{Shows}

-- The place of the split: inside a node that is full.
pub record IsMiddle (fork : ℕ) : Type 0 where
  pub positive : 1 ≤ minc fork
  pub inside : minc fork ≤ fork
  pub lower : fork + 1 ≤ 2 * minc fork
  pub upper : 2 * minc fork ≤ fork + 2

pub minc-IsMiddle : (fork : ℕ) → 1 ≤ fork → IsMiddle fork
minc-IsMiddle fork h = record {
  positive = ground arith;
  inside = ground arith;
  lower = ground arith;
  upper = ground arith;
}

-- What the loop leaves in the new node: entries of the old one from `at + i` on.
pub record Filled {A : Type 0} {C : Type 0} (node pnew pnew' : Node A C) (at i left : ℕ)
    : Type 0 where
  pub used : pnew'.cnt_used ≡ pnew.cnt_used + left
  pub room_keys : length pnew'.pkv ≡ length pnew.pkv
  pub room_kids : length pnew'.pc ≡ length pnew.pc
  pub keys :
      (j : ℕ) (d : A)
      → get_or pnew'.pkv j d
        ≡ (if leb i j && ltb j (i + left) then get_or node.pkv (at + j) d else get_or pnew.pkv j d)
  pub kids :
      (j : ℕ) (d : Option C)
      → get_or pnew'.pc j d
        ≡ (if leb i j && ltb j (i + left) then get_or node.pc (at + j) d else get_or pnew.pc j d)

module _ {A : Type 0} {C : Type 0} (d : A) where
  move_loop-Filled :
      (left : ℕ) (pnew node : Node A C) (at i : ℕ)
      → i + left ≤ length pnew.pkv
      → i + left ≤ length pnew.pc
      → at + i + left ≤ length node.pkv
      → at + i + left ≤ length node.pc
      → Returns (λ pnew'. Filled node pnew pnew' at i left) (move_loop left pnew node at i)
  unfolding move_loop
  move_loop-Filled zero pnew node at i a b c e = returns (record {
    used = omega arith;
    room_keys = refl;
    room_kids = refl;
    keys = λ j d. ground arith;
    kids = λ j d. ground arith;
  })
  move_loop-Filled (suc left) pnew node at i a b c e =
      let kv = get_or node.pkv (at + i) d in
      let ch = get_or node.pc (at + i) none in
      let next : Node A C = record {
        cnt_used = pnew.cnt_used + 1;
        pkv = set pnew.pkv i kv;
        pc = set pnew.pc i ch;
      } in
      rw
        (
          load-ok node.pkv (at + i) d (omega arith),
          store-ok pnew.pkv i kv (omega arith),
          load-ok node.pc (at + i) none (omega arith),
          store-ok pnew.pc i ch (omega arith),
        )
        (Returns-map
          (move_loop-Filled left next node at (i + 1) (omega (arith, length-set pnew.pkv i kv))
            (omega (arith, length-set pnew.pc i ch)) (omega arith) (omega arith))
          λ pnew' r. record {
            used = omega (arith, r.used);
            room_keys = r.room_keys ∙ length-set pnew.pkv i kv;
            room_kids = r.room_kids ∙ length-set pnew.pc i ch;
            keys = λ j d'. ground (
              arith,
              r.keys j d',
              get_or-set pnew.pkv i j kv d',
              get_or_any node.pkv (at + i) d d',
            );
            kids = λ j d'. ground (
              arith,
              r.kids j d',
              get_or-set pnew.pc i j ch d',
              get_or_any node.pc (at + i) none d',
            );
          })

  -- The new node has the entries from the place of the split on.
  pub move-Shows :
      (fork : ℕ) (pnew node : Node A C) (ks : List A) (cs : List (Option C)) (at : ℕ)
      → Shows fork node ks cs
      → length pnew.pkv ≡ fork
      → length pnew.pc ≡ fork + 1
      → pnew.cnt_used ≡ 0
      → at < length ks
      → Returns (λ pnew'. Shows fork pnew' (drop at ks) (drop at cs)) (move pnew node at)
  unfolding move
  move-Shows fork pnew node ks cs at s a b z h =
      let count = node.cnt_used - at in
      let inside : ltb at node.cnt_used ≡ true = ground (arith, s.used) in
      rw inside (
        Returns-bind
          (move_loop-Filled count pnew node at 0 (omega (arith, s.used, s.fits))
            (omega (arith, s.used, s.fits)) (omega (arith, s.used, s.fits, s.room_keys))
            (omega (arith, s.used, s.fits, s.room_kids)))
          λ n r.
            let c = get_or node.pc (at + count) none in
            rw
              (
                load-ok node.pc (at + count) none (omega (arith, s.used, s.fits, s.room_kids)),
                store-ok n.pc count c (omega (arith, r.room_kids, s.used, s.fits)),
              )
              (returns (record {
                room_keys = r.room_keys ∙ a;
                room_kids = length-set n.pc count c ∙ r.room_kids ∙ b;
                used = omega (arith, r.used, s.used, length-drop at ks);
                one_more = omega (arith, s.one_more, length-drop at ks, length-drop at cs);
                fits = omega (arith, s.fits, length-drop at ks);
                keys = λ j d' p. ground (
                  arith,
                  r.keys j d',
                  s.used,
                  s.keys (at + j) d',
                  get_or-drop at ks j d',
                  length-drop at ks,
                );
                kids = λ j d' p. ground (
                  arith,
                  get_or-set n.pc count j c d',
                  get_or_any node.pc (at + count) none d',
                  r.room_kids,
                  s.room_kids,
                  s.fits,
                  s.one_more,
                  r.kids j d',
                  s.used,
                  s.kids (at + j) d',
                  get_or-drop at cs j d',
                  length-drop at cs,
                );
              })))
