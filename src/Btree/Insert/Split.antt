-- ===== src/Btree/Insert/Split.antt =====
-- insert_3 of trunk/src/tl_btree2.c on the lists of a full node.
use common_tool.Base.{
  ℕ, ◌+◌, ◌-◌, ◌≤◌, ◌<◌, ◌≡◌, List, Option, arith, ltb, ◌==◌, length, Returns, Returns-if,
}
use common_tool.Btree.{Node, minc}
use common_tool.Btree.Insert.{split}
use common_tool.Btree.Insert.Halves.{minc-IsMiddle}
use common_tool.Btree.Arrays.{insert_at}
use common_tool.Btree.Shows.{Shows, spread}
use common_tool.Btree.Insert.Spread.{Halves}
use common_tool.Btree.Insert.SplitHere.{split-here}
use common_tool.Btree.Insert.SplitUpper.{split-in_new}
use common_tool.Btree.Insert.SplitLower.{split-in_old}

module _ {A : Type 0} {C : Type 0} (fork : ℕ) (pnew node : Node A C) (ks : List A)
    (cs : List (Option C)) (idx : ℕ) (kv : A) (pl pr : Option C) (s : Shows fork node ks cs)
    (is_full : length ks ≡ fork) (big : 1 ≤ fork) (h : idx ≤ length ks) (a : length pnew.pkv ≡ fork)
    (b : length pnew.pc ≡ fork + 1) (z : pnew.cnt_used ≡ 0) where
  pub split-Halves :
      Returns
        (λ (sep, n, n').
          Halves fork (minc fork - 1) (insert_at idx kv ks) (spread idx pl pr cs) sep n n')
        (split fork pnew node idx kv pl pr)
  unfolding split
  split-Halves =
      let at = minc fork - 1 in
      let mid = minc-IsMiddle fork big in
      let within : at < length ks = omega (arith, mid.positive, mid.inside) in
      let less : minc fork - 2 ≡ at - 1 = omega arith in
      Returns-if (at == idx)
        (λ e.
          split-here fork pnew node ks cs idx kv pl pr s is_full big h a b z at (ground arith)
            within)
        (λ e.
          Returns-if (ltb at idx)
            (λ above.
              split-in_new fork pnew node ks cs idx kv pl pr s is_full big h a b z at
                (ground arith))
            (λ below. rw less (
              split-in_old fork pnew node ks cs idx kv pl pr s is_full big h a b z at (ground arith)
                within)))
