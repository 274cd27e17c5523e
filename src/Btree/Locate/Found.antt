-- ===== src/Btree/Locate/Found.antt =====
-- Where `tb_locate_key` of trunk/src/tl_btree2.c ends on a valid tree.
use common_tool.Base.{
  ℕ, suc, ◌+◌, ◌≤◌, ◌<◌, ◌≡◌, true, List, [], ◌++◌, some, get_or, take, ℤ, is_zero,
}
use common_tool.Rbtree.Ascending.{IsBelow, IsAbove, find}
use common_tool.Btree.{Sub, Way}
use common_tool.Btree.Contents.{before, after, contents, lefts, rights}
use common_tool.Btree.Invariant.{IsNode, IsWay, least}
use common_tool.Btree.Locate.{Location, located, missing, no_node}

module _ {K V : Type 0} (kc : K → K → ℤ) (fork : ℕ) (key : K) (whole : List (K × V)) where
  -- The entry with the key in its node; or the gap in a leaf where it would stand; or an empty tree.
  pub data Found : Location (K × V) → Type 0 where
    found_at :
        (h : ℕ) (node : Sub (K × V) (suc h)) (idx : ℕ) (p : Way (K × V) h)
        → IsNode fork h node
        → least fork h p ≤ node.cnt_used
        → IsWay fork h p
        → whole ≡ lefts h p ++ (contents (suc h) node ++ rights h p)
        → idx < node.cnt_used
        → ((d : K × V) → is_zero (kc key (get_or node.pkv idx d).0) ≡ true)
        → ((d : K × V) → find kc key whole ≡ some (get_or node.pkv idx d))
        → Found (located h node idx p)
    gap_found :
        (node : Sub (K × V) 1) (idx : ℕ) (p : Way (K × V) 0)
        → IsNode fork 0 node
        → least fork 0 p ≤ node.cnt_used
        → IsWay fork 0 p
        → idx ≤ node.cnt_used
        → (front back : List (K × V))
        → front
          ≡ lefts 0 p
            ++ before
                (contents 0)
                idx
                (take node.cnt_used node.pkv)
                (take (node.cnt_used + 1) node.pc)
        → back
          ≡ after (contents 0) idx (take node.cnt_used node.pkv) (take (node.cnt_used + 1) node.pc)
            ++ rights 0 p
        → whole ≡ front ++ back
        → IsBelow kc key front
        → IsAbove kc key back
        → Found (missing 0 node idx p)
    nothing : whole ≡ [] → Found no_node
