-- ===== src/Btree/Insert/Lost.antt =====
-- tl_btree_insert of trunk/src/tl_btree2.c where the new root is not found.
use common_tool.Base.{
  ℕ, ◌≤◌, ◌≡◌, refl, Bool, true, false, none, arith, ℤ, IsOrder, ok, Returns-inv,
}
use common_tool.Rbtree.Ascending.{find}
use common_tool.Btree.{Sub, top, full, alloc_node}
use common_tool.Btree.Contents.{contents}
use common_tool.Btree.Invariant.{IsBtree, IsNode}
use common_tool.Btree.Locate.Single.{single, leaf_search}
use common_tool.Btree.Insert.{insert_1, insert_at, insert, insert_loop, new_root, finish}
use common_tool.Btree.Insert.Steps.{insert_3-Parted}

module _ {K V : Type 0} (kc : K → K → ℤ) (ord : IsOrder kc) (zeroes : K × V) (alloc : ℕ → Bool)
    (fork cnt : ℕ) (leaf : Sub (K × V) 1) where
  leaf_loop :
      (idx : ℕ) (kv : K × V)
      → IsNode fork 0 leaf
      → 1 ≤ fork
      → leaf.cnt_used ≡ fork
      → idx ≤ leaf.cnt_used
      → alloc 0 ≡ true
      → alloc 1 ≡ false
      → insert_loop kc zeroes alloc fork 0 leaf top idx kv none none ≡ ok (none, false)
  unfolding insert_loop new_root alloc_node
  leaf_loop idx kv n big is_full k memory no_memory =
      let full_here : full fork leaf ≡ true = ground arith in
      let parted =
        Returns-inv (insert_3-Parted fork 0 leaf idx kv none none n k tt tt zeroes is_full big) in
      rw (full_here, memory, parted.1, no_memory) refl

  -- On a valid tree of one full node that lacks the key, where the new node is found but not the new
  -- root, tl_btree_insert returns -1 and leaves an empty tree with the old count.
  pub insert-lost :
      (kv : K × V) (b_update : Bool)
      → IsBtree kc (single fork cnt leaf)
      → leaf.cnt_used ≡ fork
      → find kc kv.0 (contents 1 leaf) ≡ none
      → alloc 0 ≡ true
      → alloc 1 ≡ false
      → insert kc zeroes alloc (single fork cnt leaf) kv b_update
        ≡ ok (record { m_fork = fork; first = none; cnt_key = cnt }, kv, false)
  unfolding insert insert_at insert_1 finish
  insert-lost kv b_update v is_full new memory no_memory =
      let at = Returns-inv (leaf_search kc ord fork cnt leaf kv.0 v new) in
      rw
        (
          at.1,
          at.2.same,
          leaf_loop at.2.place kv v.shape.1 v.positive is_full at.2.within memory no_memory,
        )
        refl
