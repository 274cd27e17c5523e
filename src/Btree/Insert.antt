-- ===== src/Btree/Insert.antt =====
-- tl_btree_insert of trunk/src/tl_btree2.c, with `insert_1`, `insert_2` and `insert_3`.
pub mod Entry
pub mod Halves
pub mod Spread
pub mod SplitHere
pub mod SplitUpper
pub mod SplitLower
pub mod Split
pub mod Steps
pub mod NewRoot
pub mod Climb
pub mod Main
pub mod Update
pub mod Lost
use common_tool.Base.{
  ℕ, zero, suc, ◌+◌, ◌-◌, Bool, true, false, List, Option, none, some, ltb, ◌==◌, if◌then◌else◌,
  Run, ok, fault, ◌>>=◌, or_fault, ℤ,
}
use common_tool.Btree.{
  Node, Sub, Way, top, under, Tree, Root, minc, full, getkv, setkv, getchild, setchild, alloc_node,
  shift_right, plug,
}
use common_tool.Btree.Locate.{Location, located, missing, no_node, bsearch_node, locate_key}

module _ {ℓ κ} {A : Type ℓ} {C : Type κ} where
  -- `insert_2`, of the entry `kv` between the children `pl` and `pr`.
  pub insert_2 : Node A C → ℕ → A → Option C → Option C → Run (Node A C)
  insert_2 node idx kv pl pr = do
    node ← shift_right node idx 1 false
    node ← setkv node idx kv
    node ← setchild node idx pl
    node ← setchild node (idx + 1) pr
    ok (record node { cnt_used = node.cnt_used + 1 })

  -- The loop of `insert_3` that fills the new node, from `i` on, with `left` rounds to go.
  pub move_loop : ℕ → Node A C → Node A C → ℕ → ℕ → Run (Node A C)
  move_loop zero pnew node idx_split i = ok pnew
  move_loop (suc left) pnew node idx_split i = do
    kv ← getkv node (idx_split + i)
    pnew ← setkv pnew i kv
    c ← getchild node (idx_split + i)
    pnew ← setchild pnew i c
    move_loop left (record pnew { cnt_used = pnew.cnt_used + 1 }) node idx_split (i + 1)

  -- The entries from `idx_split` on and the children beside them moved to the new node.
  pub move : Node A C → Node A C → ℕ → Run (Node A C)
  move pnew node idx_split =
      let count = node.cnt_used - idx_split in
      let all : Run (Node A C) = do
        pnew ← move_loop count pnew node idx_split 0
        c ← getchild node (idx_split + count)
        setchild pnew count c
      in if ltb idx_split node.cnt_used then all else ok pnew

  -- `insert_3` behind the allocation: the entry for the parent, the node, and the new node.
  pub split : ℕ → Node A C → Node A C → ℕ → A → Option C → Option C → Run (A × Node A C × Node A C)
  split fork pnew node idx kv pl pr =
      let at = minc fork - 1 in
      let here : Run (A × Node A C × Node A C) = do
        pnew ← move pnew node at
        node ← setchild (record node { cnt_used = at }) at pl
        pnew ← setchild pnew 0 pr
        ok (kv, node, pnew)
      in let in_new : Run (A × Node A C × Node A C) = do
        sep ← getkv node at
        pnew ← move pnew node (at + 1)
        pnew ← insert_2 pnew (idx - (at + 1)) kv pl pr
        ok (sep, record node { cnt_used = at }, pnew)
        in let in_old : Run (A × Node A C × Node A C) = do
          sep ← getkv node (at - 1)
          pnew ← move pnew node at
          node ← insert_2 (record node { cnt_used = minc fork - 2 }) idx kv pl pr
          ok (sep, node, pnew)
          in if at == idx then here else if ltb at idx then in_new else in_old

  -- `insert_3`; without memory its assertion fails.
  pub insert_3 :
      Bool → A → ℕ → Node A C → ℕ → A → Option C → Option C → Run (A × Node A C × Node A C)
  insert_3 alloc_ok zeroes fork node idx kv pl pr =
      or_fault (alloc_node alloc_ok zeroes fork) >>= λ pnew. split fork pnew node idx kv pl pr

module _ {ℓ} {A : Type ℓ} where
  -- The end of `insert_1`: a root with one entry, or none, and whether 0 is returned. `h` is the height
  -- of the new root.
  pub new_root :
      Bool
      → A
      → ℕ
      → (h : ℕ) → A
      → Option (Sub A h)
      → Option (Sub A h)
      → Run (Option (Tree A) × Bool)
  new_root alloc_ok zeroes fork h kv pl pr =
      let made : Option (Node A (Sub A h)) = alloc_node alloc_ok zeroes fork in
      elim made [
        | none ↦ ok (none, false)
        | some node ↦ do
          node ← setkv node 0 kv
          node ← setchild node 0 pl
          node ← setchild node 1 pr
          ok (some (h, record node { cnt_used = node.cnt_used + 1 }), true)
      ]

module _ {ℓ κ} {K : Type ℓ} {V : Type κ} (kc : K → K → ℤ) (zeroes : K × V) (alloc : ℕ → Bool)
    (fork : ℕ) where
  -- The loop of `insert_1`, up from a node of the height `h`. `alloc` says for each height whether a
  -- node that is made there gets its memory.
  pub insert_loop :
      (h : ℕ)
      → Sub (K × V) (suc h)
      → Way (K × V) h
      → ℕ
      → K × V
      → Option (Sub (K × V) h)
      → Option (Sub (K × V) h)
      → Run (Option (Tree (K × V)) × Bool)
  insert_loop h node top idx kv pl pr =
      let fits : Run (Option (Tree (K × V)) × Bool) = do
        node ← insert_2 node idx kv pl pr
        ok (some (h, node), true)
      in let splits : Run (Option (Tree (K × V)) × Bool) = do
        (sep, node, pnew) ← insert_3 (alloc h) zeroes fork node idx kv pl pr
        new_root (alloc (suc h)) zeroes fork (suc h) sep (some node) (some pnew)
        in if full fork node then splits else fits
  insert_loop h node (under parent i p) idx kv pl pr =
      let fits : Run (Option (Tree (K × V)) × Bool) = do
        node ← insert_2 node idx kv pl pr
        t ← plug h node (under parent i p)
        ok (some t, true)
      in let splits : Run (Option (Tree (K × V)) × Bool) = do
        (sep, node, pnew) ← insert_3 (alloc h) zeroes fork node idx kv pl pr
        parent ← setchild parent i (some node)
        at ← bsearch_node kc parent sep.0
        insert_loop (suc h) parent p at sep (some node) (some pnew)
        in if full fork node then splits else fits

module _ {ℓ κ} {K : Type ℓ} {V : Type κ} where
  -- `insert_1`; the key is counted only if 0 is returned.
  pub finish : Root (K × V) → Option (Tree (K × V)) × Bool → Run (Root (K × V) × Bool)
  finish root (first, done) = ok (
    record root { first = first; cnt_key = if done then root.cnt_key + 1 else root.cnt_key },
    done,
  )

  pub insert_1 :
      (K → K → ℤ)
      → K × V
      → (ℕ → Bool)
      → Root (K × V)
      → K × V
      → Location (K × V)
      → Run (Root (K × V) × Bool)
  insert_1 kc zeroes alloc root kv no_node =
      new_root (alloc 0) zeroes root.m_fork 0 kv none none >>= finish root
  insert_1 kc zeroes alloc root kv (located h node idx p) =
      insert_loop kc zeroes alloc root.m_fork h node p idx kv none none >>= finish root
  insert_1 kc zeroes alloc root kv (missing h node idx p) =
      insert_loop kc zeroes alloc root.m_fork h node p idx kv none none >>= finish root

  -- tl_btree_insert on a key that the tree has: the value is exchanged, or nothing is done.
  pub update :
      Root (K × V)
      → (h : ℕ) → Sub (K × V) (suc h)
      → ℕ
      → Way (K × V) h
      → K × V
      → Run (Root (K × V) × (K × V) × Bool)
  update root h node idx p kv = do
    e ← getkv node idx
    node ← setkv node idx (e.0, kv.1)
    t ← plug h node p
    ok (record root { first = some t }, (kv.0, e.1), true)

  -- tl_btree_insert behind `tb_locate_key`.
  pub insert_at :
      (K → K → ℤ)
      → K × V
      → (ℕ → Bool)
      → Root (K × V)
      → K × V
      → Bool
      → Location (K × V)
      → Run (Root (K × V) × (K × V) × Bool)
  insert_at kc zeroes alloc root kv b_update (located h node idx p) =
      let exchange = update root h node idx p kv in
      if b_update then exchange else ok (root, kv, false)
  insert_at kc zeroes alloc root kv b_update (missing h node idx p) =
      insert_1 kc zeroes alloc root kv (missing h node idx p) >>= λ (r, done). ok (r, kv, done)
  insert_at kc zeroes alloc root kv b_update no_node =
      insert_1 kc zeroes alloc root kv no_node >>= λ (r, done). ok (r, kv, done)

  -- tl_btree_insert: the tree, `*pkv` afterwards, and whether 0 is returned.
  pub insert :
      (K → K → ℤ)
      → K × V
      → (ℕ → Bool)
      → Root (K × V)
      → K × V
      → Bool
      → Run (Root (K × V) × (K × V) × Bool)
  insert kc zeroes alloc root kv b_update =
      locate_key kc root kv.0 >>= insert_at kc zeroes alloc root kv b_update
