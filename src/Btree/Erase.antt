-- ===== src/Btree/Erase.antt =====
-- tl_btree_erase of trunk/src/tl_btree2.c, with `erase_1` to `erase_4`.
pub mod Descend
use common_tool.Base.{
  ℕ, zero, suc, ◌+◌, ◌-◌, Bool, true, false, not, Option, none, some, ltb, leb, ◌==◌, if◌then◌else◌,
  Run, ok, fault, ◌>>=◌, or_fault, require, ℤ,
}
use common_tool.Btree.{
  Node, Sub, Way, top, under, Tree, Root, minc, getkv, setkv, getchild, setchild, shift_left,
  shift_right, plug,
}
use common_tool.Btree.Locate.{Location, located, missing, no_node, bsearch_node, locate_key}

module _ {ℓ κ μ} {K : Type ℓ} {V : Type κ} {C : Type μ} (kc : K → K → ℤ) where
  -- `erase_3` from the left brother: the parent, the node and the brother.
  pub borrow_left :
      Node (K × V) (Node (K × V) C)
      → Node (K × V) C
      → Node (K × V) C
      → Run (Node (K × V) (Node (K × V) C) × Node (K × V) C × Node (K × V) C)
  borrow_left parent node pbro = do
    last ← getkv pbro (pbro.cnt_used - 1)
    idx ← bsearch_node kc parent last.0
    let shifted = shift_right node 0 1 false
    node ← require (not (parent.cnt_used == idx)) shifted
    let first : Run (Node (K × V) C) = getchild node 0 >>= λ c. setchild node 1 c
    node ← if node.cnt_used == 0 then first else ok node
    sep ← getkv parent idx
    node ← setkv node 0 sep
    c ← getchild pbro pbro.cnt_used
    node ← setchild node 0 c
    parent ← setkv parent idx last
    ok (
      parent,
      record node { cnt_used = node.cnt_used + 1 },
      record pbro { cnt_used = pbro.cnt_used - 1 },
    )

  -- `erase_3` from the right brother.
  pub borrow_right :
      Node (K × V) (Node (K × V) C)
      → Node (K × V) C
      → Node (K × V) C
      → Run (Node (K × V) (Node (K × V) C) × Node (K × V) C × Node (K × V) C)
  borrow_right parent node pbro = do
    first ← getkv pbro 0
    place ← bsearch_node kc parent first.0
    idx ← require (ltb 0 place) (ok (place - 1))
    sep ← getkv parent idx
    node ← setkv node node.cnt_used sep
    c ← getchild pbro 0
    node ← setchild node (node.cnt_used + 1) c
    parent ← setkv parent idx first
    pbro ← shift_left pbro 1 1
    ok (
      parent,
      record node { cnt_used = node.cnt_used + 1 },
      record pbro { cnt_used = pbro.cnt_used - 1 },
    )

module _ {ℓ κ} {A : Type ℓ} {C : Type κ} where
  -- The loop of `erase_4` for a left brother, over the entries of `node` from `i` on.
  pub append_loop : ℕ → Node A C → Node A C → ℕ → Run (Node A C)
  append_loop zero pbro node i = ok pbro
  append_loop (suc left) pbro node i = do
    kv ← getkv node i
    pbro ← setkv pbro pbro.cnt_used kv
    c ← getchild node i
    pbro ← setchild pbro pbro.cnt_used c
    append_loop left (record pbro { cnt_used = pbro.cnt_used + 1 }) node (i + 1)

  -- The loop of `erase_4` for a right brother.
  pub prepend_loop : ℕ → Node A C → Node A C → ℕ → Run (Node A C)
  prepend_loop zero pbro node i = ok pbro
  prepend_loop (suc left) pbro node i = do
    kv ← getkv node i
    pbro ← setkv pbro i kv
    c ← getchild node i
    pbro ← setchild pbro i c
    prepend_loop left (record pbro { cnt_used = pbro.cnt_used + 1 }) node (i + 1)

  -- `erase_4` into the left brother, where `idx` is the node's place: the parent and the brother.
  pub merge_left : Node A (Node A C) → Node A C → Node A C → ℕ → Run (Node A (Node A C) × Node A C)
  merge_left parent node pbro idx = do
    sep ← getkv parent (idx - 1)
    pbro ← setkv pbro pbro.cnt_used sep
    pbro ← append_loop node.cnt_used (record pbro { cnt_used = pbro.cnt_used + 1 }) node 0
    c ← getchild node node.cnt_used
    pbro ← setchild pbro pbro.cnt_used c
    parent ← shift_left parent idx 1
    parent ← setchild parent (idx - 1) (some pbro)
    ok (record parent { cnt_used = parent.cnt_used - 1 }, pbro)

  -- `erase_4` into the right brother.
  pub merge_right : Node A (Node A C) → Node A C → Node A C → ℕ → Run (Node A (Node A C) × Node A C)
  merge_right parent node pbro idx = do
    sep ← getkv parent idx
    node ← setkv node node.cnt_used sep
    let count = node.cnt_used + 1
    pbro ← shift_right pbro 0 count false
    pbro ← prepend_loop count pbro node 0
    parent ← shift_left parent (idx + 1) 1
    parent ← setchild parent idx (some pbro)
    ok (record parent { cnt_used = parent.cnt_used - 1 }, pbro)

module _ {ℓ} {A : Type ℓ} where
  -- `erase_2` at the root; `b_first` says that it is the node it began with.
  pub settle_root : (h : ℕ) → Sub A (suc h) → Bool → Run (Option (Tree A))
  settle_root zero node b_first =
      let empty : Run (Option (Tree A)) =
        if b_first
        then ok none
        else getchild node 0 >>= λ c. elim c [ none ↦ fault | some child ↦ elim child [ ] ] in
      if node.cnt_used == 0 then empty else ok (some (zero, node))
  settle_root (suc h) node b_first =
      let only : Run (Option (Tree A)) =
        getchild node 0 >>= or_fault >>= λ child. ok (some (h, child)) in
      let empty : Run (Option (Tree A)) = if b_first then ok none else only in
      if node.cnt_used == 0 then empty else ok (some (suc h, node))

  -- A brother: `pl` and `pr`, or NULL at an end.
  pub brother : {C : Type ℓ} → Bool → Node A C → ℕ → Run (Option C)
  brother at_end parent idx = if at_end then ok none else getchild parent idx

  -- Whether a brother has `n` entries, or more.
  abbrev pub has : {C : Type ℓ} → (ℕ → Bool) → Option (Node A C) → Bool
  has test none = false
  has test (some b) = test b.cnt_used

module _ {ℓ κ} {K : Type ℓ} {V : Type κ} (kc : K → K → ℤ) (fork : ℕ) where
  -- The loop of `erase_2`, up from a node of the height `h`.
  pub erase_2 : (h : ℕ) → Sub (K × V) (suc h) → Way (K × V) h → Bool → Run (Option (Tree (K × V)))
  erase_2 h node top b_first =
      let root = settle_root h node b_first in
      if leb (minc fork - 1) node.cnt_used then ok (some (h, node)) else root
  erase_2 h node (under parent idx p) b_first =
      let mink = minc fork - 1 in
      let stop : Run (Option (Tree (K × V))) =
        plug h node (under parent idx p) >>= λ t. ok (some t) in
      let short : Run (Option (Tree (K × V))) = do
        pl ← brother (idx == 0) parent (idx - 1)
        pr ← brother (idx == parent.cnt_used) parent (idx + 1)
        let from_right : Run (Option (Tree (K × V))) = do
          right ← or_fault pr
          (parent, node, right) ← borrow_right kc parent node right
          parent ← setchild parent (idx + 1) (some right)
          t ← plug h node (under parent idx p)
          ok (some t)
        let from_left : Run (Option (Tree (K × V))) = do
          left ← or_fault pl
          (parent, node, left) ← borrow_left kc parent node left
          parent ← setchild parent (idx - 1) (some left)
          t ← plug h node (under parent idx p)
          ok (some t)
        let into_right : Run (Option (Tree (K × V))) = do
          right ← or_fault pr
          (parent, right) ← merge_right parent node right idx
          erase_2 (suc h) parent p false
        let into_left : Run (Option (Tree (K × V))) = do
          left ← or_fault pl
          (parent, left) ← merge_left parent node left idx
          erase_2 (suc h) parent p false
        let merge : Run (Option (Tree (K × V))) =
            if has (λ n. n == mink) pr
            then into_right
            else if has (λ n. n == mink) pl
            then into_left
            else fault
        let mend : Run (Option (Tree (K × V))) =
            if has (λ n. ltb mink n) pr
            then from_right
            else if has (λ n. ltb mink n) pl
            then from_left
            else merge
        require (node.cnt_used + 1 == mink) mend
      in if leb mink node.cnt_used then stop else short

module _ {ℓ} {A : Type ℓ} where
  -- The way down from a node along `getchild(suc, 0)`: the leaf, and its path.
  pub descend : (h : ℕ) → Sub A (suc h) → Way A h → Run ((k : ℕ) × Sub A (suc k) × Way A k)
  descend zero node p =
      getchild node 0 >>= λ c. elim c [ none ↦ ok (zero, node, p) | some child ↦ elim child [ ] ]
  descend (suc h) node p = getchild node 0 >>= λ c. elim c [
    | none ↦ ok (suc h, node, p)
    | some child ↦ descend h child (under node 0 p)
  ]

module _ {ℓ κ} {K : Type ℓ} {V : Type κ} (kc : K → K → ℤ) (fork : ℕ) where
  -- `erase_1` where the node has no child after the entry.
  pub erase_leaf : (h : ℕ) → Sub (K × V) (suc h) → Way (K × V) h → ℕ → Run (Option (Tree (K × V)))
  erase_leaf h node p idx = do
    node ← shift_left node (idx + 1) 1
    erase_2 kc fork h (record node { cnt_used = node.cnt_used - 1 }) p true

  -- `erase_1` where it has: the entry that follows in order takes the place, and its leaf is shortened.
  -- The first way down finds that entry, the second passes the node with it in place.
  pub erase_inner :
      (h : ℕ)
      → Sub (K × V) (suc (suc h))
      → Way (K × V) (suc h)
      → ℕ
      → Sub (K × V) (suc h)
      → Run (Option (Tree (K × V)))
  erase_inner h node p idx child = do
    (k, suc_node, q) ← descend h child (under node (idx + 1) p)
    kv ← getkv suc_node 0
    node ← setkv node idx kv
    (k, suc_node, q) ← descend h child (under node (idx + 1) p)
    suc_node ← shift_left suc_node 1 1
    erase_2 kc fork k (record suc_node { cnt_used = suc_node.cnt_used - 1 }) q true

  -- `erase_1`.
  pub erase_1 : (h : ℕ) → Sub (K × V) (suc h) → Way (K × V) h → ℕ → Run (Option (Tree (K × V)))
  erase_1 zero node p idx = getchild node (idx + 1) >>= λ c. elim c [
    | none ↦ erase_leaf zero node p idx
    | some child ↦ elim child [ ]
  ]
  erase_1 (suc h) node p idx = getchild node (idx + 1) >>= λ c. elim c [
    | none ↦ erase_leaf (suc h) node p idx
    | some child ↦ erase_inner h node p idx child
  ]

module _ {ℓ κ} {K : Type ℓ} {V : Type κ} (kc : K → K → ℤ) where
  -- tl_btree_erase behind `tb_locate_key`: the tree, `*pkv` afterwards, and whether 0 is returned.
  pub erase_at : Root (K × V) → K × V → Location (K × V) → Run (Root (K × V) × (K × V) × Bool)
  erase_at root kv (located h node idx p) = do
    e ← getkv node idx
    first ← erase_1 kc root.m_fork h node p idx
    ok (record root { first = first; cnt_key = root.cnt_key - 1 }, (kv.0, e.1), true)
  erase_at root kv (missing h node idx p) = ok (root, kv, false)
  erase_at root kv no_node = ok (root, kv, false)

  -- tl_btree_erase.
  pub erase : Root (K × V) → K × V → Run (Root (K × V) × (K × V) × Bool)
  erase root kv = locate_key kc root kv.0 >>= erase_at root kv
