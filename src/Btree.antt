-- ===== src/Btree.antt =====
-- The B-tree of trunk/src/tl_btree2.c. A node has its two arrays, whole, and what a pointer to a
-- child points at stands in `pc`; `parent` is the path from a node up to the root, with the place of
-- the node in each parent, which `tb_locate_node` looks up. The type of a node has its height: at the
-- height 0 no pointer can be other than NULL.
pub mod Locate
pub mod Insert
pub mod Erase
pub mod Cursor
pub mod Arrays
pub mod Shows
pub mod Contents
pub mod Invariant
pub mod Plug
pub mod Order
pub mod Ends
mod Tests
use common_tool.Base.{
  ℕ, zero, suc, ◌+◌, ◌-◌, ◌/◌, ◌%◌, Bool, true, false, List, [], ◌∷◌, Option, none, some, ltb, leb,
  ◌==◌, if◌then◌else◌, Run, ok, fault, ◌>>=◌, load, store, require, take, replicate, map,
}

-- `tl_btree_node_t`: `m_fork` entries, and one child more.
pub record Node {ℓ κ} (A : Type ℓ) (C : Type κ) : Type (ℓ ⊔ κ) where
  pub cnt_used : ℕ
  pub pkv : List A
  pub pc : List (Option C)

-- Below a leaf there is no node.
pub data NoNode {ℓ} : Type ℓ where

-- What the children of a node of the height `h` point at.
abbrev pub Sub {ℓ} : Type ℓ → ℕ → Type ℓ
Sub A zero = NoNode
Sub A (suc h) = Node A (Sub A h)

-- The parents of a node of the height `h`, nearest first, each with the index of the child that the
-- path comes from.
pub data Way {ℓ} (A : Type ℓ) : ℕ → Type ℓ where
  top : {h : ℕ} → Way A h
  under : {h : ℕ} → Sub A (suc (suc h)) → ℕ → Way A (suc h) → Way A h

-- A node of some height.
abbrev pub Tree {ℓ} : Type ℓ → Type ℓ
Tree A = (h : ℕ) × Sub A (suc h)

-- `tl_btree_root_t`, with `m_fork` of `bpc`.
pub record Root {ℓ} (A : Type ℓ) : Type ℓ where
  pub m_fork : ℕ
  pub first : Option (Tree A)
  pub cnt_key : ℕ

-- `bt_maxc` and `bt_minc`.
abbrev pub maxc : ℕ → ℕ
maxc fork = fork + 1

abbrev pub minc : ℕ → ℕ
minc fork = if 1 == maxc fork % 2 then 1 + maxc fork / 2 else maxc fork / 2

-- The index `i - cnt` in an array.
abbrev pub back : ℕ → ℕ → Run ℕ
back i cnt = require (leb cnt i) (ok (i - cnt))

module _ {ℓ κ} {A : Type ℓ} {C : Type κ} where
  -- `full`.
  abbrev pub full : ℕ → Node A C → Bool
  full fork node = fork == node.cnt_used

  -- `getkv`, `setkv`, `getchild` and `setchild`.
  abbrev pub getkv : Node A C → ℕ → Run A
  getkv node idx = load node.pkv idx

  abbrev pub setkv : Node A C → ℕ → A → Run (Node A C)
  setkv node idx kv = store node.pkv idx kv >>= λ b. ok (record node { pkv = b })

  abbrev pub getchild : Node A C → ℕ → Run (Option C)
  getchild node idx = load node.pc idx

  abbrev pub setchild : Node A C → ℕ → Option C → Run (Node A C)
  setchild node idx c = store node.pc idx c >>= λ b. ok (record node { pc = b })

  -- `tb_alloc_node`: NULL, or a node full of zeroes.
  pub alloc_node : Bool → A → ℕ → Option (Node A C)
  alloc_node alloc_ok zeroes fork =
      if alloc_ok
      then some
          (record { cnt_used = 0; pkv = replicate fork zeroes; pc = replicate (fork + 1) none })
      else none

  -- The loop of `tb_shift_left`, from `i` on, with `left` rounds to go.
  pub left_loop : ℕ → Node A C → ℕ → ℕ → Run (Node A C)
  left_loop zero node i cnt = ok node
  left_loop (suc left) node i cnt = do
    j ← back i cnt
    kv ← getkv node i
    node ← setkv node j kv
    c ← getchild node i
    node ← setchild node j c
    left_loop left node (i + 1) cnt

  -- `tb_shift_left`.
  pub shift_left : Node A C → ℕ → ℕ → Run (Node A C)
  shift_left node idx cnt =
      let shift : Run (Node A C) = do
        node' ← left_loop (node.cnt_used - idx) node idx cnt
        j ← back node.cnt_used cnt
        c ← getchild node' node.cnt_used
        setchild node' j c
      in if leb node.cnt_used idx then ok node else shift

  -- The loop of `tb_shift_right`, down from `idx + left - 1`.
  pub right_loop : ℕ → Node A C → ℕ → ℕ → Bool → Run (Node A C)
  right_loop zero node idx cnt b_onlykv = ok node
  right_loop (suc left) node idx cnt b_onlykv = do
    let i = idx + left
    kv ← getkv node i
    node ← setkv node (i + cnt) kv
    let both : Run (Node A C) = getchild node (i + 1) >>= λ c. setchild node (i + cnt + 1) c
    node ← if b_onlykv then ok node else both
    right_loop left node idx cnt b_onlykv

  -- `tb_shift_right`.
  pub shift_right : Node A C → ℕ → ℕ → Bool → Run (Node A C)
  shift_right node idx cnt b_onlykv =
      let shift : Run (Node A C) = do
        node' ← right_loop (node.cnt_used - idx) node idx cnt b_onlykv
        c ← getchild node' idx
        setchild node' (idx + cnt) c
      in if leb node.cnt_used idx then ok node else shift

module _ {ℓ} {A : Type ℓ} where
  -- The root, from a node at the end of a path; what was done to a node is seen through its parent.
  pub plug : (h : ℕ) → Sub A (suc h) → Way A h → Run (Tree A)
  plug h node top = ok (h, node)
  plug h node (under parent i p) = setchild parent i (some node) >>= λ b. plug (suc h) b p

-- `tl_btree_getcnt`.
pub getcnt {ℓ} : {A : Type ℓ} → Root A → ℕ
getcnt root = root.cnt_key

-- tl_btree_init; `memory` says whether the pool and the root are found.
pub init {ℓ} : {A : Type ℓ} → Bool → ℕ → Option (Root A)
init memory fork =
    if memory then some (record { m_fork = fork; first = none; cnt_key = 0 }) else none
