-- ===== src/Btree/Cursor.antt =====
-- The cursors of trunk/src/tl_btree2.c: tl_btree_first, _last, _next, _prev, _extract and _set. What
-- is left in the entry where -1 is returned is not followed.
pub mod Stands
pub mod Walk
pub mod Back
use common_tool.Base.{
  ℕ, zero, suc, ◌+◌, ◌-◌, Option, none, some, ltb, ◌==◌, if◌then◌else◌, Run, ok, ◌>>=◌,
}
use common_tool.Btree.{Sub, Way, top, under, Root, getkv, setkv, getchild}
use common_tool.Btree.Erase.{descend}

-- `tl_btree_entry_t`, with the height and the path of the node.
pub record Cursor {ℓ} (A : Type ℓ) : Type ℓ where
  pub height : ℕ
  pub ploc : Sub A (suc height)
  pub path : Way A height
  pub idx_key : ℕ

module _ {ℓ} {A : Type ℓ} where
  abbrev at : (h : ℕ) → Sub A (suc h) → Way A h → ℕ → Cursor A
  at h node p idx = record { height = h; ploc = node; path = p; idx_key = idx }

  -- The way down along the last children, to the last entry of a leaf.
  pub descend_last : (h : ℕ) → Sub A (suc h) → Way A h → Run (Cursor A)
  descend_last zero node p = getchild node node.cnt_used >>= λ c. elim c [
    | none ↦ ok (at zero node p (node.cnt_used - 1))
    | some child ↦ elim child [ ]
  ]
  descend_last (suc h) node p = getchild node node.cnt_used >>= λ c. elim c [
    | none ↦ ok (at (suc h) node p (node.cnt_used - 1))
    | some child ↦ descend_last h child (under node node.cnt_used p)
  ]

  -- The way down along the first children.
  pub descend_first : (h : ℕ) → Sub A (suc h) → Way A h → Run (Cursor A)
  descend_first h node p = descend h node p >>= λ (k, leaf, q). ok (at k leaf q 0)

  -- tl_btree_first; none is -1.
  pub first : Root A → Run (Option (Cursor A))
  first root = elim root.first [
    | none ↦ ok none
    | some t ↦ descend_first t.0 t.1 top >>= λ c. ok (some c)
  ]

  -- tl_btree_last.
  pub last : Root A → Run (Option (Cursor A))
  last root = elim root.first [
    | none ↦ ok none
    | some t ↦ descend_last t.0 t.1 top >>= λ c. ok (some c)
  ]

  -- The loop of tl_btree_next, up from a last child.
  pub climb_next : (h : ℕ) → Way A h → Option (Cursor A)
  climb_next h top = none
  climb_next h (under parent idx_pc p) =
      let higher = climb_next (suc h) p in
      if idx_pc == parent.cnt_used then higher else some (at (suc h) parent p idx_pc)

  -- The loop of tl_btree_prev, up from a first child.
  pub climb_prev : (h : ℕ) → Way A h → Option (Cursor A)
  climb_prev h top = none
  climb_prev h (under parent idx_pc p) =
      let higher = climb_prev (suc h) p in
      if idx_pc == 0 then higher else some (at (suc h) parent p (idx_pc - 1))

  -- tl_btree_next at a node that has no child after the entry; `idx` is the index raised.
  pub next_here : (h : ℕ) → Sub A (suc h) → Way A h → ℕ → Option (Cursor A)
  next_here h node p idx = if ltb idx node.cnt_used then some (at h node p idx) else climb_next h p

  pub next_at : (h : ℕ) → Sub A (suc h) → Way A h → ℕ → Run (Option (Cursor A))
  next_at zero node p idx = getchild node idx >>= λ c. elim c [
    | none ↦ ok (next_here zero node p idx)
    | some child ↦ elim child [ ]
  ]
  next_at (suc h) node p idx = getchild node idx >>= λ c. elim c [
    | none ↦ ok (next_here (suc h) node p idx)
    | some child ↦ descend_first h child (under node idx p) >>= λ e. ok (some e)
  ]

  -- tl_btree_next.
  pub next : Cursor A → Run (Option (Cursor A))
  next e = next_at e.height e.ploc e.path (e.idx_key + 1)

  -- tl_btree_prev at a node that has no child before the entry.
  pub prev_here : (h : ℕ) → Sub A (suc h) → Way A h → ℕ → Option (Cursor A)
  prev_here h node p zero = climb_prev h p
  prev_here h node p (suc idx) = some (at h node p idx)

  pub prev_at : (h : ℕ) → Sub A (suc h) → Way A h → ℕ → Run (Option (Cursor A))
  prev_at zero node p idx = getchild node idx >>= λ c. elim c [
    | none ↦ ok (prev_here zero node p idx)
    | some child ↦ elim child [ ]
  ]
  prev_at (suc h) node p idx = getchild node idx >>= λ c. elim c [
    | none ↦ ok (prev_here (suc h) node p idx)
    | some child ↦ descend_last h child (under node idx p) >>= λ e. ok (some e)
  ]

  -- tl_btree_prev.
  pub prev : Cursor A → Run (Option (Cursor A))
  prev e = prev_at e.height e.ploc e.path e.idx_key

  -- tl_btree_extract.
  pub extract : Cursor A → Run A
  extract e = getkv e.ploc e.idx_key

-- tl_btree_set: the entry, with the whole tree in `plug` of its node and path.
pub set_val {ℓ κ} : {K : Type ℓ} {V : Type κ} → Cursor (K × V) → V → Run (Cursor (K × V))
set_val e val = do
  kv ← getkv e.ploc e.idx_key
  node ← setkv e.ploc e.idx_key (kv.0, val)
  ok (record e { ploc = node })
