-- ===== src/Btree/Locate.antt =====
-- `tb_locate_key` of trunk/src/tl_btree2.c, and tl_btree_query.
pub mod Place
pub mod Found
pub mod Hit
pub mod Opening
pub mod Main
pub mod Query
pub mod Single
use common_tool.Base.{
  ℕ, zero, suc, Bool, true, false, List, Option, none, some, ltb, ◌&&◌, if◌then◌else◌, Run, ok,
  fault, ◌>>=◌, load, take, map, ℤ, pos, negsuc, is_zero,
}
use common_tool.Sort.{bsearch}
use common_tool.Btree.{Node, Sub, Way, top, under, Tree, Root, getkv, getchild}

-- `locate_t`: the node with the key and its place there; or, for a key that is missing, the leaf and
-- the place where it would be, or no node at all.
pub data Location {ℓ} (A : Type ℓ) : Type ℓ where
  located : (h : ℕ) → Sub A (suc h) → ℕ → Way A h → Location A
  missing : (h : ℕ) → Sub A (suc h) → ℕ → Way A h → Location A
  no_node : Location A

-- `tl_assert(0 <= idx)`.
abbrev pub index : ℤ → Run ℕ
index (pos n) = ok n
index (negsuc n) = fault

module _ {ℓ κ} {K : Type ℓ} {V : Type κ} (kc : K → K → ℤ) where
  -- `tl_bsearch` for the lower bound among the keys of a node.
  pub bsearch_node {μ} : {C : Type μ} → Node (K × V) C → K → Run ℕ
  bsearch_node node key =
      bsearch kc (map (λ e. e.0) (take node.cnt_used node.pkv)) key true >>= index

  -- The test for the key at `idx`.
  pub hit {μ} : {C : Type μ} → Node (K × V) C → ℕ → K → Run Bool
  hit node idx key =
      let test : Run Bool = getkv node idx >>= λ e. ok (is_zero (kc key e.0)) in
      if ltb idx node.cnt_used then test else ok false

  -- The loop of `tb_locate_key`, at a node and its path.
  pub locate_loop : (h : ℕ) → K → Sub (K × V) (suc h) → Way (K × V) h → Run (Location (K × V))
  locate_loop zero key node p = do
    idx ← bsearch_node node key
    b_find ← hit node idx key
    let down : Run (Location (K × V)) = getchild node idx >>= λ c. elim c [
      | none ↦ ok (missing zero node idx p)
      | some child ↦ elim child [ ]
    ]
    if b_find then ok (located zero node idx p) else down
  locate_loop (suc h) key node p = do
    idx ← bsearch_node node key
    b_find ← hit node idx key
    let down : Run (Location (K × V)) = getchild node idx >>= λ c. elim c [
      | none ↦ ok (missing (suc h) node idx p)
      | some child ↦ locate_loop h key child (under node idx p)
    ]
    if b_find then ok (located (suc h) node idx p) else down

  -- `tb_locate_key`.
  pub locate_key : Root (K × V) → K → Run (Location (K × V))
  locate_key root key = elim root.first [ none ↦ ok no_node | some t ↦ locate_loop t.0 key t.1 top ]

  -- tl_btree_query behind `tb_locate_key`: `*pkv` afterwards, and whether 0 is returned.
  pub query_at : K × V → Location (K × V) → Run ((K × V) × Bool)
  query_at kv (located h node idx p) = getkv node idx >>= λ e. ok ((kv.0, e.1), true)
  query_at kv (missing h node idx p) = ok (kv, false)
  query_at kv no_node = ok (kv, false)

  -- tl_btree_query.
  pub query : Root (K × V) → K × V → Run ((K × V) × Bool)
  query root kv = locate_key root kv.0 >>= query_at kv
