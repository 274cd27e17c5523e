-- ===== src/Rbtree/Insert/Main.antt =====
-- tl_rbtree_insert as an operation on the list of the entries.
use common_tool.Base.{
  ◌≡◌, refl, sym, ◌∙◌, ap, subst, Bool, true, none, some, List, [], ◌∷◌, ◌++◌, arith, if◌then◌else◌,
  ℤ, IsOrder, length, length-append, ok, Returns, returns, Returns-bind, Returns-and,
}
use common_tool.Rbtree.{red, leaf, node, Frame, left, right, Root, inorder, before, after}
use common_tool.Rbtree.Locate.{Location, unexist, located, lchild, rchild, locate_key}
use common_tool.Rbtree.Locate.Search.{Ends, Splits}
use common_tool.Rbtree.Locate.Place.{PlacedAt, IsPlaced}
use common_tool.Rbtree.Locate.Query.{locate_key-Ends, absent}
use common_tool.Rbtree.Ascending.{IsAscending, find, put, put-between, IsAscending-insert}
use common_tool.Rbtree.Invariant.{IsTree}
use common_tool.Rbtree.Insert.{attach, insert, insert_at}
use common_tool.Rbtree.Insert.Shape.{i_adjust-IsRedBlack}
use common_tool.Rbtree.Insert.Content.{i_adjust-Keeps}

module _ {ℓ κ} {K : Type ℓ} {V : Type κ} (kc : K → K → ℤ) (ord : IsOrder kc) where
  -- What an insertion of a new key leaves.
  pub record Inserted (root : Root (K × V)) (kv : K × V) (r : Root (K × V) × (K × V) × Bool)
      : Type (ℓ ⊔ κ) where
    pub valid : IsTree kc r.0
    pub entries : inorder r.0.first ≡ put kc kv (inorder root.first)
    pub kept : r.1 ≡ kv
    pub success : r.2 ≡ true

  attach-Inserted :
      (root : Root (K × V)) (kv : K × V) (p : List (Frame (K × V)))
      → IsTree kc root
      → Splits kc kv.0 (inorder root.first) p
      → IsPlaced leaf p
      → Returns (Inserted root kv) (attach root true p kv)
  unfolding attach
  attach-Inserted root kv p v s h =
      Returns-bind
        (Returns-and
          (i_adjust-IsRedBlack (node red leaf kv leaf) p refl (tt, tt, refl) h.balanced_path
            (tt, tt, refl, refl) h.colored_path)
          (i_adjust-Keeps (node red leaf kv leaf) p))
        λ t (shape, entries).
          let asc : IsAscending kc (before p ++ after p) =
            subst (IsAscending kc) (sym s.all) v.ascending in
          returns (record {
            valid = record {
              shape = shape;
              ascending =
                  subst (IsAscending kc) (sym entries)
                    (IsAscending-insert kc ord (before p) kv (after p) asc s.below s.above);
              counted = omega (
                arith,
                v.counted,
                ap length entries,
                ap length s.all,
                length-append (before p) (kv ∷ after p),
                length-append (before p) (after p),
              );
            };
            entries =
                entries
                ∙ sym (put-between kc ord kv (before p) (after p) s.below s.above)
                ∙ ap (put kc kv) s.all;
            kept = refl;
            success = refl;
          })

  insert_at-Inserted :
      (root : Root (K × V)) (kv : K × V) (b_update : Bool) (loc : Location (K × V))
      → IsTree kc root
      → Ends kc kv.0 (inorder root.first) loc
      → PlacedAt loc
      → find kc kv.0 (inorder root.first) ≡ none
      → Returns (Inserted root kv) (insert_at root true kv b_update loc)
  unfolding insert_at
  insert_at-Inserted root kv b_update unexist v s h new = returns (record {
    valid = record {
      shape = record { balanced = (tt, tt, refl); colored = (tt, tt, tt, tt); root = refl };
      ascending = (tt, tt);
      counted = omega (arith, v.counted, ap length s.all);
    };
    entries = sym (put-between kc ord kv [] [] tt tt) ∙ ap (put kc kv) s.all;
    kept = refl;
    success = refl;
  })
  insert_at-Inserted root kv b_update (located c l e r p) v s h new =
      absurd (ground (arith, s.found))
  insert_at-Inserted root kv b_update (lchild c e r p) v s h new =
      attach-Inserted root kv (left c e r ∷ p) v s h
  insert_at-Inserted root kv b_update (rchild c l e p) v s h new =
      attach-Inserted root kv (right c l e ∷ p) v s h

  -- On a valid tree that lacks the key, while memory is found, tl_rbtree_insert returns 0 and leaves a
  -- valid tree: red-black, in order, with the new entry put among the old ones.
  pub insert_correct :
      (root : Root (K × V)) (kv : K × V) (b_update : Bool)
      → IsTree kc root
      → find kc kv.0 (inorder root.first) ≡ none
      → Returns (Inserted root kv) (insert kc root true kv b_update)
  unfolding insert
  insert_correct root kv b_update v new =
      let at = locate_key-Ends kc ord root kv.0 v in
      insert_at-Inserted root kv b_update (locate_key kc root kv.0) v at.0 at.1 new

  insert_at-present :
      (root : Root (K × V)) (kv e : K × V) (alloc_ok b_update : Bool) (loc : Location (K × V))
      → Ends kc kv.0 (inorder root.first) loc
      → find kc kv.0 (inorder root.first) ≡ some e
      → insert_at root alloc_ok kv b_update loc
        ≡ ok (root, (if b_update then (kv.0, e.1) else kv), b_update)
  unfolding insert_at
  insert_at-present root kv e alloc_ok b_update (located c l f r p) s old = ground (arith, s.found)
  insert_at-present root kv e alloc_ok b_update unexist s old =
      absurd (ground (arith, absent kc ord kv.0 (inorder root.first) [] s))
  insert_at-present root kv e alloc_ok b_update (lchild c f r p) s old =
      absurd (ground (arith, absent kc ord kv.0 (inorder root.first) (left c f r ∷ p) s))
  insert_at-present root kv e alloc_ok b_update (rchild c l f p) s old =
      absurd (ground (arith, absent kc ord kv.0 (inorder root.first) (right c l f ∷ p) s))

  -- On a key that the tree has, tl_rbtree_insert never changes the tree: with `b_update` it returns 0
  -- and hands back the stored value, without it -1.
  pub insert-present :
      (root : Root (K × V)) (kv e : K × V) (alloc_ok b_update : Bool)
      → IsTree kc root
      → find kc kv.0 (inorder root.first) ≡ some e
      → insert kc root alloc_ok kv b_update
        ≡ ok (root, (if b_update then (kv.0, e.1) else kv), b_update)
  unfolding insert
  insert-present root kv e alloc_ok b_update v old =
      insert_at-present root kv e alloc_ok b_update (locate_key kc root kv.0)
        (locate_key-Ends kc ord root kv.0 v).0 old
