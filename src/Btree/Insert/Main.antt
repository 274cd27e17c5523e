-- ===== src/Btree/Insert/Main.antt =====
-- tl_btree_insert of trunk/src/tl_btree2.c as an operation on the list of the entries.
use common_tool.Base.{
  ℕ, ◌≡◌, refl, sym, ◌∙◌, ap, ap₂, subst, take, ◌+◌, Bool, true, none, List, [], ◌∷◌, ◌++◌,
  append_assoc, arith, ℤ, IsOrder, length, length-append, ok, ◌>>=◌, Returns, returns, Returns-bind,
  Returns-inv,
}
use common_tool.Rbtree.Ascending.{IsAscending, find, put, put-between, IsAscending-insert}
use common_tool.Btree.{Root}
use common_tool.Btree.Contents.{before, after, contents, lefts, rights, entries}
use common_tool.Btree.Invariant.{IsBtree}
use common_tool.Btree.Locate.{Location}
use common_tool.Btree.Locate.Found.{Found, found_at, gap_found, nothing}
use common_tool.Btree.Locate.Main.{locate_key-Found}
use common_tool.Btree.Insert.{insert_1, insert_at, insert, finish}
use common_tool.Btree.Insert.Steps.{widened}
use common_tool.Btree.Insert.NewRoot.{Grown, new_root-Grown}
use common_tool.Btree.Insert.Climb.{insert_loop-Grown}

one_more {ℓ} :
    {A : Type ℓ} (l b : List A) (x : A) (a r : List A)
    → l ++ ((b ++ (x ∷ a)) ++ r) ≡ (l ++ b) ++ x ∷ (a ++ r)
one_more l b x a r = simp append_assoc

module _ {K V : Type 0} (kc : K → K → ℤ) (ord : IsOrder kc) (zeroes : K × V) (alloc : ℕ → Bool)
    (memory : (h : ℕ) → alloc h ≡ true) where
  -- What an insertion of a new key leaves.
  pub record Inserted (root : Root (K × V)) (kv : K × V) (r : Root (K × V) × (K × V) × Bool)
      : Type 0 where
    pub valid : IsBtree kc r.0
    pub all : entries r.0.first ≡ put kc kv (entries root.first)
    pub kept : r.1 ≡ kv
    pub success : r.2 ≡ true

  finish-Inserted :
      (root : Root (K × V)) (kv : K × V) (front back : List (K × V)) {r : _}
      → IsBtree kc root
      → entries root.first ≡ front ++ back
      → put kc kv (entries root.first) ≡ front ++ kv ∷ back
      → IsAscending kc (front ++ kv ∷ back)
      → Grown root.m_fork (front ++ kv ∷ back) r
      → Returns (Inserted root kv) (finish root r >>= λ (s, done). ok (s, kv, done))
  unfolding finish
  finish-Inserted root kv front back {r} v e new asc g =
      rw (g.first, g.success)
        (returns (record {
          valid = record {
            positive = v.positive;
            small = v.small;
            shape = (g.whole.filled, g.whole.node);
            ascending = subst (IsAscending kc) (sym g.whole.all) asc;
            counted = omega (
              arith,
              v.counted,
              ap length e,
              ap length g.whole.all,
              length-append front back,
              length-append front (kv ∷ back),
            );
          };
          all = g.whole.all ∙ sym new;
          kept = refl;
          success = refl;
        }))

  insert_at-Inserted :
      (root : Root (K × V)) (kv : K × V) (b_update : Bool) (loc : Location (K × V))
      → IsBtree kc root
      → Found kc root.m_fork kv.0 (entries root.first) loc
      → find kc kv.0 (entries root.first) ≡ none
      → Returns (Inserted root kv) (insert_at kc zeroes alloc root kv b_update loc)
  unfolding insert_at insert_1
  insert_at-Inserted root kv b_update _ v (nothing e) new =
      let grown = Returns-inv (new_root-Grown zeroes root.m_fork v.positive 0 kv none none tt tt) in
      rw (memory 0, grown.1)
        (finish-Inserted root kv [] [] v e (ap (put kc kv) e ∙ put-between kc ord kv [] [] tt tt)
          (tt, tt) grown.2)
  insert_at-Inserted root kv b_update _ v (found_at h node idx p n low q e l hit found) new =
      absurd (ground (arith, found kv))
  insert_at-Inserted root kv b_update _ v (gap_found node idx p n low q l front back ef eb e b a)
        new =
      let list = lefts 0 p ++ (widened 0 node idx kv none none ++ rights 0 p) in
      let same : list ≡ front ++ kv ∷ back =
        one_more (lefts 0 p)
          (before (contents 0) idx (take node.cnt_used node.pkv) (take (node.cnt_used + 1) node.pc))
          kv
          (after (contents 0) idx (take node.cnt_used node.pkv) (take (node.cnt_used + 1) node.pc))
          (rights 0 p)
        ∙ ap₂ (λ f b. f ++ kv ∷ b) (sym ef) (sym eb) in
      let asc =
        IsAscending-insert kc ord front kv back (subst (IsAscending kc) e v.ascending) b a in
      let grown = Returns-inv (
        insert_loop-Grown kc ord zeroes alloc memory root.m_fork v.positive v.small 0 node p idx kv
          none none n low q l tt tt (subst (IsAscending kc) (sym same) asc)) in
      rw grown.1 (
        finish-Inserted root kv front back v e
          (ap (put kc kv) e ∙ put-between kc ord kv front back b a) asc
          (subst (λ xs. Grown root.m_fork xs grown.0) same grown.2))

  -- On a valid tree that lacks the key, while memory is found, tl_btree_insert returns 0 and leaves a
  -- valid B-tree: half full, of one depth, in order, with the new entry put among the old ones.
  pub insert_puts :
      (root : Root (K × V)) (kv : K × V) (b_update : Bool)
      → IsBtree kc root
      → find kc kv.0 (entries root.first) ≡ none
      → Returns (Inserted root kv) (insert kc zeroes alloc root kv b_update)
  unfolding insert
  insert_puts root kv b_update v new =
      Returns-bind (locate_key-Found kc ord root.m_fork kv.0 v.small root v refl)
        λ loc at. insert_at-Inserted root kv b_update loc v at new
