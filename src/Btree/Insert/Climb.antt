-- ===== src/Btree/Insert/Climb.antt =====
-- The loop of insert_1 of trunk/src/tl_btree2.c, up from a leaf.
use common_tool.Base.{
  ℕ, suc, ◌+◌, ◌^◌, ◌≤◌, ◌≡◌, refl, sym, ◌∙◌, ap, ap₂, subst, Bool, true, List, [], ◌∷◌, ◌++◌,
  Option, some, arith, set, take, append_assoc, append-nil, ℤ, IsOrder, Returns, returns,
  Returns-bind, Returns-map, Returns-if,
}
use common_tool.Rbtree.Ascending.{
  IsBelow, IsAscending, IsAbove-parts, IsAscending-parts, IsBelow-of_ascending,
}
use common_tool.Btree.{Sub, Way, top, under, full}
use common_tool.Btree.Contents.{
  below, before, after, contents, lefts, rights, before-set, after-set,
}
use common_tool.Btree.Invariant.{IsKid, IsNode, IsWay, least, take-set, Room-Shows}
use common_tool.Btree.Plug.{Exchanged, setchild-Exchanged, plug-Whole, regroup}
use common_tool.Btree.Order.{IsBelow-keys, IsAbove-keys, IsAscending-around}
use common_tool.Btree.Locate.{bsearch_node}
use common_tool.Btree.Locate.Place.{At, bsearch_node-At, At-unique}
use common_tool.Btree.Insert.{insert_loop}
use common_tool.Btree.Insert.Steps.{widened, insert_2-Widened, insert_3-Parted}
use common_tool.Btree.Insert.NewRoot.{Grown, new_root-Grown}

IsBelow-left :
    {K V : Type 0} (kc : K → K → ℤ) (key : K) (xs ys : List (K × V))
    → IsBelow kc key (xs ++ ys)
    → IsBelow kc key xs
IsBelow-left kc key [] ys h = tt
IsBelow-left kc key (x ∷ xs) ys h = (h.0, IsBelow-left kc key xs ys h.1)

around_entry {ℓ} :
    {A : Type ℓ} (a b : List A) (x : A) (c d : List A)
    → a ++ ((b ++ x ∷ c) ++ d) ≡ (a ++ b) ++ x ∷ (c ++ d)
around_entry a b x c d = simp append_assoc

module _ {A : Type 0} where
  -- An exchange of the child at the place does not change what stands around it.
  widened-Exchanged :
      (fork h : ℕ) (parent parent' : Sub A (suc h)) (i : ℕ) (c : Option (Sub A h)) (kv : A)
      (pl pr : Option (Sub A h))
      → Exchanged fork h parent parent' i c
      → widened h parent' i kv pl pr ≡ widened h parent i kv pl pr
  widened-Exchanged fork h parent parent' i c kv pl pr e =
      let ks = take parent.cnt_used parent.pkv in
      let cs = take (parent.cnt_used + 1) parent.pc in
      let same_keys : take parent'.cnt_used parent'.pkv ≡ ks =
        ap₂ (λ n l. take n l) e.used e.keys in
      let same_kids : take (parent'.cnt_used + 1) parent'.pc ≡ set cs i c =
        ap₂ (λ n l. take (n + 1) l) e.used e.kids ∙ take-set (parent.cnt_used + 1) i parent.pc c in
      let mid = below (contents h) pl ++ kv ∷ below (contents h) pr in
      ap₂ (λ l m. before (contents h) i l m ++ (mid ++ after (contents h) i l m)) same_keys
        same_kids
      ∙ ap₂ (λ l m. l ++ (mid ++ m)) (before-set (contents h) i ks cs c)
          (after-set (contents h) i ks cs c)

  -- The entries of a tree do not change where a node is parted.
  whole_list :
      (fork h : ℕ) (node : Sub A (suc h)) (parent : Sub A (suc (suc h))) (i : ℕ) (p : Way A (suc h))
      (idx : ℕ) (kv : A) (pl pr : Option (Sub A h)) (sep : A) (m m' : Sub A (suc h))
      → contents (suc h) m ++ sep ∷ contents (suc h) m' ≡ widened h node idx kv pl pr
      → lefts (suc h) p ++ (widened (suc h) parent i sep (some m) (some m') ++ rights (suc h) p)
        ≡ lefts h (under parent i p) ++ (widened h node idx kv pl pr ++ rights h (under parent i p))
  whole_list fork h node parent i p idx kv pl pr sep m m' e =
      let b =
        before (contents (suc h)) i (take parent.cnt_used parent.pkv)
          (take (parent.cnt_used + 1) parent.pc) in
      let a =
        after (contents (suc h)) i (take parent.cnt_used parent.pkv)
          (take (parent.cnt_used + 1) parent.pc) in
      ap (λ x. lefts (suc h) p ++ ((b ++ (x ++ a)) ++ rights (suc h) p)) e
      ∙ regroup (lefts (suc h) p) b (widened h node idx kv pl pr) a (rights (suc h) p)

module _ {K V : Type 0} (kc : K → K → ℤ) (ord : IsOrder kc) (zeroes : K × V) (alloc : ℕ → Bool)
    (memory : (h : ℕ) → alloc h ≡ true) (fork : ℕ) (big : 1 ≤ fork) (small : fork ≤ 2 ^ 30) where
  -- The place of an entry in the parent of the node that it comes from.
  up_again :
      (h : ℕ) (parent parent' : Sub (K × V) (suc h)) (i : ℕ) (c : Option (Sub (K × V) h))
      (kv : K × V) (pl pr : Option (Sub (K × V) h))
      → IsNode fork h parent
      → i ≤ parent.cnt_used
      → Exchanged fork h parent parent' i c
      → IsAscending kc (widened h parent i kv pl pr)
      → Returns (λ at. at ≡ i) (bsearch_node kc parent' kv.0)
  up_again h parent parent' i c kv pl pr n k e asc =
      let f = contents {A = K × V} h in
      let ks = take parent.cnt_used parent.pkv in
      let cs = take (parent.cnt_used + 1) parent.pc in
      let shown = Room-Shows fork parent n.room in
      let same_keys : take parent'.cnt_used parent'.pkv ≡ ks =
        ap₂ (λ n l. take n l) e.used e.keys in
      let keys_asc =
        IsAscending-around kc f i ks cs (below f pl ++ kv ∷ below f pr) shown.one_more asc in
      let split =
        subst (IsAscending kc)
          (around_entry (before f i ks cs) (below f pl) kv (below f pr) (after f i ks cs)) asc in
      let left =
        IsBelow-of_ascending kc (before f i ks cs ++ below f pl) kv (below f pr ++ after f i ks cs)
          split in
      let right =
        (IsAscending-parts kc (before f i ks cs ++ below f pl)
          (kv ∷ (below f pr ++ after f i ks cs)) split).1.0 in
      Returns-map
        (bsearch_node-At kc ord parent' kv.0 (subst (IsAscending kc) (sym same_keys) keys_asc)
          (omega (arith, e.used, n.room.fits, small)))
        λ at found.
          At-unique kc ord kv.0 ks i at (subst (λ l. At kc kv.0 l at) same_keys found)
            (omega (arith, shown.used))
            (IsBelow-keys kc f kv.0 i ks cs shown.one_more
              (IsBelow-left kc kv.0 (before f i ks cs) (below f pl) left))
            (IsAbove-keys kc f kv.0 i ks cs shown.one_more
              (IsAbove-parts kc kv.0 (below f pr) (after f i ks cs) right).1)

  pub insert_loop-Grown :
      (h : ℕ) (node : Sub (K × V) (suc h)) (p : Way (K × V) h) (idx : ℕ) (kv : K × V)
      (pl pr : Option (Sub (K × V) h))
      → IsNode fork h node
      → least fork h p ≤ node.cnt_used
      → IsWay fork h p
      → idx ≤ node.cnt_used
      → IsKid (K × V) fork h pl
      → IsKid (K × V) fork h pr
      → IsAscending kc (lefts h p ++ (widened h node idx kv pl pr ++ rights h p))
      → Returns
          (Grown fork (lefts h p ++ (widened h node idx kv pl pr ++ rights h p)))
          (insert_loop kc zeroes alloc fork h node p idx kv pl pr)
  unfolding insert_loop
  insert_loop-Grown h node top idx kv pl pr n low q k l r asc =
      Returns-if (full fork node)
        (λ is_full.
          rw (memory h, memory (suc h))
            (Returns-bind
              (insert_3-Parted fork h node idx kv pl pr n k l r zeroes (ground arith) big)
              λ (sep, m, m') s.
                Returns-map
                  (new_root-Grown zeroes fork big (suc h) sep (some m) (some m') s.left s.right)
                  λ x g.
                    subst (λ xs. Grown fork xs x)
                      (s.all ∙ sym (append-nil (widened h node idx kv pl pr))) g))
        (λ room.
          Returns-bind
            (insert_2-Widened fork h node idx kv pl pr n k l r (ground (arith, n.room.fits)))
            λ m w. returns (record {
              tree = (h, m);
              first = refl;
              whole = record {
                filled = omega (arith, w.used);
                node = w.node;
                all = w.all ∙ sym (append-nil (widened h node idx kv pl pr));
              };
              success = refl;
            }))
  insert_loop-Grown h node (under parent i p) idx kv pl pr n low q k l r asc =
      Returns-if (full fork node)
        (λ is_full. rw (memory h) (
          Returns-bind (insert_3-Parted fork h node idx kv pl pr n k l r zeroes (ground arith) big)
            λ (sep, m, m') s.
              let same = whole_list fork h node parent i p idx kv pl pr sep m m' s.all in
              let part_asc = subst (IsAscending kc) (sym same) asc in
              let here =
                (IsAscending-parts kc (lefts (suc h) p)
                  (widened (suc h) parent i sep (some m) (some m') ++ rights (suc h) p)
                  part_asc).1 in
              let here' =
                (IsAscending-parts kc (widened (suc h) parent i sep (some m) (some m'))
                  (rights (suc h) p) here).0 in
              Returns-bind (setchild-Exchanged fork (suc h) parent i (some m) q.0 q.1 s.left) λ b e.
                let same' =
                  ap (λ w. lefts (suc h) p ++ (w ++ rights (suc h) p))
                    (widened-Exchanged fork (suc h) parent b i (some m) sep (some m) (some m') e)
                  ∙ same in
                Returns-bind
                  (up_again (suc h) parent b i (some m) sep (some m) (some m') q.0 q.1 e here')
                  λ at found. rw found (
                    Returns-map
                      (insert_loop-Grown (suc h) b p i sep (some m) (some m') e.node
                        (omega (arith, e.used, q.2)) q.3 (omega (arith, e.used, q.1)) s.left s.right
                        (subst (IsAscending kc) (sym same') asc))
                      λ x g. subst (λ xs. Grown fork xs x) same' g)))
        (λ room.
          Returns-bind
            (insert_2-Widened fork h node idx kv pl pr n k l r (ground (arith, n.room.fits)))
            λ m w.
              Returns-bind (plug-Whole fork h m (under parent i p) w.node (omega (arith, w.used)) q)
                λ t v. returns (record {
                  tree = t;
                  first = refl;
                  whole = record {
                    filled = v.filled;
                    node = v.node;
                    all =
                        v.all
                        ∙ ap (λ x. lefts h (under parent i p) ++ (x ++ rights h (under parent i p)))
                            w.all;
                  };
                  success = refl;
                }))
