-- ===== src/Btree/Insert/Update.antt =====
-- tl_btree_insert of trunk/src/tl_btree2.c on a key that the tree has.
use common_tool.Base.{
  ℕ, suc, ◌+◌, ◌≡◌, refl, sym, ◌∙◌, ap, subst, take, drop, set, ◌<◌, get_or, get_or-take,
  length-set, Bool, true, false, some, List, [], ◌∷◌, ◌++◌, arith, if◌then◌else◌, ℤ, IsOrder,
  is_zero, length, length-append, load-ok, store-ok, Returns, returns, Returns-bind,
}
use common_tool.Rbtree.Ascending.{
  IsBelow, IsAscending, find, IsAbove-parts, IsAbove-append, IsBelow-of_ascending, IsBelow-equal,
}
use common_tool.Btree.{Root, Sub}
use common_tool.Btree.Contents.{weave, contents, lefts, rights, entries, weave-cut, weave-set_key}
use common_tool.Btree.Invariant.{IsBtree, IsNode, Room-Shows, take-set}
use common_tool.Btree.Plug.{plug-Whole}
use common_tool.Btree.Locate.{Location}
use common_tool.Btree.Locate.Found.{Found, found_at, gap_found, nothing}
use common_tool.Btree.Locate.Hit.{around}
use common_tool.Btree.Locate.Main.{locate_key-Found}
use common_tool.Btree.Locate.Query.{find-gap}
use common_tool.Btree.Insert.{update, insert_at, insert}

module _ {K V : Type 0} (kc : K → K → ℤ) where
  -- The value of the entry with the key exchanged.
  pub reset : K → V → List (K × V) → List (K × V)
  reset key v [] = []
  reset key v (e ∷ es) = if is_zero (kc key e.0) then (e.0, v) ∷ es else e ∷ reset key v es

  IsAscending-reset :
      (xs : List (K × V)) (e : K × V) (v : V) (ys : List (K × V))
      → IsAscending kc (xs ++ e ∷ ys)
      → IsAscending kc (xs ++ (e.0, v) ∷ ys)
  IsAscending-reset [] e v ys h = h
  IsAscending-reset (x ∷ xs) e v ys h =
      let parts = IsAbove-parts kc x.0 xs (e ∷ ys) h.0 in
      (IsAbove-append kc x.0 xs ((e.0, v) ∷ ys) parts.0 parts.1, IsAscending-reset xs e v ys h.1)

module _ {K V : Type 0} (kc : K → K → ℤ) (ord : IsOrder kc) where
  reset-between :
      (key : K) (v : V) (xs : List (K × V)) (e : K × V) (ys : List (K × V))
      → IsBelow kc key xs
      → is_zero (kc key e.0) ≡ true
      → reset kc key v (xs ++ e ∷ ys) ≡ xs ++ (e.0, v) ∷ ys
  unfolding reset
  reset-between key v [] e ys h z = rw z refl
  reset-between key v (x ∷ xs) e ys h z =
      let differ : is_zero (kc key x.0) ≡ false = ground (arith, ord.flip x.0 key) in
      rw differ (ap (◌∷◌ x) (reset-between key v xs e ys h.1 z))

  -- What an exchange of the value leaves.
  pub record Updated (root : Root (K × V)) (kv e : K × V) (r : Root (K × V) × (K × V) × Bool)
      : Type 0 where
    pub valid : IsBtree kc r.0
    pub all : entries r.0.first ≡ reset kc kv.0 kv.1 (entries root.first)
    pub handed_back : r.1 ≡ (kv.0, e.1)
    pub success : r.2 ≡ true

  update-Updated :
      (root : Root (K × V)) (kv e : K × V) (loc : Location (K × V))
      → IsBtree kc root
      → Found kc root.m_fork kv.0 (entries root.first) loc
      → find kc kv.0 (entries root.first) ≡ some e
      → (zeroes : K × V) (alloc : ℕ → Bool)
      → Returns (Updated root kv e) (insert_at kc zeroes alloc root kv true loc)
  unfolding insert_at update
  update-Updated root kv e _ v (nothing empty) old zeroes alloc =
      absurd (ground (arith, find-gap kc ord kv.0 (entries root.first) [] [] empty tt tt))
  update-Updated root kv e _ v (gap_found node idx p n low q l front back ef eb all b a) old zeroes
        alloc =
      absurd (ground (arith, find-gap kc ord kv.0 (entries root.first) front back all b a))
  update-Updated root kv e _ v (found_at h node idx p n low q all l hit found) old zeroes alloc =
      let f = contents {A = K × V} h in
      let ks = take node.cnt_used node.pkv in
      let cs = take (node.cnt_used + 1) node.pc in
      let shown = Room-Shows root.m_fork node n.room in
      let x = get_or node.pkv idx kv in
      let x' : K × V = (x.0, kv.1) in
      let node' : Sub (K × V) (suc h) = record node { pkv = set node.pkv idx x' } in
      let n' : IsNode root.m_fork h node' = record {
        room = record {
          room_keys = length-set node.pkv idx x' ∙ n.room.room_keys;
          room_kids = n.room.room_kids;
          fits = n.room.fits;
        };
        kids = n.kids;
      } in
      let l1 = lefts h p ++ weave f (take idx ks) (take (idx + 1) cs) in
      let w2 = weave f (drop (idx + 1) ks) (drop (idx + 1) cs) in
      let inside : idx < length ks = omega (arith, shown.used) in
      let earlier : entries root.first ≡ l1 ++ x ∷ (w2 ++ rights h p) =
        all
        ∙ ap (λ c. lefts h p ++ (c ++ rights h p)) (weave-cut f idx ks cs kv shown.one_more inside)
        ∙ around (lefts h p) (weave f (take idx ks) (take (idx + 1) cs)) (get_or ks idx kv) w2
            (rights h p)
        ∙ ap (λ y. l1 ++ y ∷ (w2 ++ rights h p)) (get_or-take node.cnt_used node.pkv idx kv l) in
      let later : lefts h p ++ (contents (suc h) node' ++ rights h p)
          ≡ l1 ++ x' ∷ (w2 ++ rights h p) =
        ap (λ c. lefts h p ++ (weave f c cs ++ rights h p)) (take-set node.cnt_used idx node.pkv x')
        ∙ ap (λ c. lefts h p ++ (c ++ rights h p))
            (weave-set_key f idx ks cs x' shown.one_more inside)
        ∙ around (lefts h p) (weave f (take idx ks) (take (idx + 1) cs)) x' w2 (rights h p) in
      let asc = subst (IsAscending kc) earlier v.ascending in
      let low_part =
        IsBelow-equal kc ord x.0 kv.0 l1 (hit kv)
          (IsBelow-of_ascending kc l1 x (w2 ++ rights h p) asc) in
      let same : x ≡ e = ground (arith, found kv, old) in
      rw
        (
          load-ok node.pkv idx kv (omega (arith, n.room.room_keys, n.room.fits)),
          store-ok node.pkv idx x' (omega (arith, n.room.room_keys, n.room.fits)),
        )
        (Returns-bind (plug-Whole root.m_fork h node' p n' low q) λ t w. returns (record {
          valid = record {
            positive = v.positive;
            small = v.small;
            shape = (w.filled, w.node);
            ascending =
                subst (IsAscending kc) (sym (w.all ∙ later))
                  (IsAscending-reset kc l1 x kv.1 (w2 ++ rights h p) asc);
            counted = omega (
              arith,
              v.counted,
              ap length earlier,
              ap length (w.all ∙ later),
              length-append l1 (x ∷ (w2 ++ rights h p)),
              length-append l1 (x' ∷ (w2 ++ rights h p)),
            );
          };
          all =
              w.all
              ∙ later
              ∙ sym (reset-between kv.0 kv.1 l1 x (w2 ++ rights h p) low_part (hit kv))
              ∙ ap (reset kc kv.0 kv.1) (sym earlier);
          handed_back = ap (λ y. (kv.0, y.1)) same;
          success = refl;
        }))

  -- On a key that the tree has, with `b_update`, tl_btree_insert returns 0, gives the stored value back
  -- and leaves a valid tree in which the entry has the new value.
  pub insert_exchanges :
      (root : Root (K × V)) (kv e zeroes : K × V) (alloc : ℕ → Bool)
      → IsBtree kc root
      → find kc kv.0 (entries root.first) ≡ some e
      → Returns (Updated root kv e) (insert kc zeroes alloc root kv true)
  unfolding insert
  insert_exchanges root kv e zeroes alloc v old =
      Returns-bind (locate_key-Found kc ord root.m_fork kv.0 v.small root v refl)
        λ loc at. update-Updated root kv e loc v at old zeroes alloc
