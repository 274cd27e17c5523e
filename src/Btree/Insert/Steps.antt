-- ===== src/Btree/Insert/Steps.antt =====
-- insert_2 and insert_3 of trunk/src/tl_btree2.c on a node with its subtrees.
use common_tool.Base.{
  ℕ, zero, suc, ◌+◌, ◌-◌, ◌≤◌, ◌<◌, ◌≡◌, refl, sym, ◌∙◌, ap, ap₂, true, List, ◌∷◌, ◌++◌, Option,
  none, some, arith, length, set, take, drop, replicate, length-take, length-drop, Returns,
  Returns-map,
}
use common_tool.Btree.{Node, Sub, minc, alloc_node}
use common_tool.Btree.Arrays.{insert_at, length-insert_at}
use common_tool.Btree.Shows.{spread}
use common_tool.Btree.Contents.{below, weave, before, after, contents, weave-spread, weave-cut}
use common_tool.Btree.Invariant.{
  All, IsKid, IsNode, Shows-Room, All-set, All-insert_at, All-take, All-drop, Room-Shows,
  Shows-IsNode, contents-Shows,
}
use common_tool.Btree.Insert.{insert_2, insert_3}
use common_tool.Btree.Insert.Entry.{insert_2-Shows}
use common_tool.Btree.Insert.Halves.{minc-IsMiddle}
use common_tool.Btree.Insert.Spread.{length-spread}
use common_tool.Btree.Insert.Split.{split-Halves}

-- The entries of a node with `kv` between the children `pl` and `pr` at the place `idx`.
abbrev pub widened :
    {A : Type 0} (h : ℕ) → Sub A (suc h) → ℕ → A → Option (Sub A h) → Option (Sub A h) → List A
widened h node idx kv pl pr =
    before (contents h) idx (take node.cnt_used node.pkv) (take (node.cnt_used + 1) node.pc)
    ++ ((below (contents h) pl ++ kv ∷ below (contents h) pr)
        ++ after (contents h) idx (take node.cnt_used node.pkv) (take (node.cnt_used + 1) node.pc))

-- What insert_2 leaves.
pub record Widened {A : Type 0} (fork h before_used : ℕ) (xs : List A) (node' : Sub A (suc h))
    : Type 0 where
  pub used : node'.cnt_used ≡ before_used + 1
  pub node : IsNode fork h node'
  pub all : contents (suc h) node' ≡ xs

-- What insert_3 leaves: two nodes at least half full, and the entry between them.
pub record Parted {A : Type 0} (fork h : ℕ) (xs : List A) (r : A × Sub A (suc h) × Sub A (suc h))
    : Type 0 where
  pub left : IsKid A fork (suc h) (some r.1)
  pub right : IsKid A fork (suc h) (some r.2)
  pub all : contents (suc h) r.1 ++ r.0 ∷ contents (suc h) r.2 ≡ xs

pub length-replicate {ℓ} : {A : Type ℓ} (n : ℕ) (a : A) → length (replicate n a) ≡ n
length-replicate zero a = refl
length-replicate (suc n) a = omega (arith, length-replicate n a)

pub alloc_node-ok :
    {A : Type 0} {C : Type 0} (zeroes : A) (fork : ℕ)
    → alloc_node {C = C} true zeroes fork
      ≡ some (record { cnt_used = 0; pkv = replicate fork zeroes; pc = replicate (fork + 1) none })
unfolding alloc_node
alloc_node-ok zeroes fork = refl

module _ {A : Type 0} (fork h : ℕ) (node : Sub A (suc h)) (idx : ℕ) (kv : A)
    (pl pr : Option (Sub A h)) (n : IsNode fork h node) (k : idx ≤ node.cnt_used)
    (l : IsKid A fork h pl) (r : IsKid A fork h pr) where
  spread-All : All (IsKid A fork h) (spread idx pl pr (take (node.cnt_used + 1) node.pc))
  spread-All =
      All-insert_at (IsKid A fork h) (idx + 1) (set (take (node.cnt_used + 1) node.pc) idx pl) pr
        (All-set (IsKid A fork h) idx (take (node.cnt_used + 1) node.pc) pl n.kids l) r

  weave-widened :
      weave
        (contents h)
        (insert_at idx kv (take node.cnt_used node.pkv))
        (spread idx pl pr (take (node.cnt_used + 1) node.pc))
      ≡ widened h node idx kv pl pr
  weave-widened =
      let shown = Room-Shows fork node n.room in
      weave-spread (contents h) idx (take node.cnt_used node.pkv) (take (node.cnt_used + 1) node.pc)
        kv pl pr shown.one_more (omega (arith, shown.used))

  pub insert_2-Widened :
      node.cnt_used < fork
      → Returns
          (Widened fork h node.cnt_used (widened h node idx kv pl pr))
          (insert_2 node idx kv pl pr)
  insert_2-Widened room =
      let ks = take node.cnt_used node.pkv in
      let cs = take (node.cnt_used + 1) node.pc in
      let shown = Room-Shows fork node n.room in
      Returns-map
        (insert_2-Shows fork node ks cs idx kv pl pr shown (omega (arith, shown.used))
          (omega (arith, shown.used)))
        λ node' s. record {
          used = omega (arith, s.used, length-insert_at idx kv ks, shown.used);
          node = Shows-IsNode fork h node' (insert_at idx kv ks) (spread idx pl pr cs) s spread-All;
          all =
              contents-Shows fork h node' (insert_at idx kv ks) (spread idx pl pr cs) kv s
              ∙ weave-widened;
        }

  pub insert_3-Parted :
      (zeroes : A)
      → node.cnt_used ≡ fork
      → 1 ≤ fork
      → Returns
          (Parted fork h (widened h node idx kv pl pr))
          (insert_3 true zeroes fork node idx kv pl pr)
  unfolding insert_3
  insert_3-Parted zeroes is_full big =
      let ks = take node.cnt_used node.pkv in
      let cs = take (node.cnt_used + 1) node.pc in
      let pnew : Node A (Sub A h) = record {
        cnt_used = 0;
        pkv = replicate fork zeroes;
        pc = replicate (fork + 1) none;
      } in
      let ks' = insert_at idx kv ks in
      let cs' = spread idx pl pr cs in
      let at = minc fork - 1 in
      let shown = Room-Shows fork node n.room in
      let mid = minc-IsMiddle fork big in
      rw (alloc_node-ok zeroes fork) (
        Returns-map
          (split-Halves fork pnew node ks cs idx kv pl pr shown (omega (arith, shown.used)) big
            (omega (arith, shown.used)) (length-replicate fork zeroes)
            (length-replicate (fork + 1) none) refl)
          λ (sep, m, m') s. record {
            left = (
              omega (
                arith,
                s.lower.used,
                length-take at ks',
                length-insert_at idx kv ks,
                shown.used,
                mid.inside,
              ),
              Shows-Room fork m (take at ks') (take (at + 1) cs') s.lower,
              (Shows-IsNode fork h m (take at ks') (take (at + 1) cs') s.lower
                  (All-take (IsKid A fork h) (at + 1) cs' spread-All)).kids,
            );
            right = (
              omega (
                arith,
                s.upper.used,
                length-drop (at + 1) ks',
                length-insert_at idx kv ks,
                shown.used,
                mid.positive,
                mid.inside,
                mid.upper,
              ),
              Shows-Room fork m' (drop (at + 1) ks') (drop (at + 1) cs') s.upper,
              (Shows-IsNode fork h m' (drop (at + 1) ks') (drop (at + 1) cs') s.upper
                  (All-drop (IsKid A fork h) (at + 1) cs' spread-All)).kids,
            );
            all =
                ap₂ (λ a b. a ++ sep ∷ b)
                  (contents-Shows fork h m (take at ks') (take (at + 1) cs') kv s.lower)
                  (contents-Shows fork h m' (drop (at + 1) ks') (drop (at + 1) cs') kv s.upper)
                ∙ ap
                    (λ x.
                      weave (contents h) (take at ks') (take (at + 1) cs')
                      ++ x ∷ weave (contents h) (drop (at + 1) ks') (drop (at + 1) cs'))
                    (sym s.between)
                ∙ sym (
                    weave-cut (contents h) at ks' cs' sep
                      (omega (
                        arith,
                        shown.one_more,
                        shown.used,
                        length-insert_at idx kv ks,
                        length-spread idx pl pr cs,
                      ))
                      (omega
                        (arith, length-insert_at idx kv ks, shown.used, mid.positive, mid.inside)))
                ∙ weave-widened;
          })
