-- ===== src/Btree/Insert/NewRoot.antt =====
-- The new root that insert_1 of trunk/src/tl_btree2.c makes.
use common_tool.Base.{
  ℕ, ◌+◌, ◌≤◌, ◌≡◌, refl, ◌∙◌, Bool, true, List, [], ◌∷◌, ◌++◌, Option, none, some, arith, length,
  set, replicate, length-set, get_or-set, Returns, returns, store-ok,
}
use common_tool.Btree.{Node, Sub, Tree, alloc_node}
use common_tool.Btree.Shows.{Shows}
use common_tool.Btree.Contents.{below, contents}
use common_tool.Btree.Invariant.{IsKid, Shows-IsNode, contents-Shows}
use common_tool.Btree.Plug.{Whole}
use common_tool.Btree.Insert.{new_root}
use common_tool.Btree.Insert.Steps.{length-replicate}

-- 0 is returned, and the tree has the entries `xs`.
pub record Grown {A : Type 0} (fork : ℕ) (xs : List A) (r : Option (Tree A) × Bool) : Type 0 where
  pub tree : Tree A
  pub first : r.0 ≡ some tree
  pub whole : Whole fork xs tree
  pub success : r.1 ≡ true

module _ {A : Type 0} (zeroes : A) (fork : ℕ) (big : 1 ≤ fork) where
  pub new_root-Grown :
      (h : ℕ) (kv : A) (pl pr : Option (Sub A h))
      → IsKid A fork h pl
      → IsKid A fork h pr
      → Returns
          (Grown fork (below (contents h) pl ++ kv ∷ below (contents h) pr))
          (new_root true zeroes fork h kv pl pr)
  unfolding new_root alloc_node
  new_root-Grown h kv pl pr l r =
      let pkv = replicate fork zeroes in
      let pc : List (Option (Sub A h)) = replicate (fork + 1) none in
      let len : length pkv ≡ fork = length-replicate fork zeroes in
      let len' : length pc ≡ fork + 1 = length-replicate (fork + 1) none in
      let node : Node A (Sub A h) = record {
        cnt_used = 1;
        pkv = set pkv 0 kv;
        pc = set (set pc 0 pl) 1 pr;
      } in
      let s : Shows fork node (kv ∷ []) (pl ∷ pr ∷ []) = record {
        room_keys = length-set pkv 0 kv ∙ len;
        room_kids = length-set (set pc 0 pl) 1 pr ∙ length-set pc 0 pl ∙ len';
        used = refl;
        one_more = refl;
        fits = big;
        keys = λ j d p. ground (arith, get_or-set pkv 0 j kv d);
        kids = λ j d p.
            ground (
              arith,
              get_or-set (set pc 0 pl) 1 j pr d,
              length-set pc 0 pl,
              get_or-set pc 0 j pl d,
            );
      } in
      rw
        (
          store-ok pkv 0 kv (omega arith),
          store-ok pc 0 pl (omega arith),
          store-ok (set pc 0 pl) 1 pr (omega (arith, length-set pc 0 pl)),
        )
        (returns (record {
          tree = (h, node);
          first = refl;
          whole = record {
            filled = omega arith;
            node = Shows-IsNode fork h node (kv ∷ []) (pl ∷ pr ∷ []) s (l, (r, tt));
            all = contents-Shows fork h node (kv ∷ []) (pl ∷ pr ∷ []) kv s;
          };
          success = refl;
        }))
