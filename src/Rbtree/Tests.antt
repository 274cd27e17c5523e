-- ===== src/Rbtree/Tests.antt =====
-- A tree of two entries over trunk/src/tl_rbtree.c.
use common_tool.Base.{ℕ, ◌≡◌, refl, true, false, [], ◌∷◌, ◌++◌, ok, Returns}
use common_tool.Rbtree.{Tree, leaf, node, red, black, right, Root}
use common_tool.Rbtree.Ascending.{find}
use common_tool.Rbtree.Invariant.{IsTree}
use common_tool.Rbtree.Locate.{query}
use common_tool.Rbtree.Locate.Query.{query_correct}
use common_tool.Rbtree.Insert.{insert}
use common_tool.Rbtree.Insert.Main.{Inserted, insert_correct, insert-present}
use common_tool.Rbtree.Cursor.{Cursor, next, prev, whole}
use common_tool.Rbtree.Cursor.Walk.{prior, later, Steps, next-Steps}
use common_tool.Rbtree.Cursor.Back.{StepsBack, prev-StepsBack}
use common_tool.Rbtree.Erase.{erase}
use common_tool.Rbtree.Erase.Main.{Erased, erase_correct}
use common_tool.Samples.{nat_cmp, nat_cmp-IsOrder}

-- The keys 2 and 5, with the values 20 and 50.
abbrev two_keys : Root (ℕ × ℕ)
two_keys = record { first = node black leaf (2, 20) (node red leaf (5, 50) leaf); cnt_key = 2 }

two_keys-IsTree : IsTree nat_cmp two_keys
two_keys-IsTree = record {
  shape = record {
    balanced = (tt, (tt, tt, refl), refl);
    colored = (tt, (tt, tt, refl, refl), tt, tt);
    root = refl;
  };
  ascending = ((refl, tt), (tt, tt));
  counted = refl;
}

query_correct_example : query nat_cmp two_keys (5, 0) ≡ ((5, 50), true)
unfolding find
query_correct_example = query_correct nat_cmp nat_cmp-IsOrder two_keys (5, 0) two_keys-IsTree

insert_correct_example :
    Returns
      (Inserted nat_cmp nat_cmp-IsOrder two_keys (7, 70))
      (insert nat_cmp two_keys true (7, 70) false)
unfolding find
insert_correct_example =
    insert_correct nat_cmp nat_cmp-IsOrder two_keys (7, 70) false two_keys-IsTree refl

insert-present_example : insert nat_cmp two_keys true (5, 9) true ≡ ok (two_keys, (5, 50), true)
unfolding find
insert-present_example =
    insert-present nat_cmp nat_cmp-IsOrder two_keys (5, 9) (5, 50) true true two_keys-IsTree refl

-- The cursor at the key 5.
abbrev at_five : Cursor (ℕ × ℕ)
at_five = record {
  tint = red;
  lc = leaf;
  entry = (5, 50);
  rc = leaf;
  path = right black leaf (2, 20) ∷ [];
}

next-Steps_example :
    Steps (whole at_five) (prior at_five ++ at_five.entry ∷ []) (later at_five) (next at_five)
next-Steps_example = next-Steps at_five

prev-StepsBack_example :
    StepsBack (whole at_five) (prior at_five) (at_five.entry ∷ later at_five) (prev at_five)
prev-StepsBack_example = prev-StepsBack at_five

-- A red node under a red node, keys out of order, and different heights.
abbrev unsound : Tree (ℕ × ℕ)
unsound =
    node black (node black (node red leaf (3, 0) (node red leaf (2, 0) leaf)) (1, 0) leaf) (0, 0)
      leaf

erase_correct_example :
    Returns (Erased nat_cmp nat_cmp-IsOrder two_keys (2, 0) (2, 20)) (erase nat_cmp two_keys (2, 0))
unfolding find
erase_correct_example =
    erase_correct nat_cmp nat_cmp-IsOrder two_keys (2, 0) (2, 20) two_keys-IsTree refl
