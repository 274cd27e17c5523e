-- ===== src/Btree/Tests.antt =====
-- Small trees of numbers over trunk/src/tl_btree2.c.
use common_tool.Base.{
  ℕ, zero, suc, ◌≡◌, refl, arith, Bool, true, false, [], ◌∷◌, Option, none, some, ok, Returns,
}
use common_tool.Samples.{nat_cmp, nat_cmp-IsOrder}
use common_tool.Rbtree.Ascending.{find}
use common_tool.Btree.{Root, Sub, top, under}
use common_tool.Btree.Cursor.{Cursor, next, prev}
use common_tool.Btree.Cursor.Stands.{Stands, Steps}
use common_tool.Btree.Cursor.Walk.{next_at_entry-Steps}
use common_tool.Btree.Cursor.Back.{StepsBack, prev_at_entry-StepsBack}
use common_tool.Btree.Invariant.{IsBtree, IsNode, Room}
use common_tool.Btree.Locate.{query}
use common_tool.Btree.Locate.Query.{query_matches_find}
use common_tool.Btree.Insert.{insert}
use common_tool.Btree.Insert.Update.{Updated, insert_exchanges}
use common_tool.Btree.Insert.Lost.{insert-lost}
use common_tool.Btree.Insert.Main.{Inserted, insert_puts}

-- A full leaf of the keys 2 and 5, two entries to a node.
abbrev full_leaf : Root (ℕ × ℕ)
full_leaf = record {
  m_fork = 2;
  first =
      some (0, record { cnt_used = 2; pkv = (2, 20) ∷ (5, 50) ∷ []; pc = none ∷ none ∷ none ∷ [] });
  cnt_key = 2;
}

full_leaf-IsBtree : IsBtree nat_cmp full_leaf
full_leaf-IsBtree = record {
  positive = omega arith;
  small = omega arith;
  shape = (
    omega arith,
    record {
      room = record { room_keys = refl; room_kids = refl; fits = omega arith };
      kids = (tt, (tt, (tt, tt)));
    },
  );
  ascending = ((refl, tt), (tt, tt));
  counted = refl;
}

query_matches_find_example : query nat_cmp full_leaf (5, 0) ≡ ok ((5, 50), true)
unfolding find
query_matches_find_example =
    query_matches_find nat_cmp nat_cmp-IsOrder full_leaf (5, 0) full_leaf-IsBtree

insert_puts_example :
    Returns
      (Inserted nat_cmp nat_cmp-IsOrder (0, 0) (λ h. true) (λ h. refl) full_leaf (3, 30))
      (insert nat_cmp (0, 0) (λ h. true) full_leaf (3, 30) false)
unfolding find
insert_puts_example =
    insert_puts nat_cmp nat_cmp-IsOrder (0, 0) (λ h. true) (λ h. refl) full_leaf (3, 30) false
      full_leaf-IsBtree refl

insert_exchanges_example :
    Returns
      (Updated nat_cmp nat_cmp-IsOrder full_leaf (5, 9) (5, 50))
      (insert nat_cmp (0, 0) (λ h. true) full_leaf (5, 9) true)
unfolding find
insert_exchanges_example =
    insert_exchanges nat_cmp nat_cmp-IsOrder full_leaf (5, 9) (5, 50) (0, 0) (λ h. true)
      full_leaf-IsBtree refl

-- Memory for a new leaf, but not for a node above it.
abbrev scarce : ℕ → Bool
scarce zero = true
scarce (suc h) = false

insert-lost_example :
    insert nat_cmp (0, 0) scarce full_leaf (3, 30) false
    ≡ ok (record { m_fork = 2; first = none; cnt_key = 2 }, (3, 30), false)
unfolding find
insert-lost_example =
    insert-lost nat_cmp nat_cmp-IsOrder (0, 0) scarce 2 2
      (record { cnt_used = 2; pkv = (2, 20) ∷ (5, 50) ∷ []; pc = none ∷ none ∷ none ∷ [] }) (3, 30)
      false full_leaf-IsBtree refl refl refl refl

-- The keys 2, 5 and 8: a root of one entry over two leaves.
abbrev low_leaf : Sub (ℕ × ℕ) 1
low_leaf = record { cnt_used = 1; pkv = (2, 20) ∷ (0, 0) ∷ []; pc = none ∷ none ∷ none ∷ [] }

abbrev high_leaf : Sub (ℕ × ℕ) 1
high_leaf = record { cnt_used = 1; pkv = (8, 80) ∷ (0, 0) ∷ []; pc = none ∷ none ∷ none ∷ [] }

abbrev over_two : Sub (ℕ × ℕ) 2
over_two = record {
  cnt_used = 1;
  pkv = (5, 50) ∷ (0, 0) ∷ [];
  pc = some low_leaf ∷ some high_leaf ∷ none ∷ [];
}

abbrev at_two : Cursor (ℕ × ℕ)
at_two = record { height = 0; ploc = low_leaf; path = under over_two 0 top; idx_key = 0 }

two_entries :
    {C : Type 0} (e : ℕ × ℕ) (a b c : Option C)
    → Room 2 (record { cnt_used = 1; pkv = e ∷ (0, 0) ∷ []; pc = a ∷ b ∷ c ∷ [] })
two_entries e a b c = record { room_keys = refl; room_kids = refl; fits = omega arith }

over_two-IsNode : IsNode 2 1 over_two
over_two-IsNode = record {
  room = two_entries (5, 50) (some low_leaf) (some high_leaf) none;
  kids = (
    (omega arith, two_entries (2, 20) none none none, (tt, (tt, tt))),
    ((omega arith, two_entries (8, 80) none none none, (tt, (tt, tt))), tt),
  );
}

at_two-Stands : Stands 2 [] (2, 20) ((5, 50) ∷ (8, 80) ∷ []) at_two
at_two-Stands = record {
  place = record {
    whole = record { room = two_entries (2, 20) none none none; kids = (tt, (tt, tt)) };
    low = omega arith;
    way = (over_two-IsNode, omega arith, omega arith, tt);
    linked = (refl, tt);
  };
  within = omega arith;
  entry = λ d. refl;
  front = refl;
  back = refl;
}

next_at_entry-Steps_example :
    Returns (Steps 2 ((2, 20) ∷ []) ((5, 50) ∷ (8, 80) ∷ [])) (next at_two)
next_at_entry-Steps_example =
    next_at_entry-Steps 2 at_two [] (2, 20) ((5, 50) ∷ (8, 80) ∷ []) (omega arith) at_two-Stands

prev_at_entry-StepsBack_example :
    Returns (StepsBack 2 [] ((2, 20) ∷ (5, 50) ∷ (8, 80) ∷ [])) (prev at_two)
prev_at_entry-StepsBack_example =
    prev_at_entry-StepsBack 2 at_two [] (2, 20) ((5, 50) ∷ (8, 80) ∷ []) (omega arith) at_two-Stands
