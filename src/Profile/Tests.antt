-- ===== src/Profile/Tests.antt =====
-- The profiler with one name it knows.
use common_tool.Base.{ℕ, refl, [], ◌∷◌, none, some, ◌>>=◌, Returns, arith, inr}
use common_tool.Rbtree.{leaf, node, black}
use common_tool.Samples.{nat_cmp, nat_cmp-IsOrder}
use common_tool.Profile.{Clock, Profile, start, end}
use common_tool.Profile.Names.{IsProfile, all_memory}
use common_tool.Profile.Pair.{Timed, start_then_end-Timed}

abbrev one_name : Profile ℕ
one_name = record {
  max_l = 3;
  cur_l = 0;
  total_l = 1;
  root = record { first = node black leaf (7, 0) leaf; cnt_key = 1 };
  items = record { cnt_call = 1; total = record { cpu = 5; sec = 0; usec = 999999 } } ∷ [];
  first = none;
  running = [];
  ended = [];
  fresh = 1;
}

one_name-IsProfile : IsProfile nat_cmp one_name
one_name-IsProfile = record {
  tree = record {
    shape = record { balanced = (tt, tt, refl); colored = (tt, tt, tt, tt); root = refl };
    ascending = (tt, tt);
    counted = refl;
  };
  known = (omega arith, tt);
  totals = (record { usec = omega arith; sec = omega arith }, tt);
}

abbrev before_it : Clock
before_it = record { cpu = 10; sec = 100; usec = 900000 }

abbrev after_it : Clock
after_it = record { cpu = 30; sec = 102; usec = 900000 }

start_then_end-Timed_example :
    Returns
      (Timed nat_cmp one_name 7 before_it after_it)
      (start nat_cmp one_name all_memory 7 (some before_it) >>= λ q. end q (some after_it))
start_then_end-Timed_example =
    start_then_end-Timed nat_cmp one_name 7 before_it after_it nat_cmp-IsOrder one_name-IsProfile
      (inr (omega arith)) (omega arith) (record { usec = omega arith; sec = omega arith })
      (record { usec = omega arith; sec = omega arith }) (omega arith)
