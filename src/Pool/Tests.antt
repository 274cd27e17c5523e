-- ===== src/Pool/Tests.antt =====
-- The pool on concrete inputs.
use common_tool.Base.{ℕ, ◌≡◌, inl, refl, [], ◌∷◌, Option, some, arith, Returns}
use common_tool.Pool.{
  used, unuse, Blk, Counters, Pool, Spot, put, locate, find_tag, size2idx, highest,
}
use common_tool.Pool.Invariant.{IsPool}
use common_tool.Pool.Free.{free}
use common_tool.Pool.Free.Block.{Freed}
use common_tool.Pool.Free.Main.{free-Freed}
use common_tool.Pool.Alloc.{alloc}
use common_tool.Pool.Alloc.Fresh.{Fresh}

-- A pool with a tag of 104 bytes in use in its own block.
abbrev some_counters : Counters
some_counters = record {
  cnt_alloc = 4096;
  cnt_inuse = 104;
  cnt_blk = 1;
  cnt_total_a = 1;
  cnt_l_fail = 0;
  cnt_s_fail_1 = 0;
  cnt_s_fail_2 = 0;
  cnt_l_hit = 0;
  cnt_s_hit_1 = 1;
  cnt_s_hit_2 = 0;
  cnt_s_hit_3 = 0;
  cnt_f_align = 0;
}

abbrev own_blk : Blk
own_blk = record { base = 288; size = 3808; tags = used 104 ∷ unuse 3680 ∷ [] }

abbrev one_used : Pool
one_used = record {
  cnt = some_counters;
  bkt = put (λ idx. []) 12 (416 ∷ []);
  home = 288;
  blks = own_blk ∷ [];
}

abbrev first_spot : Spot
first_spot = record {
  front = [];
  blk = own_blk;
  ls = [];
  tag = used 104;
  rs = unuse 3680 ∷ [];
  back = [];
}

-- A new pool, and the same after 100 bytes were asked for.
abbrev new_pool : Pool
new_pool = record {
  cnt = record some_counters { cnt_inuse = 0; cnt_total_a = 0; cnt_s_hit_1 = 0 };
  bkt = put (λ idx. []) 12 (4408 ∷ []);
  home = 4384;
  blks = record { base = 4384; size = 3808; tags = unuse 3784 ∷ [] } ∷ [];
}

abbrev used_pool : Pool
used_pool = record {
  cnt = record some_counters { cnt_inuse = 144 };
  bkt = put (put new_pool.bkt 12 []) 12 (4552 ∷ []);
  home = 4384;
  blks = record { base = 4384; size = 3808; tags = used 144 ∷ unuse 3640 ∷ [] } ∷ [];
}

-- A system that hands out one address.
abbrev one_address : ℕ → Option ℕ
one_address size = some 8192

class_12 : size2idx 3680 ≡ 12
unfolding size2idx highest
class_12 = refl

first_found : locate 312 one_used.blks ≡ some first_spot
unfolding locate find_tag
first_found = refl

one_used-IsPool : IsPool one_used
one_used-IsPool = record {
  blocks = (
    record {
      sized = refl;
      fits = omega arith;
      positive = (omega arith, (omega arith, tt));
      merged = (tt, tt);
      kind = inl (omega arith);
    },
    tt,
  );
  apart = (tt, tt);
  owned = refl;
  rings = λ b i. rw class_12 (ground arith);
  inuse = refl;
  alloc = refl;
  counted = refl;
}

free-Freed_example : Returns (Freed 312 104 one_used) (free one_used 344)
free-Freed_example =
    free-Freed one_used 344 104 first_spot one_used-IsPool (λ e. omega arith) first_found refl
