-- ===== src/Pool/Calls/Apart.antt =====
-- Where the memory lies that tl_pool_alloc of trunk/src/tl_pool.c hands out.
use common_tool.Base.{ℕ, ◌+◌, ◌≤◌, ◌⊎◌, Option, none, some}
use common_tool.Pool.{Pool, head_s}
use common_tool.Pool.Alloc.Fresh.{Fresh}

-- NULL, or `acts` bytes behind a head, which end before the tag of `m` bytes at `c` begins or whose
-- head begins after it.
abbrev pub Beside : ℕ → ℕ → ℕ → Pool × Option ℕ → Type 0
Beside acts c m (q, none) = Unit
Beside acts c m (q, some addr) = (addr + acts ≤ c) ⊎ (c + m + head_s ≤ addr)
