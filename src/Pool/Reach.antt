-- ===== src/Pool/Reach.antt =====
-- The pools that a program can reach: a new one, and what tl_pool_alloc and tl_pool_free leave.
use common_tool.Base.{ℕ, ◌+◌, ◌-◌, ◌^◌, ◌<◌, ◌≡◌, ◌≢◌, Option, some, ok}
use common_tool.Pool.{Pool, Spot, used, locate, head_s}
use common_tool.Pool.Free.{free}
use common_tool.Pool.Alloc.{alloc}
use common_tool.Pool.Alloc.Fresh.{Fresh}
use common_tool.Pool.Calls.{init}

-- Each step is a call that returned. `system` is what tl_memalign answers during the call.
pub data Reachable : Pool → Type 0 where
  made : (at : ℕ) (p : Pool) → init (some at) ≡ ok (some p) → Reachable p
  allocated :
      (system : ℕ → Option ℕ) (p q : Pool) (acts : ℕ) (addr : Option ℕ)
      → Reachable p
      → Fresh system p
      → acts ≢ 0
      → acts + 2 ^ 7 < 2 ^ 32
      → alloc system p acts ≡ ok (q, addr)
      → Reachable q
  given_back :
      (p q : Pool) (addr n : ℕ) (s : Spot)
      → Reachable p
      → addr ≢ 0
      → locate (addr - head_s) p.blks ≡ some s
      → s.tag ≡ used n
      → free p addr ≡ ok q
      → Reachable q
