-- ===== src/Pool/Alloc/Main.antt =====
-- `tl_pool_alloc` as a whole: the invariant, and the used tags before and after.
use common_tool.Base.{ℕ, ◌+◌, ◌≡◌, Option, none, some}
use common_tool.Pool.{Pool, head_s}
use common_tool.Pool.Invariant.{IsPool}
use common_tool.Pool.Alloc.Part.{Taken}
use common_tool.Pool.Alloc.Answer.{Answer}
use common_tool.Pool.Alloc.Fresh.{Fresh}

module _ (sys : ℕ → Option ℕ) (p : Pool) (v : IsPool p) (fresh : Fresh sys p) where
  -- A tag of one of the rings was taken, or none was.
  abbrev Tried : ℕ → Option (Pool × ℕ) → Type 0
  Tried n none = Unit
  Tried n (some (q, addr)) = (a : ℕ) × (addr ≡ a + head_s) × Taken n p q a
