-- ===== src/Lock.antt =====
-- The spin lock of trunk/src/tl_lock.c over the atomics of trunk/include/tl_atomic.h: one 32-bit
-- word, whose highest bit says that the lock is taken, and whose other bits change at each release.
-- A thread is a program counter; each step is one atomic access, in any order of the threads.
pub mod Exclusion
mod Tests
use common_tool.Base.{
  ℕ, ◌+◌, ◌-◌, ◌%◌, ◌/◌, ◌^◌, Bool, true, false, List, [], ◌∷◌, ◌&&◌, ◌==◌, if◌then◌else◌,
}

-- `0X80000000 & o`, as 0 or 1.
abbrev pub high : ℕ → ℕ
high o = o / 2 ^ 31 % 2

-- `tl_atomic_cmp_set(l, o, s)` on a word `l`: whether it was set, and the word afterwards.
unfoldable pub cmp_set : ℕ → ℕ → ℕ → Bool × ℕ
cmp_set l o s = if l == o then (true, s) else (false, l)

-- The word that `tl_lock_init` writes.
abbrev pub init : ℕ
init = 0

-- One round of `tl_lock_on`, and `tl_lock_tryon`, from the value `o` that was read: the test of
-- the highest bit, then the exchange, which is not tried on a taken lock. Where the bit is clear,
-- `0X80000000 | o` adds it.
unfoldable pub on_round : ℕ → ℕ → Bool × ℕ
unfolding cmp_set
on_round o l = if high o == 0 then cmp_set l o (2 ^ 31 + o) else (false, l)

-- The word that `tl_lock_off` writes over `o`.
unfoldable pub off_value : ℕ → ℕ
off_value o = let w = o % 2 ^ 31 in if w == 0 then 2 ^ 31 - 1 else w - 1

-- One round of `tl_lock_off`.
unfoldable pub off_round : ℕ → ℕ → Bool × ℕ
unfolding cmp_set off_value
off_round o l = cmp_set l o (off_value o)

-- Where a thread stands: outside, at the top of a loop, holding the value that it read, or inside
-- the critical section.
pub data Pc : Type 0 where
  idle on_top try_top critical off_top : Pc
  on_read try_read off_read : ℕ → Pc

-- The next atomic access of a thread at `p`, with the word `l`.
unfoldable pub advance : Pc → ℕ → Pc × ℕ
unfolding on_round off_round
advance idle l = (idle, l)
advance critical l = (critical, l)
advance on_top l = (on_read l, l)
advance try_top l = (try_read l, l)
advance off_top l = (off_read l, l)
advance (on_read o) l = let (done, l') = on_round o l in (if done then critical else on_top, l')
advance (try_read o) l = let (done, l') = on_round o l in (if done then critical else idle, l')
advance (off_read o) l = let (done, l') = off_round o l in (if done then idle else off_top, l')

-- What the scheduler may do with a thread: let it call a function, or let it make its next access.
pub data Event : Type 0 where
  call_on call_try call_off access : Event

-- A call is made from outside the lock, and `tl_lock_off` from inside it.
unfoldable pub react : Event → Pc → ℕ → Pc × ℕ
unfolding advance
react access p l = advance p l
react call_on idle l = (on_top, l)
react call_try idle l = (try_top, l)
react call_off critical l = (off_top, l)
react _ p l = (p, l)

pub record System : Type 0 where
  pub word : ℕ
  pub pc : ℕ → Pc

abbrev pub update : (ℕ → Pc) → ℕ → Pc → ℕ → Pc
update f i p j = if i == j then p else f j

unfoldable pub step : System → ℕ × Event → System
unfolding react
step s (i, e) = let (p, l) = react e (s.pc i) s.word in record { word = l; pc = update s.pc i p }

-- All threads stand outside a new lock.
abbrev pub start : System
start = record { word = init; pc = λ _. idle }

unfoldable pub run : System → List (ℕ × Event) → System
unfolding step
run s [] = s
run s (e ∷ es) = run (step s e) es
