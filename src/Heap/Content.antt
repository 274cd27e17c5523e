-- ===== src/Heap/Content.antt =====
-- The object `tl_heap_t` of trunk/src/tl_heap.c and its methods. The comparison, `hp_raft` and the
-- allocator are parameters of each: they are fixed by `tl_heap_init`. `realloc` is the C library's.
pub mod Methods
pub mod Insert
pub mod Replace
use common_tool.Base.{
  ℕ, zero, suc, ◌+◌, ◌-◌, ◌≤◌, ◌<◌, ◌≡◌, Bool, true, false, Option, none, some, List, [], ltb, ◌==◌,
  if◌then◌else◌, ℤ, Run, ok, fault, ◌>>=◌, or_fault, load, store, length, take, min,
}
use common_tool.Heap.{increment, hp_down, hp_up}

-- `hp_cont` is `none` for NULL; only its first `used` entries count.
pub record Heap {ℓ} (A : Type ℓ) : Type ℓ where
  pub ele_cnt : ℕ
  pub cont : Option (List A)
  pub cnt : ℕ
  pub used : ℕ

-- `realloc(cont, n * size)` gives `none` for NULL, or `n` entries that begin with the old ones.
pub record IsRealloc {ℓ} {A : Type ℓ} (realloc : Option (List A) → ℕ → Option (List A))
    : Type ℓ where
  pub sized : (c : Option (List A)) (n : ℕ) (b : List A) → realloc c n ≡ some b → length b ≡ n
  pub kept :
      (a : List A) (n k : ℕ) (b : List A)
      → realloc (some a) n ≡ some b
      → k ≤ length a
      → k ≤ n
      → take k b ≡ take k a

-- `tl_heap_init`. With a pool the code reads `hp->hp_pool` through the NULL pointer `hp`; `none` is
-- the NULL that is returned when `malloc` fails.
pub init {ℓ} : {A : Type ℓ} → (pool malloc_ok : Bool) → ℕ → Run (Option (Heap A))
init true malloc_ok ele_cnt = fault
init false false ele_cnt = ok none
init false true ele_cnt = ok (some (record { ele_cnt = ele_cnt; cont = none; cnt = 0; used = 0 }))

-- `tl_heap_size`.
pub size {ℓ} : {A : Type ℓ} → Heap A → ℕ
size h = h.used

-- `tl_heap_top`: the entry that the returned pointer points at, if it is not NULL.
pub top {ℓ} : {A : Type ℓ} → Heap A → Run (Option A)
top h = if ltb 0 h.used then (do a ← or_fault h.cont; x ← load a 0; ok (some x)) else ok none

module _ {ℓ} {A : Type ℓ} (realloc : Option (List A) → ℕ → Option (List A)) where
  -- The first part of `tl_heap_add`: the heap, and whether there is room for one more entry. A
  -- failed `realloc` leaves NULL in `hp_cont` and the new count in `hp_cnt`.
  pub grow : Heap A → Heap A × Bool
  grow h =
      let cnt' = if ltb h.ele_cnt (h.cnt + increment) then h.ele_cnt else h.cnt + increment in
      let cont' = realloc h.cont cnt' in
      let h' : Heap A = record h { cont = cont'; cnt = cnt' } in
      if h.used == h.cnt
      then (if ltb h.cnt h.ele_cnt
          then (h', elim cont' [ none ↦ false | some _ ↦ true ])
          else (h, false))
      else (h, true)

module _ {ℓ} {A : Type ℓ} (kc : A → A → ℤ) (raft : Bool) where
  -- `tl_heap_add`: the heap, and whether 0 is returned.
  pub add : (Option (List A) → ℕ → Option (List A)) → Heap A → A → Run (Heap A × Bool)
  add realloc h v =
      let (h', room) = grow realloc h in
      let put : Run (Heap A × Bool) = do
        a ← or_fault h'.cont
        a' ← store a h'.used v
        (b, _) ← hp_up kc raft false a' h'.used
        ok (record h' { cont = some b; used = h'.used + 1 }, true)
      in if room then put else ok (h', false)

  -- `tl_heap_add_and_replace`.
  pub add_and_replace : Heap A → A → Run (Heap A)
  add_and_replace h v =
      let put : Run (Heap A) = do
        a ← or_fault h.cont
        a' ← store a 0 v
        (b, _) ← hp_down kc raft false h.used a' 0
        ok (record h { cont = some b })
      in if ltb 0 h.used then put else ok h

  -- `tl_heap_pop`: the heap, and the entry that is stored in `*v` where 0 is returned.
  pub pop : Heap A → Run (Heap A × Option A)
  pop h =
      let cut : Run (Heap A × Option A) = do
        a ← or_fault h.cont
        x ← load a 0
        let used' = h.used - 1
        last ← load a used'
        a' ← store a 0 last
        (b, _) ← hp_down kc raft false used' a' 0
        ok (record h { cont = some b; used = used' }, some x)
      in if ltb 0 h.used then cut else ok (h, none)
