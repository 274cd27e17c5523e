-- ===== src/Queue.antt =====
-- The queue of trunk/src/tl_queue.c: a chain of arrays from `h` to `t`, of which each holds the
-- entries from `s` to `e`, and a list of used up arrays to take again. `h` and `t` are the ends of
-- `chain`, and NULL where it is empty. An entry that was never written is `none`.
pub mod Fifo
pub mod Take
mod Tests
use common_tool.Base.{
  ℕ, ◌+◌, ◌-◌, Bool, true, false, Option, none, some, List, [], ◌∷◌, ◌++◌, ◌==◌, if◌then◌else◌,
  replicate, Run, ok, fault, ◌>>=◌, load, store,
}

-- `tl_queue_list_t`
pub record Chunk {ℓ} (A : Type ℓ) : Type ℓ where
  pub container : List (Option A)
  pub size : ℕ
  pub s : ℕ
  pub e : ℕ

-- `tl_queue_t`
pub record Queue {ℓ} (A : Type ℓ) : Type ℓ where
  pub size : ℕ
  pub chain : List (Chunk A)
  pub f : List (Chunk A)

-- The size of a new array.
abbrev pub chunk_size : ℕ
chunk_size = 512

-- `tl_queue_init`; `none` is NULL.
pub init {ℓ} : {A : Type ℓ} → Bool → Option (Queue A)
init calloc_ok = if calloc_ok then some (record { size = 0; chain = []; f = [] }) else none

module _ {ℓ} {A : Type ℓ} where
  -- `newList`: the array, and what is left of `f`. `alloc_ok` says whether `calloc` and `malloc` find
  -- memory.
  pub new_list : Bool → ℕ → List (Chunk A) → Option (Chunk A × List (Chunk A))
  new_list alloc_ok size (c ∷ f) = some (record c { s = 0; e = 0 }, f)
  new_list alloc_ok size [] =
      if alloc_ok
      then some (record { container = replicate size none; size = size; s = 0; e = 0 }, [])
      else none

  -- The `memcpy` at the end of `tl_queue_push`, and `t->e ++`.
  pub put : Chunk A → A → Run (Chunk A)
  put t ele = store t.container t.e (some ele) >>= λ b. ok (record t { container = b; e = t.e + 1 })

  -- A new array at the end of the chain, with the entry.
  pub push_new : Bool → List (Chunk A) → A → Run (List (Chunk A) × List (Chunk A) × Bool)
  push_new alloc_ok f ele = elim (new_list alloc_ok chunk_size f) [
    | none ↦ ok ([], f, false)
    | some (t, f') ↦ put t ele >>= λ t'. ok (t' ∷ [], f', true)
  ]

  -- The walk from `h` to `t`, the chain and `f` afterwards, and whether there was memory. A `t` that
  -- is full gets a successor.
  pub push_chain :
      Bool → List (Chunk A) → List (Chunk A) → A → Run (List (Chunk A) × List (Chunk A) × Bool)
  push_chain alloc_ok [] f ele = push_new alloc_ok f ele
  push_chain alloc_ok (t ∷ []) f ele =
      if t.e == t.size
      then (push_new alloc_ok f ele >>= λ r. ok (t ∷ r.0, r.1, r.2))
      else (put t ele >>= λ t'. ok (t' ∷ [], f, true))
  push_chain alloc_ok (c ∷ d ∷ cs) f ele =
      push_chain alloc_ok (d ∷ cs) f ele >>= λ r. ok (c ∷ r.0, r.1, r.2)

  -- `tl_queue_push`: the queue, and whether 0 is returned.
  pub push : Bool → Queue A → A → Run (Queue A × Bool)
  push alloc_ok q ele = push_chain alloc_ok q.chain q.f ele >>= λ (chain, f, done).
      ok (record { size = if done then q.size + 1 else q.size; chain = chain; f = f }, done)

  -- The part of `tl_queue_pop` at `h`. With `h` the last array, `tl_assert` wants the last entry.
  pub pop_chain : ℕ → List (Chunk A) → List (Chunk A) → Run (List (Chunk A) × List (Chunk A))
  pop_chain size [] f = fault
  pop_chain size (c ∷ cs) f =
      let c' : Chunk A = record c { s = c.s + 1 } in
      let gone : Run (List (Chunk A) × List (Chunk A)) = elim cs [
        | [] ↦ if size == 1 then ok ([], c' ∷ f) else fault
        | d ∷ ds ↦ ok (d ∷ ds, c' ∷ f)
      ] in
      if c.e == c.s + 1 then gone else ok (c' ∷ cs, f)

  -- `tl_queue_pop`.
  pub pop : Queue A → Run (Queue A)
  pop q =
      let cut = pop_chain q.size q.chain q.f >>= λ (chain, f).
      ok (record { size = q.size - 1; chain = chain; f = f }) in
      if q.size == 0 then ok q else cut

  -- `tl_queue_size`.
  pub size : Queue A → ℕ
  size q = q.size

  pub first : List (Chunk A) → Run (Option A)
  first [] = fault
  first (c ∷ cs) = load c.container c.s

  -- `tl_queue_top`: what the returned pointer points at, if it is not NULL.
  pub top : Queue A → Run (Option (Option A))
  top q = let found = first q.chain >>= λ x. ok (some x) in if q.size == 0 then ok none else found
