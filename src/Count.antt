-- ===== src/Count.antt =====
-- The wide counter of trunk/src/tl_count.c: TL_COUNT_LEVEL 32-bit limbs, the lowest first, behind
-- the lock of `Lock`. The loops over the limbs are written for any number of them.
pub mod Sums
mod Tests
use common_tool.Base.{
  ℕ, ◌+◌, ◌-◌, ◌*◌, ◌%◌, ◌^◌, Bool, true, false, Option, none, some, List, [], ◌∷◌, ltb, ◌==◌, ◌||◌,
  if◌then◌else◌,
}
use common_tool.Lock
use common_tool.Lock.{on_round, off_value}

abbrev pub limb : ℕ
limb = 2 ^ 32

-- `TL_COUNT_LEVEL`
abbrev pub level : ℕ
level = 2

pub record Count : Type 0 where
  pub lock : ℕ
  pub e : List ℕ

-- The limbs after a loop, and whether `tl_error` reported an overflow of the last one.
pub record Limbs : Type 0 where
  pub limbs : List ℕ
  pub overflow : Bool

abbrev pub below : ℕ → Limbs → Limbs
below x r = record { limbs = x ∷ r.limbs; overflow = r.overflow }

-- The carry into the next limb, or the report that there is none.
abbrev pub carry : List ℕ → Limbs
carry [] = record { limbs = []; overflow = true }
carry (y ∷ ys) = record { limbs = ((y + 1) % limb) ∷ ys; overflow = false }

abbrev pub borrow : List ℕ → Limbs
borrow [] = record { limbs = []; overflow = true }
borrow (y ∷ ys) = record { limbs = ((y + limb - 1) % limb) ∷ ys; overflow = false }

abbrev pub reported : Bool → Limbs → Limbs
reported b r = if b then record r { overflow = true } else r

-- The loop of `tl_count_add`, from the limb `i` on: a zero summand is passed over, and a sum below
-- the old limb has wrapped round.
pub add_loop : List ℕ → List ℕ → Limbs
add_loop [] ds = record { limbs = []; overflow = false }
add_loop (x ∷ xs) [] = record { limbs = x ∷ xs; overflow = false }
add_loop (x ∷ xs) (d ∷ ds) =
    let sum = (x + d) % limb in
    let wrapped = if d == 0 then false else ltb sum x in
    let next = if wrapped then carry xs else record { limbs = xs; overflow = false } in
    below (if d == 0 then x else sum) (reported next.overflow (add_loop next.limbs ds))

-- The loop of `tl_count_sub`, from the limb `i` on.
pub sub_loop : List ℕ → List ℕ → Limbs
sub_loop [] ds = record { limbs = []; overflow = false }
sub_loop (x ∷ xs) [] = record { limbs = x ∷ xs; overflow = false }
sub_loop (x ∷ xs) (d ∷ ds) =
    let short = if d == 0 then false else ltb d x in
    let next = if short then borrow xs else record { limbs = xs; overflow = false } in
    let left = if d == 0 then x else if short then 0 else (x + limb - d) % limb in
    below left (reported next.overflow (sub_loop next.limbs ds))

-- `tl_lock_on` by a thread that runs alone: on a taken lock it does not return.
pub lock_on : ℕ → Option ℕ
lock_on l = let (done, l') = on_round l l in if done then some l' else none

-- `tl_count_deserialize` returns 0 and writes nothing, so the summands are what the array `ele`
-- holds on the stack: here the argument `ele`, in place of the text that is not read.
abbrev deserialize : List ℕ → Option (List ℕ)
deserialize ele = some ele

-- A call under the lock. `none` is a call that waits for ever; otherwise the counter, whether an
-- overflow was reported, and 0 or -1 as a success or a failure.
pub locked : (List ℕ → List ℕ → Limbs) → Count → List ℕ → Option (Count × Bool × Bool)
locked loop c ele = elim (deserialize ele) [
  | none ↦ some (c, false, false)
  | some ds ↦ elim (lock_on c.lock) [
    | none ↦ none
    | some l ↦
        let r = loop c.e ds in some (record { lock = off_value l; e = r.limbs }, r.overflow, true)
  ]
]

pub add : Count → List ℕ → Option (Count × Bool × Bool)
add = locked add_loop

pub sub : Count → List ℕ → Option (Count × Bool × Bool)
sub = locked sub_loop

-- `tl_count_inc` and `tl_count_dec` pass the text "1", which is not read either.
pub inc : Count → List ℕ → Option (Count × Bool × Bool)
inc = add

pub dec : Count → List ℕ → Option (Count × Bool × Bool)
dec = sub

-- `tl_count_set` fills a local array and leaves the counter alone.
pub set_text : Count → List ℕ → Count
set_text c text = c

-- `tl_count_init` frees the lock and calls `tl_count_set`.
pub init : Count → List ℕ → Count
init c text = set_text (record c { lock = Lock.init }) text

-- The comparisons that tl_count.h names, by their numbers.
abbrev c_eq : ℕ
c_eq = 1

abbrev c_lt : ℕ
c_lt = 2

-- `tl_count_cmp` compares nothing; `none` is the failed assertion.
pub cmp : ℕ → Count → Count → Option Bool
cmp type c1 c2 = if type == c_eq || type == c_lt then some false else none
