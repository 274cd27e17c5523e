-- ===== src/Base/Results.antt =====
-- How a call ends, and the rules for calls that end well.
use mathlib.Core.Path.{◌≡◌, refl}
use mathlib.Core.Bool.{Bool, true, false}
use mathlib.Core.Option.{Option, none, some}
use mathlib.Core.List.{List}
use Prim.Native.Nat.{ℕ, ◌<◌}
use native.Mathlib.Omega.{arith}
use common_tool.Base.Tests.{if◌then◌else◌, ltb}
use common_tool.Base.Lists.{get_elem?, get_or, get_elem?-get_or, length, set}

-- A returned value; an access through NULL or outside an array, or a failed `tl_assert`; or the
-- model's fuel running out.
pub data Run {ℓ} (A : Type ℓ) : Type ℓ where
  ok : A → Run A
  fault out_of_fuel : Run A

abbrev pub ◌>>=◌ {ℓ κ} : {X : Type ℓ} {Y : Type κ} → Run X → (X → Run Y) → Run Y
out_of_fuel >>= next = out_of_fuel
fault >>= next = fault
ok x >>= next = next x

infixl 5 ◌>>=◌
abbrev pub or_fault {ℓ} : {A : Type ℓ} → Option A → Run A
or_fault (some a) = ok a
or_fault none = fault

-- `tl_assert`
abbrev pub require {ℓ} : {A : Type ℓ} → Bool → Run A → Run A
require true r = r
require false r = fault

-- `a[i]` as a value, and `a[i] = v`.
unfoldable pub load {ℓ} : {A : Type ℓ} → List A → ℕ → Run A
load a i = or_fault (get_elem? a i)

unfoldable pub store {ℓ} : {A : Type ℓ} → List A → ℕ → A → Run (List A)
store a i v = if ltb i (length a) then ok (set a i v) else fault

pub load-ok {ℓ} :
    {A : Type ℓ} (a : List A) (i : ℕ) (d : A) → i < length a → load a i ≡ ok (get_or a i d)
unfolding load
load-ok a i d h = rw (get_elem?-get_or a i d h)

pub store-ok {ℓ} :
    {A : Type ℓ} (a : List A) (i : ℕ) (v : A) → i < length a → store a i v ≡ ok (set a i v)
unfolding store
store-ok a i v h = let e : ltb i (length a) ≡ true = ground arith in rw e

-- The call returns, with a value that is `Good`.
pub data Returns {ℓ κ} {X : Type ℓ} (Good : X → Type κ) : Run X → Type (ℓ ⊔ κ) where
  returns : {x : X} → Good x → Returns Good (ok x)

-- A branch of the caller's choice.
pub Returns-if {ℓ κ} :
    {X : Type ℓ} {Good : X → Type κ} {then_run else_run : Run X} (b : Bool)
    → (b ≡ true → Returns Good then_run)
    → (b ≡ false → Returns Good else_run)
    → Returns Good (if b then then_run else else_run)
Returns-if false on_true on_false = on_false refl
Returns-if true on_true on_false = on_true refl

pub Returns-inv {ℓ κ} :
    {X : Type ℓ} {Good : X → Type κ} {call : Run X}
    → Returns Good call
    → (x : X) × (call ≡ ok x) × Good x
Returns-inv (returns {x} g) = (x, refl, g)

pub Returns-and {ℓ κ κ'} :
    {A : Type ℓ} {P : A → Type κ} {Q : A → Type κ'} {r : Run A}
    → Returns P r
    → ((a : A) → r ≡ ok a → Q a)
    → Returns (λ a. P a × Q a) r
Returns-and (returns {x} p) q = returns (p, q x refl)

-- Two calls in a row.
pub Returns-bind {ℓ κ ℓ' κ'} :
    {X : Type ℓ} {Good : X → Type κ} {Y : Type ℓ'} {Fine : Y → Type κ'} {call : Run X}
    {next : X → Run Y}
    → Returns Good call
    → ((x : X) → Good x → Returns Fine (next x))
    → Returns Fine (call >>= next)
Returns-bind (returns {x} g) go_on = go_on x g

-- A weaker claim about the value.
pub Returns-map {ℓ κ κ'} :
    {X : Type ℓ} {Good : X → Type κ} {Fine : X → Type κ'} {call : Run X}
    → Returns Good call
    → ((x : X) → Good x → Fine x)
    → Returns Fine call
Returns-map (returns {x} g) weaken = returns (weaken x g)

-- Inversion of a call that returns.
pub >>=-eq-ok {ℓ κ} :
    {A : Type ℓ} {B : Type κ} (r : Run A) (f : A → Run B) {b : B}
    → (r >>= f) ≡ ok b
    → (a : A) × (r ≡ ok a) × (f a ≡ ok b)
>>=-eq-ok (ok a) f h = (a, refl, h)
>>=-eq-ok fault f h = cc
>>=-eq-ok out_of_fuel f h = cc

pub store-inv {ℓ} :
    {A : Type ℓ} (a : List A) (i : ℕ) (v : A) {b : List A} → store a i v ≡ ok b → b ≡ set a i v
unfolding store
store-inv a i v h = ground arith

pub if-eq-ok {ℓ κ} :
    {A : Type ℓ} (P : A → Type κ) (b : Bool) {x y : Run A}
    → ((a : A) → x ≡ ok a → P a)
    → ((a : A) → y ≡ ok a → P a)
    → (a : A) → (if b then x else y) ≡ ok a
    → P a
if-eq-ok P true p q = p
if-eq-ok P false p q = q
