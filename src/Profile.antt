-- ===== src/Profile.antt =====
-- The profiler of trunk/src/tl_profile.c, over the red-black tree of trunk/src/tl_rbtree.c. `K` is
-- the names, compared by `kc` (strcmp); an item is an address, the index in `items`, and its `func` is
-- its key in the tree. A clock is a word of 64 bits: the code's own are signed, and of them it compares
-- `tv_usec` only.
pub mod Time
pub mod Names
pub mod Pair
mod Tests
use common_tool.Base.{
  ℕ, ◌+◌, ◌-◌, ◌*◌, Bool, true, false, ◌&&◌, List, [], ◌∷◌, ◌++◌, Option, none, some, ltb, leb,
  ◌==◌, if◌then◌else◌, Run, ok, fault, ◌>>=◌, or_fault, require, load, store, length, add_word,
  sub_word, ℤ,
}
use common_tool.Rbtree.{Root, leaf}
use common_tool.Rbtree.Locate.{query}
use common_tool.Rbtree.Insert.{insert}
use common_tool.Rbtree.Cursor.{Cursor, first}

-- `tl_profile_time_t`.
pub record Clock : Type 0 where
  pub cpu : ℕ
  pub sec : ℕ
  pub usec : ℕ

-- `tl_profile_item_t`.
pub record Item : Type 0 where
  pub cnt_call : ℕ
  pub total : Clock

-- `tl_profile_entry_t`, at the address `id`.
pub record Entry : Type 0 where
  pub id : ℕ
  pub item : ℕ
  pub ut : Clock
  pub level : ℕ

-- `tl_profile_t`: `running` are the entries from `lastI` along `next`, `ended` those up to `lastE`
-- in the order of their `next`. `fresh` is the address of the next entry.
pub record Profile {ℓ} (K : Type ℓ) : Type ℓ where
  pub max_l : ℕ
  pub cur_l : ℕ
  pub total_l : ℕ
  pub root : Root (K × ℕ)
  pub items : List Item
  pub first : Option ℕ
  pub running : List Entry
  pub ended : List Entry
  pub fresh : ℕ

-- Which of its calls for memory `newEntry` gets: the entry, the item, its name, and the tree's node.
pub record Memory : Type 0 where
  pub entry : Bool
  pub item : Bool
  pub name : Bool
  pub node : Bool

abbrev pub million : ℕ
million = 1000000

abbrev pub no_time : Clock
no_time = record { cpu = 0; sec = 0; usec = 0 }

-- The time since `ut`, as `tl_profile_end` takes it.
pub elapsed : Clock → Clock → Clock
elapsed now ut =
    let sec = sub_word now.sec ut.sec in
    let cpu = sub_word now.cpu ut.cpu in
    if ltb ut.usec now.usec
    then record { cpu = cpu; sec = sec; usec = sub_word now.usec ut.usec }
    else record {
      cpu = cpu;
      sec = sub_word sec 1;
      usec = sub_word (add_word million now.usec) ut.usec;
    }

-- A time added to the total of an item.
pub charge : Clock → Clock → Clock
charge total ut =
    let cpu = add_word total.cpu ut.cpu in
    let sec = add_word total.sec ut.sec in
    let usec = add_word total.usec ut.usec in
    if leb million usec
    then record { cpu = cpu; sec = add_word sec 1; usec = sub_word usec million }
    else record { cpu = cpu; sec = sec; usec = usec }

module _ {ℓ} {K : Type ℓ} (kc : K → K → ℤ) where
  -- The item that a name gets when the tree has none.
  pub new_item : Profile K → Memory → K → Run (Option (Profile K × ℕ))
  new_item p memory func =
      let item = length p.items in
      let put : Run (Option (Profile K × ℕ)) =
        insert kc p.root memory.node (func, item) false >>= λ (root, kv, done). ok (
          if done
          then some (
            record p {
              root = root;
              items = p.items ++ record { cnt_call = 0; total = no_time } ∷ [];
            },
            item,
          )
          else none) in
      require memory.item (if memory.name then put else ok none)

  -- `newEntry`: the item of the new entry, or NULL.
  pub new_entry : Profile K → Memory → K → Run (Option (Profile K × ℕ))
  new_entry p memory func =
      let (kv, found) = query kc p.root (func, 0) in
      let item = if found then ok (some (p, kv.1)) else new_item p memory func in
      if memory.entry then item else ok none

  -- The part of tl_profile_start behind `newEntry`.
  pub enter : Option Clock → Option (Profile K × ℕ) → Profile K → Run (Profile K)
  enter clock none p = ok p
  enter clock (some (q, item)) p = do
    now ← or_fault clock
    i ← load q.items item
    items ← store q.items item (record i { cnt_call = add_word i.cnt_call 1 })
    ok (record q {
      items = items;
      first = elim q.first [ none ↦ some q.fresh | some e ↦ some e ];
      running = record { id = q.fresh; item = item; ut = now; level = q.cur_l } ∷ q.running;
      fresh = q.fresh + 1;
    })

  -- tl_profile_start; `clock` is none where `gettimeofday` fails.
  pub start : Profile K → Memory → K → Option Clock → Run (Profile K)
  start p memory func clock =
      let q : Profile K = record p { total_l = add_word p.total_l 1; cur_l = add_word p.cur_l 1 } in
      let call = new_entry q memory func >>= λ o. enter clock o q in
      if ltb 0 q.max_l && ltb q.max_l q.cur_l then ok q else call

module _ {ℓ} {K : Type ℓ} where
  -- The time part of tl_profile_end, for the entry at `lastI`.
  pub leave : Profile K → Entry → List Entry → Clock → Run (Profile K)
  leave p e rest now = do
    let ut = elapsed now e.ut
    i ← load p.items e.item
    items ← store p.items e.item (record i { total = charge i.total ut })
    ok (record p {
      cur_l = sub_word p.cur_l 1;
      items = items;
      running = rest;
      first = elim p.ended [ [] ↦ some e.id | x ∷ xs ↦ p.first ];
      ended = p.ended ++ record e { ut = ut } ∷ [];
    })

  -- tl_profile_end behind the clocks; an entry of another level than the current one is dropped if
  -- that is higher.
  pub end_at : Profile K → List Entry → Clock → Run (Profile K)
  end_at p [] now = ok p
  end_at p (e ∷ rest) now =
      let drop_it : Profile K = record p { running = rest } in
      if p.cur_l == e.level
      then leave p e rest now
      else ok (if ltb e.level p.cur_l then drop_it else p)

  -- tl_profile_end.
  pub end : Profile K → Option Clock → Run (Profile K)
  end p clock = or_fault clock >>= λ now. end_at p p.running now

  -- tl_profile_getEntry.
  pub get_entry : Profile K → Option ℕ
  get_entry p = p.first

  -- tl_profile_first.
  pub first_item : Profile K → Option (Cursor (K × ℕ))
  first_item p = first p.root

-- tl_profile_init; `calloc_ok` and `root_ok` say which memory is found. Without the tree `p` is NULL
-- where `maxL` is set.
pub init {ℓ} : {K : Type ℓ} → Bool → Bool → ℕ → Run (Option (Profile K))
init {K} calloc_ok root_ok max_level =
    let made : Profile K = record {
      max_l = max_level;
      cur_l = 0;
      total_l = 0;
      root = record { first = leaf; cnt_key = 0 };
      items = [];
      first = none;
      running = [];
      ended = [];
      fresh = 0;
    } in
    let rooted : Run (Option (Profile K)) = if root_ok then ok (some made) else fault in
    if calloc_ok then rooted else ok none

-- tl_profile_getItem.
pub get_item {ℓ} : {K : Type ℓ} → (K → K → ℤ) → Profile K → K → Option ℕ
get_item kc p func =
    let (kv, found) = query kc p.root (func, 0) in if found then some kv.1 else none
