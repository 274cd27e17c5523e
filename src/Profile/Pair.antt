-- ===== src/Profile/Pair.antt =====
-- tl_profile_start with tl_profile_end right after it.
use common_tool.Base.{
  zero, suc, ℕ, ◌+◌, ◌-◌, ◌^◌, ◌≤◌, ◌<◌, ◌≡◌, ◌⊎◌, refl, sym, ◌∙◌, ap, ap₂, subst, true, false,
  ◌&&◌, List, [], ◌∷◌, ◌++◌, none, some, arith, ltb, ◌==◌, length, length-set, get_or, get_or-set,
  set, load-ok, store-ok, ok, ◌>>=◌, Returns, returns, Returns-inv, add_word, sub_word, ℤ, IsOrder,
}
use common_tool.Profile.{
  Clock, Item, Profile, million, elapsed, charge, enter, start, leave, end_at, end,
}
use common_tool.Profile.Time.{micros, IsClock, charge-elapsed}
use common_tool.Profile.Names.{all_memory, no_calls, Sane, IsProfile, Gets, new_entry-Gets}

set-set : (xs : List Item) (i : ℕ) (a b : Item) → set (set xs i a) i b ≡ set xs i b
set-set [] i a b = refl
set-set (x ∷ xs) zero a b = refl
set-set (x ∷ xs) (suc i) a b = ap (◌∷◌ x) (set-set xs i a b)

Sane-get_or :
    (is : List Item) (i : ℕ) → i < length is → Sane is → IsClock (get_or is i no_calls).total
Sane-get_or [] i h k = absurd (omega arith)
Sane-get_or (x ∷ is) zero h k = k.0
Sane-get_or (x ∷ is) (suc i) h k = Sane-get_or is i (omega arith) k.1

under_limit :
    (limit cur next : ℕ)
    → next ≡ cur + 1
    → (limit ≡ 0) ⊎ (cur < limit)
    → (ltb 0 limit && ltb limit next) ≡ false
under_limit limit cur next e h = ground arith

-- An item after a call that took from `t0` to `t1`.
abbrev pub called : Item → Clock → Clock → Item
called i t0 t1 = record { cnt_call = add_word i.cnt_call 1; total = charge i.total (elapsed t1 t0) }

-- The profile `r` after the entry for the item `i` was made and ended.
abbrev pub closed {ℓ} : {K : Type ℓ} → Profile K → ℕ → Clock → Clock → Profile K
closed r i t0 t1 = record r {
  cur_l = sub_word r.cur_l 1;
  items = set r.items i (called (get_or r.items i no_calls) t0 t1);
  first = elim r.ended [
    | [] ↦ some r.fresh
    | x ∷ xs ↦ elim r.first [ none ↦ some r.fresh | some e ↦ some e ]
  ];
  ended = r.ended ++ record { id = r.fresh; item = i; ut = elapsed t1 t0; level = r.cur_l } ∷ [];
  fresh = r.fresh + 1;
}

module _ {ℓ} {K : Type ℓ} (kc : K → K → ℤ) where
  enter_then_end :
      (p r : Profile K) (i : ℕ) (t0 t1 : Clock)
      → i < length r.items
      → (enter kc (some t0) (some (r, i)) p >>= λ q. end q (some t1)) ≡ ok (closed r i t0 t1)
  unfolding enter end end_at leave
  enter_then_end p r i t0 t1 h =
      let old = get_or r.items i no_calls in
      let counted : Item = record old { cnt_call = add_word old.cnt_call 1 } in
      let same : (r.cur_l == r.cur_l) ≡ true = ground arith in
      let inside : i < length (set r.items i counted) =
        omega (arith, length-set r.items i counted) in
      let found : get_or (set r.items i counted) i no_calls ≡ counted =
        get_or-set r.items i i counted no_calls h ∙ ground arith in
      rw (load-ok r.items i no_calls h, store-ok r.items i counted h, same)
        (rw (load-ok (set r.items i counted) i no_calls inside) (
          rw found (
            rw
              (
                store-ok (set r.items i counted) i (called old t0 t1) inside,
                set-set r.items i counted (called old t0 t1),
              )
              refl)))

  -- `counted p` is the profile with one level more.
  abbrev pub counted : Profile K → Profile K
  counted p = record p { total_l = add_word p.total_l 1; cur_l = add_word p.cur_l 1 }

  -- The profile `q` after a call of `func` from `t0` to `t1` in `p`.
  pub record Timed (p : Profile K) (func : K) (t0 t1 : Clock) (q : Profile K) : Type ℓ where
    pub begun : Profile K
    pub item : ℕ
    pub new : Item
    pub got : Gets kc (counted p) func begun item
    pub items : q.items ≡ set begun.items item new
    pub calls : new.cnt_call ≡ add_word (get_or begun.items item no_calls).cnt_call 1
    pub time :
        micros new.total ≡ micros (get_or begun.items item no_calls).total + micros t1 - micros t0
    pub carried : new.total.usec < million
    pub tree : q.root ≡ begun.root
    pub level : q.cur_l ≡ p.cur_l
    pub running : q.running ≡ p.running
    pub ended :
        q.ended
        ≡ p.ended
          ++ record { id = p.fresh; item = item; ut = elapsed t1 t0; level = p.cur_l + 1 } ∷ []

  -- On a valid profile whose limit of levels is not reached, while memory is found and the clock does
  -- not go back, tl_profile_start of a name and tl_profile_end right after it return. The level and the
  -- running entries are as before, and one entry is added behind the ended ones. It and the name have
  -- one item: the one that the name had, or a new one that is put into a valid tree. That item has one
  -- more call, and its total has grown by exactly the microseconds between the two calls, with less
  -- than a second of microseconds; no other item is changed.
  pub start_then_end-Timed :
      (p : Profile K) (func : K) (t0 t1 : Clock)
      → IsOrder kc
      → IsProfile kc p
      → (p.max_l ≡ 0) ⊎ (p.cur_l < p.max_l)
      → p.cur_l + 1 < 2 ^ 64
      → IsClock t0
      → IsClock t1
      → micros t0 ≤ micros t1
      → Returns (Timed p func t0 t1) (start kc p all_memory func (some t0) >>= λ q. end q (some t1))
  unfolding start
  start_then_end-Timed p func t0 t1 ord v limit room c0 c1 le =
      let q = counted p in
      let valid : IsProfile kc q = record { tree = v.tree; known = v.known; totals = v.totals } in
      let (o, e, (r, i, e', got)) = Returns-inv (new_entry-Gets kc ord q func valid) in
      let level : add_word p.cur_l 1 ≡ p.cur_l + 1 = omega arith in
      let under : (ltb 0 p.max_l && ltb p.max_l (add_word p.cur_l 1)) ≡ false =
        under_limit p.max_l p.cur_l (add_word p.cur_l 1) level limit in
      let eq : (start kc p all_memory func (some t0) >>= λ q. end q (some t1))
          ≡ ok (closed r i t0 t1) =
        rw (under, e, e') (enter_then_end q r i t0 t1 got.bound) in
      let old = get_or r.items i no_calls in
      let sums =
        charge-elapsed old.total t0 t1 (Sane-get_or r.items i got.bound got.totals) c0 c1 le in
      let same = got.same in
      subst (Returns (Timed p func t0 t1)) (sym eq) (
        returns (record {
          begun = r;
          item = i;
          new = called old t0 t1;
          got = got;
          items = refl;
          calls = refl;
          time = sums.1;
          carried = sums.0;
          tree = refl;
          level = omega (arith, ap (λ x. x.cur_l) same, level);
          running = ap (λ x. x.running) same;
          ended =
              ap₂ (λ xs x. xs ++ x ∷ []) (ap (λ x. x.ended) same)
                (ap₂ (λ id l. record { id = id; item = i; ut = elapsed t1 t0; level = l })
                  (ap (λ x. x.fresh) same) (ap (λ x. x.cur_l) same ∙ level));
        }))
