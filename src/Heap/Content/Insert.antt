-- ===== src/Heap/Content/Insert.antt =====
-- tl_heap_add.
use mathlib.Core.List.Perm
use native.Mathlib.Numerals.{add-one}
use common_tool.Base.{
  ap₂, ℕ, zero, suc, ◌+◌, ◌≤◌, ◌<◌, ◌≡◌, ◌≢◌, refl, sym, ap, ◌∙◌, subst, Bool, true, false, Option,
  none, some, List, [], ◌∷◌, ◌++◌, arith, ltb, ◌==◌, if◌then◌else◌, Bool-cases, Option-cases, inl,
  inr, ℤ, IsOrder, ok, fault, store-ok, Returns, returns, Returns-bind, length, take, set, get_or,
  length-set, get_or-set, get_or-take, take-suc, take-set, concat-perm, Perm, Rearranged-take,
}
use common_tool.Heap.{below, parent, hp_up, increment}
use common_tool.Heap.Order.{IsHeapFrom, Sifted}
use common_tool.Heap.Up.{hp_up-Sifted}
use common_tool.Heap.Content.{Heap, IsRealloc, grow, add, pop}
use common_tool.Heap.Content.Methods.{IsValid, cells, content, Sifted-IsValid}

module _ {ℓ} {A : Type ℓ} (kc : A → A → ℤ) (raft : Bool) (ord : IsOrder kc)
    (realloc : Option (List A) → ℕ → Option (List A)) where
  abbrev heap_of : ℕ → Option (List A) → ℕ → ℕ → Heap A
  heap_of limit o cnt used = record { ele_cnt = limit; cont = o; cnt = cnt; used = used }

  -- What the first part of tl_heap_add leaves where it finds or makes room.
  record Room (h : Heap A) (g : Heap A × Bool) : Type ℓ where
    array : List A
    same : g ≡ (record h { cont = some array; cnt = length array }, true)
    inside : h.used < length array
    limited : length array ≤ h.ele_cnt
    kept : take h.used array ≡ content h

  grown_kept :
      (o : Option (List A)) (n used : ℕ) (b : List A) (limit cnt : ℕ)
      → IsRealloc realloc
      → used ≤ length (cells (heap_of limit o cnt used))
      → used ≤ n
      → realloc o n ≡ some b
      → take used b ≡ content (heap_of limit o cnt used)
  grown_kept none n zero b limit cnt laws h k e = refl
  grown_kept none n (suc used) b limit cnt laws h k e = absurd (omega arith)
  grown_kept (some a) n used b limit cnt laws h k e = laws.kept a n used b e h k

  -- No room is left: the array is made longer.
  grow_full :
      (limit : ℕ) (o : Option (List A)) (cnt : ℕ)
      → IsRealloc realloc
      → IsValid kc raft (heap_of limit o cnt cnt)
      → cnt < limit
      → ((n : ℕ) → realloc o n ≢ none)
      → Room (heap_of limit o cnt cnt) (grow realloc (heap_of limit o cnt cnt))
  unfolding grow
  grow_full limit o cnt laws v h mem =
      let n = if ltb limit (cnt + increment) then limit else cnt + increment in
      let longer : cnt < n = ground arith in
      let within : n ≤ limit = ground arith in
      elim (Option-cases (realloc o n)) [
        | inl e ↦ absurd (mem n e)
        | inr (b, e) ↦
            let size = laws.sized o n b e in
            record {
              array = b;
              same =
                  let all : (cnt == cnt) ≡ true = ground arith in
                  let less : ltb cnt limit ≡ true = ground arith in
                  rw (all, less, e) (ap (λ c. (heap_of limit (some b) c cnt, true)) (sym size));
              inside = omega arith;
              limited = omega arith;
              kept = grown_kept o n cnt b limit cnt laws (omega (arith, v.sized)) (omega arith) e;
            }
      ]

  -- There is room.
  grow_unfilled :
      (limit : ℕ) (o : Option (List A)) (cnt used : ℕ)
      → IsValid kc raft (heap_of limit o cnt used)
      → used < cnt
      → Room (heap_of limit o cnt used) (grow realloc (heap_of limit o cnt used))
  unfolding grow
  grow_unfilled limit none cnt used v h = absurd (omega (arith, v.sized))
  grow_unfilled limit (some a) cnt used v h =
      let room : (used == cnt) ≡ false = ground arith in
      rw room (record {
        array = a;
        same = ap (λ c. (heap_of limit (some a) c used, true)) (sym v.sized);
        inside = omega (arith, v.sized);
        limited = omega (arith, v.sized, v.limited);
        kept = refl;
      })

  grow-Room :
      (limit : ℕ) (o : Option (List A)) (cnt used : ℕ)
      → IsRealloc realloc
      → IsValid kc raft (heap_of limit o cnt used)
      → used < limit
      → ((n : ℕ) → realloc o n ≢ none)
      → Room (heap_of limit o cnt used) (grow realloc (heap_of limit o cnt used))
  grow-Room limit o cnt used laws v h mem = elim (Bool-cases (used == cnt)) [
    | inl full ↦
        let e : used ≡ cnt = ground arith in
        subst (λ u. Room (heap_of limit o cnt u) (grow realloc (heap_of limit o cnt u))) (sym e)
          (grow_full limit o cnt laws (subst (λ u. IsValid kc raft (heap_of limit o cnt u)) e v)
            (omega arith) mem)
    | inr room ↦ grow_unfilled limit o cnt used v (ground (arith, v.counted))
  ]

  -- What tl_heap_add leaves of a heap to which it adds `x`.
  pub record Added (h : Heap A) (x : A) (r : Heap A × Bool) : Type ℓ where
    pub valid : IsValid kc raft r.0
    pub success : r.1 ≡ true
    pub perm : Perm (content r.0) (x ∷ content h)
    pub limit : r.0.ele_cnt ≡ h.ele_cnt

  put :
      (limit used : ℕ) (a : List A) (x : A)
      → used < length a
      → length a ≤ limit
      → IsHeapFrom (below kc raft) x 0 used a
      → Returns
          (λ r. Sifted (below kc raft) x 0 (suc used) (set a used x) r.0)
          (hp_up kc raft false (set a used x) used)
  put limit used a x h hl heap =
      hp_up-Sifted kc raft ord x (suc used) false (set a used x) used (omega arith)
        (rw length-set h)
        (record {
          edges = λ c p q r.
              ground (arith, heap c, get_or-set a used c x x, get_or-set a used (parent c) x x);
          bridged = λ c p q r s t. absurd (omega arith);
        })

  kept_heap :
      (h : Heap A) (a : List A) (x : A)
      → IsValid kc raft h
      → take h.used a ≡ content h
      → (c : ℕ) → 0 < c
      → c < h.used
      → below kc raft (get_or a (parent c) x) (get_or a c x) ≡ false
  kept_heap h a x v kept c p q =
      let same : (i : ℕ) → i < h.used → get_or a i x ≡ get_or (cells h) i x = λ i r.
        sym (get_or-take h.used a i x r)
        ∙ ap (λ l. get_or l i x) kept
        ∙ get_or-take h.used (cells h) i x r in
      rw (same c q, same (parent c) (omega arith)) (v.heap x c p q (omega arith))

  take-new :
      (n : ℕ) (a : List A) (x : A) → n < length a → take (suc n) (set a n x) ≡ take n a ++ x ∷ []
  take-new n a x h =
      take-suc n (set a n x) x (rw length-set h)
      ∙ ap₂ (λ l y. l ++ y ∷ []) (take-set n a n x (omega arith))
          (let self : (n == n) ≡ true = ground arith in get_or-set a n n x x h ∙ rw self)

  add_into :
      (h : Heap A) (x : A) (g : Heap A × Bool)
      → IsValid kc raft h
      → Room h g
      → grow realloc h ≡ g
      → Returns (Added h x) (add kc raft realloc h x)
  unfolding add
  add_into h x g v r e =
      let a = r.array in
      let size : length (set a h.used x) ≡ length a = length-set a h.used x in
      rw (e ∙ r.same, store-ok a h.used x r.inside, add-one)
        (Returns-bind
          (put h.ele_cnt h.used a x r.inside r.limited λ c p q s. kept_heap h a x v r.kept c p q)
          λ b s. returns (record {
            valid =
                Sifted-IsValid kc raft ord h.ele_cnt (length a) (suc h.used) (set a h.used x) b.0 x
                  size r.inside r.limited s;
            success = refl;
            perm =
                Perm.trans (Rearranged-take (suc h.used) s.same)
                  (rw (take-new h.used a x r.inside, r.kept) (concat-perm (content h) x));
            limit = refl;
          }))

  -- On a valid heap below its limit, while the allocator does not fail, tl_heap_add returns 0 and
  -- leaves a valid heap of the old entries and the new one.
  pub add_correct :
      (h : Heap A) (x : A)
      → IsRealloc realloc
      → IsValid kc raft h
      → h.used < h.ele_cnt
      → ((n : ℕ) → realloc h.cont n ≢ none)
      → Returns (Added h x) (add kc raft realloc h x)
  add_correct h x laws v p mem =
      add_into h x (grow realloc h) v (grow-Room h.ele_cnt h.cont h.cnt h.used laws v p mem) refl

  -- tl_heap_add at the limit returns -1 and changes nothing.
  pub add-full :
      (h : Heap A) (x : A)
      → IsValid kc raft h
      → h.used ≡ h.ele_cnt
      → add kc raft realloc h x ≡ ok (h, false)
  unfolding add grow
  add-full h x v e =
      let all : (h.used == h.cnt) ≡ true = ground (arith, v.counted, v.limited) in
      let limit : ltb h.cnt h.ele_cnt ≡ false = ground (arith, v.counted) in rw (all, limit)

  -- Where the allocator fails in tl_heap_add on a valid heap that is full, below its limit and not
  -- empty, -1 is returned, and the heap that is left has lost its array: the next tl_heap_add and the
  -- next tl_heap_pop go through NULL.
  pub add-lost :
      (h : Heap A) (x y : A)
      → IsValid kc raft h
      → h.used ≡ h.cnt
      → h.cnt < h.ele_cnt
      → ((n : ℕ) → realloc h.cont n ≡ none)
      → 0 < h.used
      → (h' : Heap A) × (add kc raft realloc h x ≡ ok (h', false))
        × (add kc raft realloc h' y ≡ fault)
        × (pop kc raft h' ≡ fault)
  unfolding add grow pop
  add-lost h x y v e p lost q =
      let n = if ltb h.ele_cnt (h.cnt + increment) then h.ele_cnt else h.cnt + increment in
      let all : (h.used == h.cnt) ≡ true = ground arith in
      let less : ltb h.cnt h.ele_cnt ≡ true = ground arith in
      let longer : (h.used == n) ≡ false = ground arith in
      (
        record h { cont = none; cnt = n },
        rw (all, less, lost n),
        rw longer,
        let some_used : ltb 0 h.used ≡ true = ground arith in rw some_used,
      )
