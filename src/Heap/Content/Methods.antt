-- ===== src/Heap/Content/Methods.antt =====
-- The methods of `tl_heap_t`: what each does to the multiset of the entries, and that each keeps
-- the heap in order.
use mathlib.Core.List.Perm
use mathlib.Core.List.{Mem}
use common_tool.Base.{
  ℕ, zero, suc, ◌-◌, ◌≤◌, ◌<◌, ◌≡◌, refl, ◌∙◌, Bool, true, false, Option, none, some, List, [], ◌∷◌,
  arith, ltb, ℤ, IsOrder, load-ok, store-ok, Returns, returns, Returns-bind, length, take, set,
  get_or, length-set, get_or-set, get_or-take, get_or_any, length-take, cut-perm, Perm,
  Rearranged-refl, Rearranged-take, Rearranged-length, false_of_mem,
}
use common_tool.Heap.{below, parent, hp_down, down_loop, settle}
use common_tool.Heap.Order.{below-IsRank, IsHeapFrom, DownInv, Sifted}
use common_tool.Heap.Down.{hp_down-Sifted}
use common_tool.Heap.Content.{Heap, pop}

module _ {ℓ} {A : Type ℓ} where
  abbrev pub cells : Heap A → List A
  cells h = elim h.cont [ none ↦ [] | some a ↦ a ]

  -- The entries that count.
  abbrev pub content : Heap A → List A
  content h = take h.used (cells h)

module _ {ℓ} {A : Type ℓ} (kc : A → A → ℤ) (raft : Bool) where
  -- The array has `cnt` entries, of which `used` are in heap order, within the limit.
  pub record IsValid (h : Heap A) : Type ℓ where
    pub sized : length (cells h) ≡ h.cnt
    pub counted : h.used ≤ h.cnt
    pub limited : h.cnt ≤ h.ele_cnt
    pub heap : (d : A) → IsHeapFrom (below kc raft) d 0 h.used (cells h)

  -- No entry of `xs` ranks above `x`.
  abbrev pub IsTop : A → List A → Type ℓ
  IsTop x xs = (y : A) → Mem y xs → below kc raft x y ≡ false

module _ {ℓ} {A : Type ℓ} (kc : A → A → ℤ) (raft : Bool) (ord : IsOrder kc) where
  low_refl : (x : A) → below kc raft x x ≡ false
  low_refl x = ground (arith, (below-IsRank kc ord raft).asym x x)

  root_top :
      (k n : ℕ) (a : List A) (d : A) (i : ℕ)
      → IsHeapFrom (below kc raft) d 0 n a
      → i < k
      → i < n
      → below kc raft (get_or a 0 d) (get_or a i d) ≡ false
  root_top zero n a d i h f p = absurd (omega arith)
  root_top (suc k) n a d zero h f p = low_refl (get_or a 0 d)
  root_top (suc k) n a d (suc i) h f p =
      (below-IsRank kc ord raft).trans (get_or a 0 d) (get_or a (parent (suc i)) d)
        (get_or a (suc i) d) (root_top k n a d (parent (suc i)) h (omega arith) (omega arith))
        (h (suc i) (omega arith) p (omega arith))

  root-IsTop :
      (n : ℕ) (a : List A) (d : A)
      → n ≤ length a
      → IsHeapFrom (below kc raft) d 0 n a
      → IsTop kc raft (get_or a 0 d) (take n a)
  root-IsTop n a d hn h = false_of_mem (below kc raft (get_or a 0 d)) (take n a) d λ i p.
      let inside : i < n = omega (arith, length-take n a) in
      rw (get_or-take n a i d inside) (root_top (suc i) n a d i h (omega arith) inside)

  -- `hp_down` from the root, also where no entry counts.
  pub root_down :
      (n : ℕ) (a : List A) (d : A)
      → 0 < length a
      → n ≤ length a
      → DownInv (below kc raft) d 0 n a 0
      → Returns (λ r. Sifted (below kc raft) d 0 n a r.0) (hp_down kc raft false n a 0)
  unfolding hp_down down_loop settle
  root_down zero a d h hn v =
      rw (load-ok a 0 d h)
        (returns (record { heap = λ c p q. absurd (omega arith); same = Rearranged-refl }))
  root_down (suc n) a d h hn v = hp_down-Sifted kc raft ord d 0 (suc n) false a 0 (omega arith) hn v

  pub heap_any :
      {n : ℕ} (a : List A) (d d' : A)
      → n ≤ length a
      → IsHeapFrom (below kc raft) d 0 n a
      → IsHeapFrom (below kc raft) d' 0 n a
  heap_any a d d' hn h c p q r =
      ground (arith, h c, get_or_any a c d d', get_or_any a (parent c) d d')

  -- A rearranged array in heap order, in place of the old one.
  pub Sifted-IsValid :
      (limit cnt n : ℕ) (a b : List A) (d : A)
      → length a ≡ cnt
      → n ≤ cnt
      → cnt ≤ limit
      → Sifted (below kc raft) d 0 n a b
      → IsValid kc raft (record { ele_cnt = limit; cont = some b; cnt = cnt; used = n })
  Sifted-IsValid limit cnt n a b d ha hn hl s =
      let size = Rearranged-length s.same in
      record {
        sized = size ∙ ha;
        counted = hn;
        limited = hl;
        heap = λ d'. heap_any b d d' (omega arith) s.heap;
      }

  -- What tl_heap_pop leaves of a heap with the entry `x` on top.
  pub record Popped (h : Heap A) (r : Heap A × Option A) : Type ℓ where
    pub valid : IsValid kc raft r.0
    pub out : A
    pub returned : r.1 ≡ some out
    pub perm : Perm (out ∷ content r.0) (content h)
    pub highest : IsTop kc raft out (content h)
    pub limit : r.0.ele_cnt ≡ h.ele_cnt

  pop-some :
      (limit cnt n : ℕ) (a : List A) (x : A)
      → IsValid kc raft (record { ele_cnt = limit; cont = some (x ∷ a); cnt = cnt; used = suc n })
      → Returns
          (Popped (record { ele_cnt = limit; cont = some (x ∷ a); cnt = cnt; used = suc n }))
          (pop kc raft (record { ele_cnt = limit; cont = some (x ∷ a); cnt = cnt; used = suc n }))
  unfolding pop
  pop-some limit cnt n a x v =
      let size = v.sized in
      let last = get_or (x ∷ a) n x in
      let size' : length (set (x ∷ a) 0 last) ≡ cnt = length-set (x ∷ a) 0 last ∙ size in
      let some_used : ltb 0 (suc n) ≡ true = ground arith in
      let less : suc n - 1 ≡ n = omega arith in
      rw
        (
          some_used,
          load-ok (x ∷ a) 0 x (omega arith),
          less,
          load-ok (x ∷ a) n x (omega (arith, v.counted)),
          store-ok (x ∷ a) 0 last (omega arith),
        )
        (Returns-bind
          (root_down n (set (x ∷ a) 0 last) x (omega (arith, size'))
            (omega (arith, v.counted, size'))
            (record {
              edges = λ c p q r s. ground (
                arith,
                v.heap x c,
                get_or-set (x ∷ a) 0 c last x,
                get_or-set (x ∷ a) 0 (parent c) last x,
              );
              bridged = λ c p q r s. absurd (omega arith);
            }))
          λ b s. returns (record {
            valid =
                Sifted-IsValid limit cnt n (set (x ∷ a) 0 last) b.0 x size'
                  (omega (arith, v.counted)) v.limited s;
            out = x;
            returned = refl;
            perm =
                Perm.trans (Perm.cons x (Rearranged-take n s.same))
                  (cut-perm n (x ∷ a) x (omega (arith, v.counted)));
            highest = root-IsTop (suc n) (x ∷ a) x (omega (arith, v.counted)) (v.heap x);
            limit = refl;
          }))

  pop_cases :
      (limit : ℕ) (o : Option (List A)) (cnt used : ℕ)
      → IsValid kc raft (record { ele_cnt = limit; cont = o; cnt = cnt; used = used })
      → 0 < used
      → Returns
          (Popped (record { ele_cnt = limit; cont = o; cnt = cnt; used = used }))
          (pop kc raft (record { ele_cnt = limit; cont = o; cnt = cnt; used = used }))
  pop_cases limit (some (x ∷ a)) cnt (suc n) v h = pop-some limit cnt n a x v
  pop_cases limit o cnt zero v h = elim h [ ]
  pop_cases limit (some []) cnt (suc n) v h = absurd (omega (arith, v.counted, v.sized))
  pop_cases limit none cnt (suc n) v h = absurd (omega (arith, v.counted, v.sized))

  -- On a valid heap that is not empty, tl_heap_pop returns 0 and an entry above which none ranks, and
  -- leaves a valid heap of exactly the other entries.
  pub pop_correct :
      (h : Heap A) → IsValid kc raft h → 0 < h.used → Returns (Popped h) (pop kc raft h)
  pop_correct h = pop_cases h.ele_cnt h.cont h.cnt h.used
