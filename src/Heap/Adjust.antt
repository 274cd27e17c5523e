-- ===== src/Heap/Adjust.antt =====
-- tl_heap_adjust: heap order from scratch, and what it does with a range that begins past 0.
use common_tool.Base.{
  ℕ, zero, suc, ◌+◌, ◌-◌, ◌*◌, ◌≤◌, ◌<◌, ◌≡◌, refl, Bool, false, List, arith, ℤ, IsOrder, Run, ok,
  fault, out_of_fuel, ◌>>=◌, Returns, returns, Returns-bind, Returns-map, Returns-if, length, drop,
  leb, ltb, ◌==◌, ◌||◌, Bool-cases, inl, inr, Rearranged-refl, Rearranged-length, load, store, ◌≢◌,
}
use common_tool.Heap.{below, parent, lchild, pick, hp_down, adjust_loop, adjust, down_loop, settle}
use common_tool.Heap.Order.{IsHeapFrom, Sifted, Sifted-trans}
use common_tool.Heap.Down.{hp_down-Sifted}

module _ {ℓ} {A : Type ℓ} (kc : A → A → ℤ) (raft : Bool) (ord : IsOrder kc) (d : A) where
  -- One round extends the ordered part of the tree by one parent.
  round :
      (n : ℕ) (a : List A) (c : ℕ)
      → c < n
      → n ≤ length a
      → IsHeapFrom (below kc raft) d (suc c) n a
      → Returns (λ r. Sifted (below kc raft) d c n a r.0) (hp_down kc raft false n a c)
  round n a c hc hn h = hp_down-Sifted kc raft ord d c n false a c hc hn (record {
    edges = λ k p q r s. h k p q (omega arith);
    bridged = λ k p q r s t. absurd (omega arith);
  })

  adjust_loop-Sifted :
      (n : ℕ) (a : List A) (c : ℕ)
      → c < n
      → n ≤ length a
      → IsHeapFrom (below kc raft) d (suc c) n a
      → Returns (Sifted (below kc raft) d 0 n a) (adjust_loop kc raft 0 n a c)
  unfolding adjust_loop
  adjust_loop-Sifted n a zero hc hn h = Returns-bind (round n a 0 hc hn h) λ r s. returns s
  adjust_loop-Sifted n a (suc c) hc hn h =
      let more : (0 == suc c) ≡ false = ground arith in
      rw more (
        Returns-bind (round n a (suc c) hc hn h) λ r s.
          Returns-map
            (adjust_loop-Sifted n r.0 c (omega arith) (omega (arith, Rearranged-length s.same))
              s.heap)
            λ b t. Sifted-trans (below kc raft) d s.same t)

  -- Over the range from 0, tl_heap_adjust leaves a heap of the same entries, and the entries from
  -- `e` on in their places.
  pub adjust_heapifies :
      (cont : List A) (e : ℕ)
      → e ≤ length cont
      → Returns (Sifted (below kc raft) d 0 e cont) (adjust kc raft cont 0 e)
  unfolding adjust
  adjust_heapifies cont e h =
      Returns-if (leb e 0 || leb (e - 0) 1)
        (λ small.
          returns (record { heap = λ c p q. absurd (ground arith); same = Rearranged-refl }))
        (λ big.
          let last : parent (e - 1) < e = ground arith in
          let all : e - 0 ≡ e = omega arith in
          rw all (
            Returns-bind
              (adjust_loop-Sifted e cont (parent (e - 1)) last h λ c p q r. absurd (ground arith))
              λ b s. returns s))

module _ {ℓ κ} {A : Type ℓ} {B : Type κ} where
  bind-ne :
      (r : Run A) (f : A → Run B)
      → r ≢ out_of_fuel
      → ((a : A) → r ≡ ok a → f a ≢ out_of_fuel)
      → (r >>= f) ≢ out_of_fuel
  bind-ne (ok a) f h k = k a refl
  bind-ne fault f h k = cc
  bind-ne out_of_fuel f h k = absurd (h refl)

  bind-fault :
      (r : Run A) (f : A → Run B) → r ≢ out_of_fuel → ((a : A) → f a ≡ fault) → (r >>= f) ≡ fault
  bind-fault (ok a) f h k = k a
  bind-fault fault f h k = refl
  bind-fault out_of_fuel f h k = absurd (h refl)

module _ {ℓ} {A : Type ℓ} where
  load-ne : (a : List A) (i : ℕ) → load a i ≢ out_of_fuel
  unfolding load
  load-ne a i = ground arith

  store-ne : (a : List A) (i : ℕ) (v : A) → store a i v ≢ out_of_fuel
  unfolding store
  store-ne a i v = ground arith

module _ {ℓ} {A : Type ℓ} (kc : A → A → ℤ) (raft : Bool) where
  pick-ne : (a : List A) (n c : ℕ) → pick kc raft a n c ≢ out_of_fuel
  unfolding pick
  pick-ne a n c = ground (arith, load-ne a c, load-ne a (c + 1))

  pick-ge : (a : List A) (n c c' : ℕ) → pick kc raft a n c ≡ ok c' → c ≤ c'
  unfolding pick
  pick-ge a n c c' e = ground arith

  down_loop-ne :
      (f : ℕ) (ele : A) (n : ℕ) (a : List A) (tmp : ℕ)
      → n - tmp < f
      → down_loop kc raft f false ele n a tmp (lchild tmp) ≢ out_of_fuel
  unfolding down_loop
  down_loop-ne zero ele n a tmp h = absurd (omega arith)
  down_loop-ne (suc f) ele n a tmp h = elim (Bool-cases (ltb (lchild tmp) n)) [
    | inr e ↦ rw e cc
    | inl e ↦ rw e (
        bind-ne (pick kc raft a n (lchild tmp)) _ (pick-ne a n (lchild tmp)) λ c' p.
          bind-ne (load a c') _ (load-ne a c') λ x _. elim (Bool-cases (below kc raft x ele)) [
            | inl low ↦ rw low cc
            | inr high ↦ rw high (
                bind-ne (store a tmp x) _ (store-ne a tmp x) λ b _.
                  bind-ne (down_loop kc raft f false ele n b c' (lchild c')) _
                    (down_loop-ne f ele n b c' (ground (arith, pick-ge a n (lchild tmp) c')))
                    λ s _. cc)
          ])
  ]

  -- `hp_down` ends on every array and at every index: the fuel never runs out.
  pub hp_down-ne : (n : ℕ) (a : List A) (i : ℕ) → hp_down kc raft false n a i ≢ out_of_fuel
  unfolding hp_down settle
  hp_down-ne n a i = bind-ne (load a i) _ (load-ne a i) λ ele _.
      bind-ne (down_loop kc raft (n + 1) false ele n a i (lchild i)) _
        (down_loop-ne (n + 1) ele n a i (omega arith))
        λ s _. ground (arith, store-ne s.cells s.hole ele)

  adjust_loop-past : (b n : ℕ) (a : List A) (c : ℕ) → c < b → adjust_loop kc raft b n a c ≡ fault
  unfolding adjust_loop
  adjust_loop-past b n a zero h =
      bind-fault (hp_down kc raft false n a 0) _ (hp_down-ne n a 0) λ r. ground arith
  adjust_loop-past b n a (suc c) h =
      bind-fault (hp_down kc raft false n a (suc c)) _ (hp_down-ne n a (suc c))
        λ r. ground (arith, adjust_loop-past b n r.0 c (omega arith))

  -- Over a range of two or more entries that begins at `b` past 0 and ends below 2 b + 2, the loop of
  -- tl_heap_adjust starts below `b`, runs past 0 and reads outside the array, whatever the array is.
  pub adjust-fault :
      (cont : List A) (b e : ℕ) → b + 1 < e → e < 2 * b + 2 → adjust kc raft cont b e ≡ fault
  unfolding adjust
  adjust-fault cont b e h k =
      let big : (leb e b || leb (e - b) 1) ≡ false = ground arith in
      rw (big, adjust_loop-past b (e - b) (drop b cont) (parent (e - 1)) (omega arith))
