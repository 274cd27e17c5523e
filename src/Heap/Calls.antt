-- ===== src/Heap/Calls.antt =====
-- The calls of the index handle.
use common_tool.Base.{
  ℕ, zero, suc, ◌+◌, ◌≡◌, refl, Bool, true, List, [], ◌∷◌, ◌++◌, arith, ℤ, set, load, store, Run,
  ok, ◌>>=◌, ltb, ◌==◌, >>=-eq-ok, store-inv, if-eq-ok, subst, IsOrder, ◌<◌, ◌≤◌, length, Returns,
  Returns-and,
}
use common_tool.Heap.{
  Sift, below, above, pick, lchild, parent, down_loop, up_loop, settle, telling, hp_down, hp_up,
  heap_down, heap_up,
}
use common_tool.Heap.Order.{DownInv, UpInv, Sifted}
use common_tool.Heap.Down.{hp_down-Sifted}
use common_tool.Heap.Up.{hp_up-Sifted}

-- The array after each reported entry is written at the index that was reported with it.
pub replay {ℓ} : {A : Type ℓ} → List (A × ℕ) → List A → List A
replay [] a = a
replay ((x, i) ∷ cs) a = replay cs (set a i x)

replay-append {ℓ} :
    {A : Type ℓ} (cs : List (A × ℕ)) (x : A) (i : ℕ) (a : List A)
    → replay (cs ++ (x, i) ∷ []) a ≡ set (replay cs a) i x
unfolding replay
replay-append [] x i a = refl
replay-append ((y, j) ∷ cs) x i a = replay-append cs x i (set a j y)

module _ {ℓ} {A : Type ℓ} where
  -- What has been told and what has been written agree.
  abbrev Agrees : List A → Sift A → Type ℓ
  Agrees a s = replay s.calls a ≡ s.cells

  Agrees-stay :
      (a : List A) (i : ℕ) (s : Sift A)
      → ok (record { cells = a; hole = i; calls = [] }) ≡ ok s
      → Agrees a s
  unfolding replay
  Agrees-stay a i s e = ground arith

  -- A write that is told first, and a rest that agrees.
  Agrees-telling :
      (a : List A) (i : ℕ) (x : A) (k : List A → Run (Sift A))
      → ((b : List A) (t : Sift A) → k b ≡ ok t → Agrees b t)
      → (s : Sift A) → (store a i x >>= λ b. telling true x i (k b)) ≡ ok s
      → Agrees a s
  unfolding replay
  Agrees-telling a i x k h s e =
      let (b, w, e') = >>=-eq-ok (store a i x) (λ b. telling true x i (k b)) e in
      let (t, r, e'') = >>=-eq-ok (k b) (λ t. ok (record t { calls = (x, i) ∷ t.calls })) e' in
      let ih = subst (λ b. Agrees b t) (store-inv a i x w) (h b t r) in ground arith

  module _ (kc : A → A → ℤ) (raft : Bool) where
    down_loop-Agrees :
        (f : ℕ) (ele : A) (used : ℕ) (a : List A) (tmp c : ℕ) (s : Sift A)
        → down_loop kc raft f true ele used a tmp c ≡ ok s
        → Agrees a s
    unfolding down_loop
    down_loop-Agrees zero ele used a tmp c s e = cc
    down_loop-Agrees (suc f) ele used a tmp c s e =
        if-eq-ok (Agrees a) (ltb c used)
          (λ s e.
            let (c', _, e') = >>=-eq-ok (pick kc raft a used c) _ e in
            let (x, _, e'') = >>=-eq-ok (load a c') _ e' in
            if-eq-ok (Agrees a) (below kc raft x ele) (Agrees-stay a tmp)
              (Agrees-telling a tmp x _ λ b. down_loop-Agrees f ele used b c' (lchild c')) s e'')
          (Agrees-stay a tmp) s e

    up_loop-Agrees :
        (f : ℕ) (ele : A) (a : List A) (tmp p : ℕ) (s : Sift A)
        → up_loop kc raft f true ele a tmp p ≡ ok s
        → Agrees a s
    unfolding up_loop
    up_loop-Agrees zero ele a tmp p s e = cc
    up_loop-Agrees (suc f) ele a tmp p s e =
        if-eq-ok (Agrees a) (ltb 0 tmp)
          (λ s e.
            let (x, _, e') = >>=-eq-ok (load a p) _ e in
            if-eq-ok (Agrees a) (above kc raft x ele) (Agrees-stay a tmp)
              (Agrees-telling a tmp x _ λ b. up_loop-Agrees f ele b p (parent p)) s e')
          (Agrees-stay a tmp) s e

    settle-Agrees :
        (a : List A) (idx : ℕ) (ele : A) (s : Sift A) (r : List A × List (A × ℕ))
        → Agrees a s
        → settle true idx ele s ≡ ok r
        → replay r.1 a ≡ r.0
    unfolding settle
    settle-Agrees a idx ele s r g e =
        if-eq-ok (λ (r : List A × List (A × ℕ)). replay r.1 a ≡ r.0) (idx == s.hole)
          (λ r e. ground arith)
          (λ r e.
            let (b, w, e') =
              >>=-eq-ok (store s.cells s.hole ele) (λ b. ok (b, s.calls ++ (ele, s.hole) ∷ [])) e in
            ground (arith, store-inv s.cells s.hole ele w, replay-append s.calls ele s.hole a))
          r e

    hp_down-replay :
        (used : ℕ) (a : List A) (i : ℕ) (r : List A × List (A × ℕ))
        → hp_down kc raft true used a i ≡ ok r
        → replay r.1 a ≡ r.0
    unfolding hp_down
    hp_down-replay used a i r e =
        let (ele, _, e') = >>=-eq-ok (load a i) _ e in
        let (s, l, e'') =
          >>=-eq-ok (down_loop kc raft (used + 1) true ele used a i (lchild i)) _ e' in
        settle-Agrees a i ele s r (down_loop-Agrees (used + 1) ele used a i (lchild i) s l) e''

    hp_up-replay :
        (a : List A) (i : ℕ) (r : List A × List (A × ℕ))
        → hp_up kc raft true a i ≡ ok r
        → replay r.1 a ≡ r.0
    unfolding hp_up
    hp_up-replay a i r e =
        let (ele, _, e') = >>=-eq-ok (load a i) _ e in
        let (s, l, e'') = >>=-eq-ok (up_loop kc raft (i + 1) true ele a i (parent i)) _ e' in
        settle-Agrees a i ele s r (up_loop-Agrees (i + 1) ele a i (parent i) s l) e''

    -- On an array with one entry too high, `tl_heap_down` returns a heap of the same entries, and
    -- the entries and indices that the handle was told, written into the old array, give the new one.
    pub heap_down_tells :
        (ord : IsOrder kc) (d : A) (a : List A) (s i : ℕ)
        → i < s
        → s ≤ length a
        → DownInv (below kc raft) d 0 s a i
        → Returns
            (λ r. Sifted (below kc raft) d 0 s a r.0 × (replay r.1 a ≡ r.0))
            (heap_down kc raft true a s i)
    unfolding heap_down
    heap_down_tells ord d a s i hi hs v =
        Returns-and (hp_down-Sifted kc raft ord d 0 s true a i hi hs v) (hp_down-replay s a i)

    -- On an array with one entry too low, `tl_heap_up` returns a heap of the same entries, and the
    -- entries and indices that the handle was told, written into the old array, give the new one.
    pub heap_up_tells :
        (ord : IsOrder kc) (d : A) (a : List A) (s i : ℕ)
        → i < s
        → s ≤ length a
        → UpInv (below kc raft) d s a i
        → Returns
            (λ r. Sifted (below kc raft) d 0 s a r.0 × (replay r.1 a ≡ r.0))
            (heap_up kc raft true a s i)
    unfolding heap_up
    heap_up_tells ord d a s i hi hs v =
        Returns-and (hp_up-Sifted kc raft ord d s true a i hi hs v) (hp_up-replay a i)
