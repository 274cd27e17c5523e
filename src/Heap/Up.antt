-- ===== src/Heap/Up.antt =====
-- `hp_up` on an array with one entry too low.
use common_tool.Base.{
  ℕ, zero, suc, ◌+◌, ◌≤◌, ◌<◌, ◌≡◌, ◌≢◌, refl, sym, ◌∙◌, Bool, true, false, List, arith, ℤ, IsOrder,
  get_or, set, length, Rearranged-refl, Rearranged-move, load-ok, store-ok, Returns, returns,
  Returns-bind, Returns-if, get_or-set, length-set, set-get_or, ltb, ◌==◌, [], if◌then◌else◌, subst,
  subst₂, ap₂,
}
use common_tool.Heap.{parent, below, above, Sift, up_loop, hp_up, settle}
use common_tool.Heap.Order.{below-IsRank, above-flip, IsHeapFrom, UpInv, Sifted, Sifted-trans}

module _ {ℓ} {A : Type ℓ} (kc : A → A → ℤ) (raft : Bool) (ord : IsOrder kc) (d : A) where
  module _ (n : ℕ) (a : List A) (tmp : ℕ) (ele : A) (pos : 0 < tmp) (ht : tmp < n)
      (hn : n ≤ length a) (v : UpInv (below kc raft) d n (set a tmp ele) tmp) where
    at : (j : ℕ) → get_or (set a tmp ele) j d ≡ (if tmp == j then ele else get_or a j d)
    at j = get_or-set a tmp j ele d (omega arith)

    moved :
        (j : ℕ)
        → get_or (set (set a tmp (get_or a (parent tmp) d)) (parent tmp) ele) j d ≡ (
            if parent tmp == j
            then ele
            else if tmp == j
            then get_or a (parent tmp) d
            else get_or a j d)
    moved j = rw (
      get_or-set (set a tmp (get_or a (parent tmp) d)) (parent tmp) j ele d
          (rw length-set (omega arith)),
      get_or-set a tmp j (get_or a (parent tmp) d) d (omega arith),
    )

    stop_heap :
        above kc raft (get_or a (parent tmp) d) ele ≡ true
        → IsHeapFrom (below kc raft) d 0 n (set a tmp ele)
    stop_heap high c p q r = ground (
      arith,
      at c,
      at (parent c),
      v.edges c,
      above-flip kc ord raft (get_or a (parent tmp) d) ele,
      (below-IsRank kc ord raft).asym ele (get_or a (parent tmp) d),
    )

    rise_edges :
        above kc raft (get_or a (parent tmp) d) ele ≡ false
        → (c : ℕ) → 0 < c
        → c < n
        → c ≢ parent tmp
        → below kc raft
            (get_or (set (set a tmp (get_or a (parent tmp) d)) (parent tmp) ele) (parent c) d)
            (get_or (set (set a tmp (get_or a (parent tmp) d)) (parent tmp) ele) c d)
          ≡ false
    rise_edges low c p q s = ground (
      arith,
      moved c,
      moved (parent c),
      at c,
      at (parent c),
      at (parent tmp),
      v.edges c,
      v.bridged c,
      above-flip kc ord raft (get_or a (parent tmp) d) ele,
      (below-IsRank kc ord raft).trans ele (get_or a (parent tmp) d) (get_or a c d),
    )

    rise_UpInv :
        above kc raft (get_or a (parent tmp) d) ele ≡ false
        → UpInv
            (below kc raft)
            d
            n
            (set (set a tmp (get_or a (parent tmp) d)) (parent tmp) ele)
            (parent tmp)
    rise_UpInv low = record {
      edges = rise_edges low;
      bridged = λ c p q s t u. ground (
        arith,
        moved c,
        moved (parent (parent tmp)),
        at c,
        at (parent tmp),
        at (parent (parent tmp)),
        v.edges c,
        v.edges (parent tmp),
        (below-IsRank kc ord raft).trans (get_or a (parent (parent tmp)) d)
            (get_or a (parent tmp) d) (get_or a c d),
      );
    }

  -- What the loop leaves from a hole at `tmp`: filled, the array is a heap.
  record Risen (n : ℕ) (a : List A) (tmp : ℕ) (ele : A) (s : Sift A) : Type ℓ where
    inside : s.hole ≤ tmp
    still : s.hole ≡ tmp → s.cells ≡ a
    sized : length s.cells ≡ length a
    filled : Sifted (below kc raft) d 0 n (set a tmp ele) (set s.cells s.hole ele)

  Risen-stay :
      {n : ℕ} {a : List A} {tmp : ℕ} {ele : A}
      → IsHeapFrom (below kc raft) d 0 n (set a tmp ele)
      → Risen n a tmp ele (record { cells = a; hole = tmp; calls = [] })
  Risen-stay heap = record {
    inside = omega arith;
    still = λ e. refl;
    sized = refl;
    filled = record { heap = heap; same = Rearranged-refl };
  }

  up_loop-Risen :
      (f n : ℕ) (get_idx : Bool) (a : List A) (tmp : ℕ) (ele : A)
      → tmp < f
      → tmp < n
      → n ≤ length a
      → UpInv (below kc raft) d n (set a tmp ele) tmp
      → Returns (Risen n a tmp ele) (up_loop kc raft f get_idx ele a tmp (parent tmp))
  unfolding up_loop
  up_loop-Risen zero n get_idx a tmp ele fuel ht hn v = absurd (omega arith)
  up_loop-Risen (suc f) n get_idx a tmp ele fuel ht hn v =
      let p = parent tmp in
      let x = get_or a p d in
      let sized : length (set a tmp x) ≡ length a = length-set a tmp x in
      Returns-if (ltb 0 tmp)
        (λ e. rw (load-ok a p d (omega arith)) (
          Returns-if (above kc raft x ele)
            (λ high. returns (Risen-stay (stop_heap n a tmp ele (ground arith) ht hn v high)))
            (λ low. rw (store-ok a tmp x (omega arith)) (
              Returns-bind
                (up_loop-Risen f n get_idx (set a tmp x) p ele (ground arith) (omega arith)
                  (omega arith) (rise_UpInv n a tmp ele (ground arith) ht hn v low))
                λ s k. returns (record {
                  inside = omega (arith, k.inside);
                  still = λ same. absurd (ground (arith, k.inside));
                  sized = k.sized ∙ sized;
                  filled =
                      Sifted-trans (below kc raft) d
                        (Rearranged-move n a tmp p ele d ht (omega arith) hn (ground arith))
                        k.filled;
                })))))
        (λ e. returns (Risen-stay λ c q r t. v.edges c q r (ground arith)))

  -- `hp_up` turns an array with one entry too low in the tree into a heap of the same entries.
  pub hp_up-Sifted :
      (n : ℕ) (get_idx : Bool) (a : List A) (i : ℕ)
      → i < n
      → n ≤ length a
      → UpInv (below kc raft) d n a i
      → Returns (λ r. Sifted (below kc raft) d 0 n a r.0) (hp_up kc raft get_idx a i)
  unfolding hp_up settle
  hp_up-Sifted n get_idx a i hi hn v =
      let ele = get_or a i d in
      let whole : set a i ele ≡ a = set-get_or a i d in
      rw (load-ok a i d (omega arith)) (
        Returns-bind (up_loop-Risen (i + 1) n get_idx a i ele (omega arith) hi hn (rw whole v))
          λ s k.
            Returns-if (i == s.hole)
              (λ e.
                let same : s.hole ≡ i = ground arith in
                let cells = k.still same in
                let full : set s.cells s.hole ele ≡ s.cells =
                  ap₂ (λ b j. set b j ele) cells same ∙ whole ∙ sym cells in
                returns (subst₂ (Sifted (below kc raft) d 0 n) whole full k.filled))
              (λ e. rw (store-ok s.cells s.hole ele (omega (arith, k.inside, k.sized))) (
                returns (
                  subst (λ z. Sifted (below kc raft) d 0 n z (set s.cells s.hole ele)) whole
                    k.filled))))
