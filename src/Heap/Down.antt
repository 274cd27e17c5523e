-- ===== src/Heap/Down.antt =====
-- `hp_down` on an array with one entry too high.
use common_tool.Base.{
  ℕ, zero, suc, ◌+◌, ◌-◌, ◌*◌, ◌≤◌, ◌<◌, ◌≡◌, refl, sym, ◌∙◌, Bool, true, false, List, arith, ℤ,
  IsOrder, get_or, set, length, Rearranged-refl, Rearranged-move, Bool-cases, inl, inr, ◌⊎◌,
  load-ok, store-ok, Returns, returns, Returns-bind, Returns-if, get_or-set, length-set, set-get_or,
  ltb, ◌==◌, [], if◌then◌else◌, subst, subst₂, ap₂,
}
use common_tool.Heap.{parent, lchild, below, pick, Sift, down_loop, hp_down, settle}
use common_tool.Heap.Order.{below-IsRank, IsHeapFrom, DownInv, Sifted, Sifted-trans}

module _ {ℓ} {A : Type ℓ} (kc : A → A → ℤ) (raft : Bool) (ord : IsOrder kc) (d : A) where
  -- `m` is a child of `i` below which no child of `i` ranks.
  record IsBestChild (n : ℕ) (a : List A) (i m : ℕ) : Type 0 where
    inside : m < n
    child : (m ≡ 2 * i + 1) ⊎ (m ≡ 2 * i + 2)
    best :
        (c : ℕ) → 0 < c → c < n → parent c ≡ i → below kc raft (get_or a m d) (get_or a c d) ≡ false

  low_asym : (x y : A) → below kc raft x y ≡ true → below kc raft y x ≡ false
  low_asym x y = (below-IsRank kc ord raft).asym x y

  low_refl : (x : A) → below kc raft x x ≡ false
  low_refl x = ground (arith, low_asym x x)

  pick-IsBestChild :
      (n : ℕ) (a : List A) (i : ℕ)
      → lchild i < n
      → n ≤ length a
      → Returns (IsBestChild n a i) (pick kc raft a n (lchild i))
  unfolding pick
  pick-IsBestChild n a i h hn =
      Returns-if (ltb (lchild i) (n - 1))
        (λ two.
          let x = get_or a (lchild i) d in
          let y = get_or a (lchild i + 1) d in
          rw (load-ok a (lchild i) d (ground arith), load-ok a (lchild i + 1) d (ground arith))
            (elim (Bool-cases (below kc raft x y)) [
              | inl e ↦ rw e (
                  returns (record {
                    inside = ground arith;
                    child = inr (omega arith);
                    best = λ c p q r. ground (arith, low_refl y, low_asym x y);
                  }))
              | inr e ↦ rw e (
                  returns (record {
                    inside = h;
                    child = inl refl;
                    best = λ c p q r. ground (arith, low_refl x);
                  }))
            ]))
        (λ one. returns (record {
          inside = h;
          child = inl refl;
          best = λ c p q r.
              let only : c ≡ lchild i = ground arith in rw only (low_refl (get_or a (lchild i) d));
        }))

  module _ (lo n : ℕ) (a : List A) (tmp m : ℕ) (ele : A) (ht : tmp < n) (hn : n ≤ length a)
      (v : DownInv (below kc raft) d lo n (set a tmp ele) tmp) (b : IsBestChild n a tmp m) where
    -- The array with the hole filled, and the one with the hole moved to the child and filled.
    at : (j : ℕ) → get_or (set a tmp ele) j d ≡ (if tmp == j then ele else get_or a j d)
    at j = get_or-set a tmp j ele d (omega arith)

    moved :
        (j : ℕ)
        → get_or (set (set a tmp (get_or a m d)) m ele) j d
          ≡ (if m == j then ele else if tmp == j then get_or a m d else get_or a j d)
    moved j = rw (
      get_or-set (set a tmp (get_or a m d)) m j ele d (rw length-set (omega (arith, b.inside))),
      get_or-set a tmp j (get_or a m d) d (omega arith),
    )

    stop_heap :
        below kc raft (get_or a m d) ele ≡ true → IsHeapFrom (below kc raft) d lo n (set a tmp ele)
    stop_heap low c p q r = ground (
      arith,
      at c,
      at (parent c),
      v.edges c,
      b.best c,
      low_asym (get_or a m d) ele,
      (below-IsRank kc ord raft).trans ele (get_or a m d) (get_or a c d),
    )

    sink_DownInv :
        below kc raft (get_or a m d) ele ≡ false
        → DownInv (below kc raft) d lo n (set (set a tmp (get_or a m d)) m ele) m
    sink_DownInv low = record {
      edges = λ c p q r s. ground (
        arith,
        moved c,
        moved (parent c),
        at c,
        at (parent c),
        v.edges c,
        v.bridged m,
        at (parent tmp),
        at m,
        b.best c,
        b.child,
      );
      bridged =
          λ c p q r s t. ground (arith, moved c, moved (parent m), at c, at m, v.edges c, b.child);
    }

  -- What the loop leaves from a hole at `tmp`: filled, the array is in order from `lo`.
  record Sunk (lo n : ℕ) (a : List A) (tmp : ℕ) (ele : A) (s : Sift A) : Type ℓ where
    inside : s.hole < n
    later : tmp ≤ s.hole
    still : s.hole ≡ tmp → s.cells ≡ a
    sized : length s.cells ≡ length a
    filled : Sifted (below kc raft) d lo n (set a tmp ele) (set s.cells s.hole ele)

  Sunk-stay :
      {lo n : ℕ} {a : List A} {tmp : ℕ} {ele : A}
      → tmp < n
      → IsHeapFrom (below kc raft) d lo n (set a tmp ele)
      → Sunk lo n a tmp ele (record { cells = a; hole = tmp; calls = [] })
  Sunk-stay h heap = record {
    inside = h;
    later = omega arith;
    still = λ e. refl;
    sized = refl;
    filled = record { heap = heap; same = Rearranged-refl };
  }

  down_loop-Sunk :
      (f lo n : ℕ) (get_idx : Bool) (a : List A) (tmp : ℕ) (ele : A)
      → n - tmp < f
      → tmp < n
      → n ≤ length a
      → DownInv (below kc raft) d lo n (set a tmp ele) tmp
      → Returns (Sunk lo n a tmp ele) (down_loop kc raft f get_idx ele n a tmp (lchild tmp))
  unfolding down_loop
  down_loop-Sunk zero lo n get_idx a tmp ele fuel ht hn v = absurd (omega arith)
  down_loop-Sunk (suc f) lo n get_idx a tmp ele fuel ht hn v =
      Returns-if (ltb (lchild tmp) n)
        (λ e. Returns-bind (pick-IsBestChild n a tmp (ground arith) hn) λ m b.
          let x = get_or a m d in
          let sized : length (set a tmp x) ≡ length a = length-set a tmp x in
          rw (load-ok a m d (omega (arith, b.inside))) (
            Returns-if (below kc raft x ele)
              (λ low. returns (Sunk-stay ht (stop_heap lo n a tmp m ele ht hn v b low)))
              (λ high. rw (store-ok a tmp x (omega arith)) (
                Returns-bind
                  (down_loop-Sunk f lo n get_idx (set a tmp x) m ele (omega (arith, b.child))
                    b.inside (omega arith) (sink_DownInv lo n a tmp m ele ht hn v b high))
                  λ s k. returns (record {
                    inside = k.inside;
                    later = omega (arith, k.later, b.child);
                    still = λ same. absurd (omega (arith, k.later, b.child));
                    sized = k.sized ∙ sized;
                    filled =
                        Sifted-trans (below kc raft) d
                          (Rearranged-move n a tmp m ele d ht b.inside hn (omega (arith, b.child)))
                          k.filled;
                  })))))
        (λ e. returns (Sunk-stay ht λ c p q r. v.edges c p q r (ground arith)))

  -- `hp_down` turns an array with one entry too high in the tree into a heap of the same entries.
  pub hp_down-Sifted :
      (lo n : ℕ) (get_idx : Bool) (a : List A) (i : ℕ)
      → i < n
      → n ≤ length a
      → DownInv (below kc raft) d lo n a i
      → Returns (λ r. Sifted (below kc raft) d lo n a r.0) (hp_down kc raft get_idx n a i)
  unfolding hp_down settle
  hp_down-Sifted lo n get_idx a i hi hn v =
      let ele = get_or a i d in
      let whole : set a i ele ≡ a = set-get_or a i d in
      rw (load-ok a i d (omega arith)) (
        Returns-bind (down_loop-Sunk (n + 1) lo n get_idx a i ele (omega arith) hi hn (rw whole v))
          λ s k.
            Returns-if (i == s.hole)
              (λ e.
                let same : s.hole ≡ i = ground arith in
                let cells = k.still same in
                let full : set s.cells s.hole ele ≡ s.cells =
                  ap₂ (λ b j. set b j ele) cells same ∙ whole ∙ sym cells in
                returns (subst₂ (Sifted (below kc raft) d lo n) whole full k.filled))
              (λ e. rw (store-ok s.cells s.hole ele (omega (arith, k.inside, k.sized))) (
                returns (
                  subst (λ z. Sifted (below kc raft) d lo n z (set s.cells s.hole ele)) whole
                    k.filled))))
