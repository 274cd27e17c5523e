-- ===== src/Queue/Take.antt =====
-- tl_queue_pop and tl_queue_top of trunk/src/tl_queue.c on a valid queue.
use common_tool.Base.{
  ℕ, zero, suc, ◌+◌, ◌≤◌, ◌≡◌, refl, sym, ap, ◌∙◌, true, false, Option, some, List, [], ◌∷◌, ◌++◌,
  arith, ◌==◌, length, get_elem?, drop, length-drop, ok, load, Returns, returns, Returns-bind,
  Returns-if,
}
use common_tool.Queue.{Chunk, Queue, pop_chain, pop, first, top}
use common_tool.Queue.Fifo.{
  window, window_first, live, entries, content, IsLive, IsSpare, AllLive, AllSpare, IsValid,
}

module _ {ℓ} {A : Type ℓ} where
  window_empty : (s e : ℕ) (xs : List A) → e ≤ s → window s e xs ≡ []
  window_empty zero zero xs h = refl
  window_empty zero (suc e) xs h = absurd (omega arith)
  window_empty (suc s) zero xs h = refl
  window_empty (suc s) (suc e) [] h = refl
  window_empty (suc s) (suc e) (x ∷ xs) h = window_empty s e xs (omega arith)

module _ {ℓ} {A : Type ℓ} where
  -- The first array of a chain that is not empty.
  record Front (c : Chunk A) : Type ℓ where
    oldest : Option A
    read : get_elem? c.container c.s ≡ some oldest
    split : live c ≡ oldest ∷ window (c.s + 1) c.e c.container

  front : (c : Chunk A) → IsLive c → Front c
  front c v =
      let next : c.s + 1 ≡ suc c.s = omega arith in
      let (y, r, e) =
        window_first c.s c.e c.container v.some_left (omega (arith, v.inside, v.sized)) in
      record { oldest = y; read = r; split = rw next e }

  -- What tl_queue_pop leaves of a chain.
  abbrev Shorter : List (Chunk A) → List (Chunk A) × List (Chunk A) → Type ℓ
  Shorter cs r = AllLive r.0 × AllSpare r.1 × (entries r.0 ≡ drop 1 (entries cs))

  spent : (c : Chunk A) → IsLive c → IsSpare (record c { s = c.s + 1 })
  spent c v = record { room = omega (arith, v.some_left, v.inside); sized = v.sized }

  -- The first array has no entry but its first.
  lone :
      (c : Chunk A) (cs : List (Chunk A))
      → (v : IsLive c) → c.e ≡ c.s + 1
      → entries (c ∷ cs) ≡ (front c v).oldest ∷ entries cs
  lone c cs v e =
      let p = front c v in
      ap (λ l. l ++ entries cs)
        (p.split ∙ ap (◌∷◌ p.oldest) (window_empty (c.s + 1) c.e c.container (omega arith)))

  -- The first array has more entries.
  left_over :
      (c : Chunk A) (cs f : List (Chunk A))
      → AllLive (c ∷ cs)
      → AllSpare f
      → (c.e == c.s + 1) ≡ false
      → Returns (Shorter (c ∷ cs)) (ok (record c { s = c.s + 1 } ∷ cs, f))
  left_over c cs f h k e = returns (
    (
      record { some_left = ground (arith, h.0.some_left); inside = h.0.inside; sized = h.0.sized },
      h.1,
    ),
    k,
    ap (λ l. drop 1 (l ++ entries cs)) (sym (front c h.0).split),
  )

  pop_chain-Shorter :
      (n : ℕ) (c : Chunk A) (cs f : List (Chunk A))
      → AllLive (c ∷ cs)
      → AllSpare f
      → n ≡ length (entries (c ∷ cs))
      → Returns (Shorter (c ∷ cs)) (pop_chain n (c ∷ cs) f)
  unfolding pop_chain
  pop_chain-Shorter n c [] f h k z =
      Returns-if (c.e == c.s + 1)
        (λ e.
          let all = lone c [] h.0 (ground arith) in
          let one : (n == 1) ≡ true = ground (arith, z ∙ ap length all) in
          rw one (returns (tt, (spent c h.0, k), ap (drop 1) (sym all))))
        (λ e. left_over c [] f h k e)
  pop_chain-Shorter n c (d ∷ ds) f h k z =
      Returns-if (c.e == c.s + 1)
        (λ e.
          let all = lone c (d ∷ ds) h.0 (ground arith) in
          returns (h.1, (spent c h.0, k), ap (drop 1) (sym all)))
        (λ e. left_over c (d ∷ ds) f h k e)

  pop_cases :
      (n : ℕ) (cs f : List (Chunk A))
      → IsValid (record { size = n; chain = cs; f = f })
      → Returns
          (λ q. IsValid q × (content q ≡ drop 1 (entries cs)))
          (pop (record { size = n; chain = cs; f = f }))
  unfolding pop
  pop_cases n [] f v =
      let none_left : (n == 0) ≡ true = ground (arith, v.counted) in
      rw none_left (returns (v, refl))
  pop_cases n (c ∷ cs) f v =
      let p = front c v.used.0 in
      let some_left : (n == 0) ≡ false =
        ground (arith, v.counted, ap (λ l. length (l ++ entries cs)) p.split) in
      rw some_left (
        Returns-bind (pop_chain-Shorter n c cs f v.used v.spare v.counted) λ r s. returns (
          record {
            used = s.0;
            spare = s.1;
            counted = omega (arith, v.counted, ap length s.2, length-drop 1 (entries (c ∷ cs)));
          },
          s.2,
        ))

  -- tl_queue_pop on a valid queue returns and leaves a valid queue without the oldest entry; an empty
  -- queue stays empty.
  pub pop_oldest :
      (q : Queue A)
      → IsValid q
      → Returns (λ q'. IsValid q' × (content q' ≡ drop 1 (content q))) (pop q)
  pop_oldest q = pop_cases q.size q.chain q.f

  top_cases :
      (n : ℕ) (cs f : List (Chunk A))
      → IsValid (record { size = n; chain = cs; f = f })
      → top (record { size = n; chain = cs; f = f }) ≡ ok (get_elem? (entries cs) 0)
  unfolding top first load
  top_cases n [] f v = let none_left : (n == 0) ≡ true = ground (arith, v.counted) in rw none_left
  top_cases n (c ∷ cs) f v =
      let p = front c v.used.0 in
      let some_left : (n == 0) ≡ false =
        ground (arith, v.counted, ap (λ l. length (l ++ entries cs)) p.split) in
      rw (some_left, p.read, p.split)

  -- tl_queue_top on a valid queue points at the oldest entry, or is NULL on an empty one.
  pub top_oldest : (q : Queue A) → IsValid q → top q ≡ ok (get_elem? (content q) 0)
  top_oldest q = top_cases q.size q.chain q.f
