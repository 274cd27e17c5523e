-- ===== src/Sort/Insertion.antt =====
-- tl_i_sort of trunk/src/tl_sort.c: its loops and the order of the entries.
use common_tool.Base.{
  [], ◌∷◌, drop, subst, ℕ, zero, suc, ◌+◌, ◌-◌, ◌≤◌, ◌<◌, ◌≡◌, ◌≢◌, refl, sym, ap, ap₂, ◌∙◌, true,
  false, List, arith, ◌==◌, if◌then◌else◌, length, get_or, set, length-set, get_or-set, set-get_or,
  ℤ, is_pos, is_one, IsOrder, IsUnit, load-ok, store-ok, Returns, returns, Returns-bind,
  Returns-map, Returns-if, Bool-cases, inl, inr, Rearranged, Rearranged-refl, Rearranged-trans,
  Rearranged-length, Rearranged-move,
}
use common_tool.Sort.{sink, place, i_loop, i_sort}
use common_tool.Sort.Search.{IsSorted}

drop-suc {ℓ} : {A : Type ℓ} (m : ℕ) (a : List A) → drop (suc m) a ≡ drop 1 (drop m a)
drop-suc zero a = refl
drop-suc (suc m) [] = refl
drop-suc (suc m) (x ∷ a) = drop-suc m a

drop_wider {ℓ} :
    {A : Type ℓ} (m n : ℕ) (a b : List A) → m ≤ n → drop m b ≡ drop m a → drop n b ≡ drop n a
drop_wider m zero a b h e =
    let none_left : m ≡ 0 = omega arith in subst (λ m. drop m b ≡ drop m a) none_left e
drop_wider m (suc n) a b h e = elim (Bool-cases (m == suc n)) [
  | inl t ↦ let same : m ≡ suc n = ground arith in subst (λ m. drop m b ≡ drop m a) same e
  | inr t ↦ drop-suc n b ∙ ap (drop 1) (drop_wider m n a b (ground arith) e) ∙ sym (drop-suc n a)
]

module _ {ℓ} {A : Type ℓ} (cmp : A → A → ℤ) (ord : IsOrder cmp) (units : IsUnit cmp) (d : A) where
  -- The entries up to `i` are in order but for the hole at `p`, past which none is below `tmp`.
  record Hole (tmp : A) (a : List A) (p i : ℕ) : Type 0 where
    inside : i < length a
    order :
        (j k : ℕ)
        → j < k
        → k ≤ i
        → j ≢ p
        → k ≢ p
        → is_pos (cmp (get_or a j d) (get_or a k d)) ≡ false
    above : (k : ℕ) → p < k → k ≤ i → is_pos (cmp tmp (get_or a k d)) ≡ false

  Hole-move :
      (tmp : A) (a : List A) (p i : ℕ)
      → suc p ≤ i
      → is_pos (cmp tmp (get_or a p d)) ≡ false
      → Hole tmp a (suc p) i
      → Hole tmp (set a (suc p) (get_or a p d)) p i
  Hole-move tmp a p i h e v =
      let x = get_or a p d in
      let at : (j : ℕ) → get_or (set a (suc p) x) j d ≡ (if suc p == j then x else get_or a j d) =
        λ j. get_or-set a (suc p) j x d (omega (arith, v.inside)) in
      record {
        inside = omega (arith, v.inside, length-set a (suc p) x);
        order = λ j k q r s t. ground (arith, at j, at k, v.order j k, v.order p k, v.order j p);
        above = λ k q r. ground (arith, at k, v.above k);
      }

  -- What the inner loop leaves: `tmp` fits into the hole, and filling it rearranges the array.
  record Stopped (tmp : A) (i : ℕ) (a : List A) (p : ℕ) (r : List A × ℕ) : Type ℓ where
    hole : Hole tmp r.0 r.1 i
    reach : r.1 ≤ p
    still : r.1 ≡ p → r.0 ≡ a
    fits : (j : ℕ) → j < r.1 → is_pos (cmp (get_or r.0 j d) tmp) ≡ false
    same : Rearranged (suc i) (set a p tmp) (set r.0 r.1 tmp)

  not_above :
      (tmp : A) (a : List A) (p i j : ℕ)
      → suc p ≤ i
      → j < suc p
      → is_pos (cmp tmp (get_or a p d)) ≡ true
      → Hole tmp a (suc p) i
      → is_pos (cmp (get_or a j d) tmp) ≡ false
  not_above tmp a p i j h q e v = elim (Bool-cases (j == p)) [
    | inl t ↦
        let same : j ≡ p = ground arith in
        rw same (ground (arith, ord.flip (get_or a p d) tmp, ord.flip tmp (get_or a p d)))
    | inr t ↦ ground (
      arith,
      v.order j p,
      ord.flip (get_or a p d) tmp,
      ord.flip tmp (get_or a p d),
      ord.trans (get_or a j d) (get_or a p d) tmp,
    )
  ]

  sink-Stopped :
      (tmp : A) (a : List A) (p i : ℕ)
      → p ≤ i
      → Hole tmp a p i
      → Returns (Stopped tmp i a p) (sink cmp tmp a p)
  unfolding sink
  sink-Stopped tmp a zero i h v = returns (record {
    hole = v;
    reach = omega arith;
    still = λ e. refl;
    fits = λ j q. absurd (omega arith);
    same = Rearranged-refl;
  })
  sink-Stopped tmp a (suc p) i h v =
      let x = get_or a p d in
      rw (load-ok a p d (omega (arith, v.inside))) (
        Returns-if (is_one (cmp tmp x))
          (λ e. returns (record {
            hole = v;
            reach = omega arith;
            still = λ e. refl;
            fits = λ j q. not_above tmp a p i j h q (ground (arith, units.one tmp x)) v;
            same = Rearranged-refl;
          }))
          (λ e. rw (store-ok a (suc p) x (omega (arith, v.inside))) (
            Returns-map
              (sink-Stopped tmp (set a (suc p) x) p i (omega arith)
                (Hole-move tmp a p i h (ground (arith, units.one tmp x)) v))
              λ r s. record {
                hole = s.hole;
                reach = omega (arith, s.reach);
                still = λ e. absurd (omega (arith, s.reach));
                fits = s.fits;
                same =
                    Rearranged-trans
                      (Rearranged-move (suc i) a (suc p) p tmp d (omega arith) (omega arith)
                        (omega (arith, v.inside)) (omega arith))
                      s.same;
              })))

  -- The array with `tmp` in the hole.
  Stopped-sorted :
      (tmp : A) (i : ℕ) (a b : List A) (p : ℕ)
      → Stopped tmp i a i (b, p)
      → IsSorted cmp d (suc i) (set b p tmp)
  Stopped-sorted tmp i a b p s j k q r =
      let v = s.hole in
      let at : (j : ℕ) → get_or (set b p tmp) j d ≡ (if p == j then tmp else get_or b j d) =
        λ j. get_or-set b p j tmp d (omega (arith, v.inside, s.reach)) in
      ground (arith, at j, at k, v.order j k, v.above k, s.fits j)

  -- The first `n` entries are sorted, and the array is a rearrangement of another.
  pub record Sorted (n : ℕ) (a b : List A) : Type ℓ where
    pub sorted : IsSorted cmp d n b
    pub same : Rearranged n a b

  place-Sorted :
      (a : List A) (i : ℕ)
      → i < length a
      → IsSorted cmp d i a
      → Returns (Sorted (suc i) a) (place cmp a i)
  unfolding place
  place-Sorted a i h v =
      let tmp = get_or a i d in
      let whole : set a i tmp ≡ a = set-get_or a i d in
      rw (load-ok a i d h) (
        Returns-bind
          (sink-Stopped tmp a i i (omega arith) (record {
            inside = h;
            order = λ j k q r s t. v j k q (omega arith);
            above = λ k q r. absurd (omega arith);
          }))
          λ r s.
            let done : Sorted (suc i) a (set r.0 r.1 tmp) = record {
              sorted = Stopped-sorted tmp i a r.0 r.1 s;
              same = subst (λ l. Rearranged (suc i) l (set r.0 r.1 tmp)) whole s.same;
            } in
            Returns-if (r.1 == i)
              (λ e.
                let there : r.1 ≡ i = ground arith in
                let full : set r.0 r.1 tmp ≡ r.0 =
                  ap₂ (λ l j. set l j tmp) (s.still there) there ∙ whole ∙ sym (s.still there) in
                returns (subst (Sorted (suc i) a) full done))
              (λ e.
                rw (store-ok r.0 r.1 tmp (omega (arith, s.hole.inside, s.reach))) (returns done)))

  Rearranged-wider : (m n : ℕ) (a b : List A) → m ≤ n → Rearranged m a b → Rearranged n a b
  Rearranged-wider m n a b h r = record { perm = r.perm; rest = drop_wider m n a b h r.rest }

  i_loop-Sorted :
      (left : ℕ) (a : List A) (i : ℕ)
      → i + left ≡ length a
      → IsSorted cmp d i a
      → Returns (Sorted (length a) a) (i_loop cmp left a i)
  unfolding i_loop
  i_loop-Sorted zero a i h v =
      let all : i ≡ length a = omega arith in
      returns (record { sorted = subst (λ n. IsSorted cmp d n a) all v; same = Rearranged-refl })
  i_loop-Sorted (suc left) a i h v = Returns-bind (place-Sorted a i (omega arith) v) λ b s.
      let size = Rearranged-length s.same in
      let next : i + 1 ≡ suc i = omega arith in
      rw (next, sym size)
        (Returns-map (i_loop-Sorted left b (suc i) (omega arith) s.sorted) λ c t. record {
          sorted = t.sorted;
          same =
              Rearranged-trans (Rearranged-wider (suc i) (length b) a b (omega arith) s.same)
                t.same;
        })

  -- With a comparison that is an order and answers -1, 0 or 1, tl_i_sort returns the entries of the
  -- array in ascending order.
  pub i_sort_correct : (a : List A) → Returns (Sorted (length a) a) (i_sort cmp a)
  unfolding i_sort i_loop
  i_sort_correct [] =
      returns (record { sorted = λ i j p q. absurd (omega arith); same = Rearranged-refl })
  i_sort_correct (x ∷ a) =
      i_loop-Sorted (length (x ∷ a) - 1) (x ∷ a) 1 (omega arith) λ j k q r. absurd (omega arith)
