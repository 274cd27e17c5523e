-- ===== src/Btree/Locate/Place.antt =====
-- Where tl_bsearch stops among the keys of a node of trunk/src/tl_btree2.c.
use common_tool.Base.{
  ℕ, zero, suc, ◌^◌, ◌≤◌, ◌<◌, ◌≡◌, refl, ◌∙◌, ap, true, List, [], ◌∷◌, arith, length, get_or, take,
  drop, length-take, ℤ, is_neg, is_pos, is_zero, IsOrder, Returns, returns, Returns-bind,
}
use common_tool.Sort.Search.{IsSorted, Answer, present, absent, bsearch_correct}
use common_tool.Rbtree.Ascending.{IsBelow, IsAbove, IsAscending}
use common_tool.Btree.{Node}
use common_tool.Btree.Order.{keys_of}
use common_tool.Btree.Locate.{bsearch_node, index}

module _ {K V : Type 0} (kc : K → K → ℤ) where
  -- The entry with the key, or the gap where it would stand.
  pub data At (key : K) (ks : List (K × V)) : ℕ → Type 0 where
    hit_at :
        (i : ℕ)
        → i < length ks
        → is_zero (kc (get_or (keys_of ks) i key) key) ≡ true
        → IsBelow kc key (take i ks)
        → At key ks i
    gap_at :
        (i : ℕ)
        → i ≤ length ks
        → IsBelow kc key (take i ks)
        → IsAbove kc key (drop i ks)
        → At key ks i

  pub length-keys_of : (ks : List (K × V)) → length (keys_of ks) ≡ length ks
  length-keys_of [] = refl
  length-keys_of (e ∷ es) = ap suc (length-keys_of es)

  IsBelow-points :
      (key : K) (i : ℕ) (ks : List (K × V))
      → i ≤ length ks
      → ((j : ℕ) → j < i → is_neg (kc (get_or (keys_of ks) j key) key) ≡ true)
      → IsBelow kc key (take i ks)
  IsBelow-points key zero ks h p = tt
  IsBelow-points key (suc i) [] h p = tt
  IsBelow-points key (suc i) (k ∷ ks) h p =
      (p 0 (omega arith), IsBelow-points key i ks (omega arith) λ j l. p (suc j) (omega arith))

  points-IsBelow :
      (key d : K) (i j : ℕ) (ks : List (K × V))
      → IsBelow kc key (take i ks)
      → j < i
      → j < length ks
      → is_neg (kc (get_or (keys_of ks) j d) key) ≡ true
  points-IsBelow key d zero j ks h l m = absurd (omega arith)
  points-IsBelow key d (suc i) j [] h l m = absurd (omega arith)
  points-IsBelow key d (suc i) zero (k ∷ ks) h l m = h.0
  points-IsBelow key d (suc i) (suc j) (k ∷ ks) h l m =
      points-IsBelow key d i j ks h.1 (omega arith) (omega arith)

  pub points-IsAbove :
      (key d : K) (i j : ℕ) (ks : List (K × V))
      → IsAbove kc key (drop i ks)
      → i ≤ j
      → j < length ks
      → is_neg (kc key (get_or (keys_of ks) j d)) ≡ true
  points-IsAbove key d i j [] h l m = absurd (omega arith)
  points-IsAbove key d zero zero (k ∷ ks) h l m = h.0
  points-IsAbove key d zero (suc j) (k ∷ ks) h l m =
      points-IsAbove key d zero j ks h.1 (omega arith) (omega arith)
  points-IsAbove key d (suc i) zero (k ∷ ks) h l m = absurd (omega arith)
  points-IsAbove key d (suc i) (suc j) (k ∷ ks) h l m =
      points-IsAbove key d i j ks h (omega arith) (omega arith)

module _ {K V : Type 0} (kc : K → K → ℤ) (ord : IsOrder kc) where
  IsAbove-points :
      (key : K) (i : ℕ) (ks : List (K × V))
      → ((j : ℕ) → i ≤ j → j < length ks → is_pos (kc (get_or (keys_of ks) j key) key) ≡ true)
      → IsAbove kc key (drop i ks)
  IsAbove-points key zero [] p = tt
  IsAbove-points key (suc i) [] p = tt
  IsAbove-points key zero (k ∷ ks) p = (
    ord.flip key k.0 ∙ p 0 (omega arith) (omega arith),
    IsAbove-points key zero ks λ j l m. p (suc j) (omega arith) (omega arith),
  )
  IsAbove-points key (suc i) (k ∷ ks) p =
      IsAbove-points key i ks λ j l m. p (suc j) (omega arith) (omega arith)

  -- Keys in order, for tl_bsearch.
  IsSorted-of_ascending :
      (d : K) (ks : List (K × V))
      → IsAscending kc ks
      → IsSorted kc d (length (keys_of ks)) (keys_of ks)
  IsSorted-of_ascending d [] h i j l m = absurd (omega arith)
  IsSorted-of_ascending d (k ∷ ks) h i zero l m = absurd (omega arith)
  IsSorted-of_ascending d (k ∷ ks) h zero (suc j) l m =
      let e =
        points-IsAbove kc k.0 d 0 j ks h.0 (omega arith) (omega (arith, length-keys_of kc ks)) in
      ground (arith, e)
  IsSorted-of_ascending d (k ∷ ks) h (suc i) (suc j) l m =
      IsSorted-of_ascending d ks h.1 i j (omega arith) (omega arith)

  index-At :
      (key : K) (ks : List (K × V)) (asc : IsAscending kc ks) (z : ℤ)
      → Answer kc ord key (keys_of ks) key (IsSorted-of_ascending key ks asc) true z
      → Returns (At kc key ks) (index z)
  index-At key ks asc _ (present h l hit less) = returns (
      hit_at h (omega (arith, length-keys_of kc ks)) hit
        (IsBelow-points kc key h ks (omega (arith, length-keys_of kc ks)) less))
  index-At key ks asc _ (absent h l less more) = returns (
      gap_at h (omega (arith, length-keys_of kc ks))
        (IsBelow-points kc key h ks (omega (arith, length-keys_of kc ks)) less)
        (IsAbove-points key h ks λ j p q. more j p (omega (arith, length-keys_of kc ks))))

  pub bsearch_node-At :
      {C : Type 0} (node : Node (K × V) C) (key : K)
      → IsAscending kc (take node.cnt_used node.pkv)
      → node.cnt_used ≤ 2 ^ 30
      → Returns (At kc key (take node.cnt_used node.pkv)) (bsearch_node kc node key)
  unfolding bsearch_node
  bsearch_node-At node key asc small =
      let ks = take node.cnt_used node.pkv in
      Returns-bind
        (bsearch_correct kc ord key (keys_of ks) key (IsSorted-of_ascending key ks asc) true
          (omega (arith, small, length-keys_of kc ks, length-take node.cnt_used node.pkv)))
        (index-At key ks asc)

  -- There is one such place.
  pub At-unique :
      (key : K) (ks : List (K × V)) (i j : ℕ)
      → At kc key ks j
      → i ≤ length ks
      → IsBelow kc key (take i ks)
      → IsAbove kc key (drop i ks)
      → j ≡ i
  At-unique key ks i _ (hit_at j l z b) h below above = absurd (
      ground (
        arith,
        points-IsBelow kc key key i j ks below,
        points-IsAbove kc key key i j ks above,
        ord.flip key (get_or (keys_of ks) j key),
      ))
  At-unique key ks i _ (gap_at j l b a) h below above = ground (
    arith,
    points-IsBelow kc key key i j ks below,
    points-IsAbove kc key key j j ks a,
    points-IsBelow kc key key j i ks b,
    points-IsAbove kc key key i i ks above,
    ord.flip key (get_or (keys_of ks) j key),
    ord.flip key (get_or (keys_of ks) i key),
  )
