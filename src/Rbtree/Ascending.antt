-- ===== src/Rbtree/Ascending.antt =====
-- Lists of entries in ascending order of their keys: the abstract view of the tree.
use common_tool.Base.{
  ◌≡◌, refl, ap, true, false, Option, none, some, List, [], ◌∷◌, ◌++◌, arith, if◌then◌else◌, ℤ,
  is_neg, is_zero, IsOrder,
}

-- `a < b`
abbrev pub Lt {ℓ} : {K : Type ℓ} → (K → K → ℤ) → K → K → Type 0
Lt kc a b = is_neg (kc a b) ≡ true

module _ {ℓ κ} {K : Type ℓ} {V : Type κ} (kc : K → K → ℤ) where
  abbrev pub IsBelow : K → List (K × V) → Type 0
  IsBelow key [] = Unit
  IsBelow key (e ∷ es) = Lt kc e.0 key × IsBelow key es

  abbrev pub IsAbove : K → List (K × V) → Type 0
  IsAbove key [] = Unit
  IsAbove key (e ∷ es) = Lt kc key e.0 × IsAbove key es

  abbrev pub IsAscending : List (K × V) → Type 0
  IsAscending [] = Unit
  IsAscending (e ∷ es) = IsAbove e.0 es × IsAscending es

  -- The entry with the key.
  unfoldable pub find : K → List (K × V) → Option (K × V)
  find key [] = none
  find key (e ∷ es) = if is_zero (kc key e.0) then some e else find key es

  -- The entry put in its place.
  pub put : K × V → List (K × V) → List (K × V)
  put kv [] = kv ∷ []
  put kv (e ∷ es) = if is_neg (kc kv.0 e.0) then kv ∷ e ∷ es else e ∷ put kv es

  -- The entry with the key taken out.
  pub cut : K → List (K × V) → List (K × V)
  cut key [] = []
  cut key (e ∷ es) = if is_zero (kc key e.0) then es else e ∷ cut key es

module _ {ℓ κ} {K : Type ℓ} {V : Type κ} (kc : K → K → ℤ) where
  pub find_head :
      (key : K) (e : K × V) (es : List (K × V))
      → is_zero (kc key e.0) ≡ true
      → find kc key (e ∷ es) ≡ some e
  unfolding find
  find_head key e es h = rw h

  pub IsBelow-append :
      (key : K) (xs ys : List (K × V))
      → IsBelow kc key xs
      → IsBelow kc key ys
      → IsBelow kc key (xs ++ ys)
  IsBelow-append key [] ys h k = k
  IsBelow-append key (x ∷ xs) ys h k = (h.0, IsBelow-append key xs ys h.1 k)

  pub IsAbove-append :
      (key : K) (xs ys : List (K × V))
      → IsAbove kc key xs
      → IsAbove kc key ys
      → IsAbove kc key (xs ++ ys)
  IsAbove-append key [] ys h k = k
  IsAbove-append key (x ∷ xs) ys h k = (h.0, IsAbove-append key xs ys h.1 k)

  pub IsAbove-parts :
      (key : K) (xs ys : List (K × V))
      → IsAbove kc key (xs ++ ys)
      → IsAbove kc key xs × IsAbove kc key ys
  IsAbove-parts key [] ys h = (tt, h)
  IsAbove-parts key (x ∷ xs) ys h = let r = IsAbove-parts key xs ys h.1 in ((h.0, r.0), r.1)

  pub IsAscending-parts :
      (xs ys : List (K × V)) → IsAscending kc (xs ++ ys) → IsAscending kc xs × IsAscending kc ys
  IsAscending-parts [] ys h = (tt, h)
  IsAscending-parts (x ∷ xs) ys h =
      let r = IsAscending-parts xs ys h.1 in (((IsAbove-parts x.0 xs ys h.0).0, r.0), r.1)

  -- The entries before one of an ascending list are below its key.
  pub IsBelow-of_ascending :
      (xs : List (K × V)) (e : K × V) (ys : List (K × V))
      → IsAscending kc (xs ++ e ∷ ys)
      → IsBelow kc e.0 xs
  IsBelow-of_ascending [] e ys h = tt
  IsBelow-of_ascending (x ∷ xs) e ys h =
      ((IsAbove-parts x.0 xs (e ∷ ys) h.0).1.0, IsBelow-of_ascending xs e ys h.1)

module _ {ℓ} {K : Type ℓ} (kc : K → K → ℤ) (ord : IsOrder kc) where
  Lt-ne_zero : (a b : K) → Lt kc a b → is_zero (kc a b) ≡ false
  Lt-ne_zero a b h = ground arith

  pub gt_of : (a b : K) → is_zero (kc a b) ≡ false → is_neg (kc a b) ≡ false → Lt kc b a
  gt_of a b h k = ground (arith, ord.flip b a)

  pub Lt-equal : (a b key : K) → Lt kc a b → is_zero (kc key b) ≡ true → Lt kc a key
  Lt-equal a b key h z = ground (
    arith,
    ord.flip a b,
    ord.flip key b,
    ord.flip b key,
    ord.flip key a,
    ord.flip a key,
    ord.trans b key a,
  )

  pub Lt-trans : (a b c : K) → Lt kc a b → Lt kc b c → Lt kc a c
  Lt-trans a b c h k = ground (
    arith,
    ord.flip a b,
    ord.flip b c,
    ord.flip c a,
    ord.flip a c,
    ord.flip c b,
    ord.flip b a,
    ord.trans c a b,
  )

module _ {ℓ κ} {K : Type ℓ} {V : Type κ} (kc : K → K → ℤ) (ord : IsOrder kc) where
  -- A key that compares equal may stand for the other.
  pub IsBelow-equal :
      (a key : K) (xs : List (K × V))
      → is_zero (kc key a) ≡ true
      → IsBelow kc a xs
      → IsBelow kc key xs
  IsBelow-equal a key [] z h = tt
  IsBelow-equal a key (x ∷ xs) z h = (Lt-equal kc ord x.0 a key h.0 z, IsBelow-equal a key xs z h.1)

  pub IsAbove-trans : (a b : K) (xs : List (K × V)) → Lt kc a b → IsAbove kc b xs → IsAbove kc a xs
  IsAbove-trans a b [] h k = tt
  IsAbove-trans a b (x ∷ xs) h k = (Lt-trans kc ord a b x.0 h k.0, IsAbove-trans a b xs h k.1)

  pub IsBelow-trans : (a b : K) (xs : List (K × V)) → Lt kc a b → IsBelow kc a xs → IsBelow kc b xs
  IsBelow-trans a b [] h k = tt
  IsBelow-trans a b (x ∷ xs) h k = (Lt-trans kc ord x.0 a b k.0 h, IsBelow-trans a b xs h k.1)

  pub find-IsBelow :
      (key : K) (xs ys : List (K × V)) → IsBelow kc key xs → find kc key (xs ++ ys) ≡ find kc key ys
  unfolding find
  find-IsBelow key [] ys h = refl
  find-IsBelow key (x ∷ xs) ys h =
      let differ : is_zero (kc key x.0) ≡ false = ground (arith, ord.flip x.0 key) in
      rw differ (find-IsBelow key xs ys h.1)

  pub find-IsAbove : (key : K) (xs : List (K × V)) → IsAbove kc key xs → find kc key xs ≡ none
  unfolding find
  find-IsAbove key [] h = refl
  find-IsAbove key (x ∷ xs) h = rw (Lt-ne_zero kc ord key x.0 h.0) (find-IsAbove key xs h.1)

  pub put-between :
      (kv : K × V) (xs ys : List (K × V))
      → IsBelow kc kv.0 xs
      → IsAbove kc kv.0 ys
      → put kc kv (xs ++ ys) ≡ xs ++ kv ∷ ys
  unfolding put
  put-between kv [] [] h k = refl
  put-between kv [] (y ∷ ys) h k = rw k.0
  put-between kv (x ∷ xs) ys h k =
      let differ : is_neg (kc kv.0 x.0) ≡ false =
        ground (arith, ord.flip kv.0 x.0, ord.flip x.0 kv.0) in
      rw differ (ap (◌∷◌ x) (put-between kv xs ys h.1 k))

  pub cut-between :
      (key : K) (xs : List (K × V)) (e : K × V) (ys : List (K × V))
      → IsBelow kc key xs
      → is_zero (kc key e.0) ≡ true
      → cut kc key (xs ++ e ∷ ys) ≡ xs ++ ys
  unfolding cut
  cut-between key [] e ys h z = rw z
  cut-between key (x ∷ xs) e ys h z =
      let differ : is_zero (kc key x.0) ≡ false = ground (arith, ord.flip x.0 key) in
      rw differ (ap (◌∷◌ x) (cut-between key xs e ys h.1 z))

  pub IsAscending-insert :
      (xs : List (K × V)) (kv : K × V) (ys : List (K × V))
      → IsAscending kc (xs ++ ys)
      → IsBelow kc kv.0 xs
      → IsAbove kc kv.0 ys
      → IsAscending kc (xs ++ kv ∷ ys)
  IsAscending-insert [] kv ys h k a = (a, h)
  IsAscending-insert (x ∷ xs) kv ys h k a =
      let parts = IsAbove-parts kc x.0 xs ys h.0 in
      (
        IsAbove-append kc x.0 xs (kv ∷ ys) parts.0 (k.0, parts.1),
        IsAscending-insert xs kv ys h.1 k.1 a,
      )

  pub IsAscending-remove :
      (xs : List (K × V)) (e : K × V) (ys : List (K × V))
      → IsAscending kc (xs ++ e ∷ ys)
      → IsAscending kc (xs ++ ys)
  IsAscending-remove [] e ys h = h.1
  IsAscending-remove (x ∷ xs) e ys h =
      let parts = IsAbove-parts kc x.0 xs (e ∷ ys) h.0 in
      (IsAbove-append kc x.0 xs ys parts.0 parts.1.1, IsAscending-remove xs e ys h.1)
