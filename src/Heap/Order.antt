-- ===== src/Heap/Order.antt =====
-- What the sift loops restore: the order of the heap, over the test that they share.
use common_tool.Base.{
  ℕ, ◌≤◌, ◌<◌, ◌≡◌, ◌≢◌, Bool, true, false, List, arith, ℤ, is_neg, is_pos, IsOrder, get_or,
  Rearranged, Rearranged-trans,
}
use common_tool.Heap.{parent, below, above}

-- The laws of a strict test `low x y`, "`x` ranks below `y`".
pub record IsRank {ℓ} {A : Type ℓ} (low : A → A → Bool) : Type ℓ where
  pub asym : (x y : A) → low x y ≡ true → low y x ≡ false
  pub trans : (x y z : A) → low x y ≡ false → low y z ≡ false → low x z ≡ false

module _ {ℓ} {A : Type ℓ} (kc : A → A → ℤ) (ord : IsOrder kc) where
  neg_asym : (x y : A) → is_neg (kc x y) ≡ true → is_neg (kc y x) ≡ false
  neg_asym x y h = ground (arith, ord.flip x y)

  pos_asym : (x y : A) → is_pos (kc x y) ≡ true → is_pos (kc y x) ≡ false
  pos_asym x y h = ground (arith, ord.flip y x)

  pub below-asym : (raft : Bool) (x y : A) → below kc raft x y ≡ true → below kc raft y x ≡ false
  unfolding below
  below-asym true x y h = ground (arith, neg_asym x y)
  below-asym false x y h = ground (arith, pos_asym x y)

  pub below_trans :
      (raft : Bool) (x y z : A)
      → below kc raft x y ≡ false
      → below kc raft y z ≡ false
      → below kc raft x z ≡ false
  unfolding below
  below_trans true x y z h k =
      ground (arith, ord.flip x y, ord.flip y z, ord.flip x z, ord.trans z y x)
  below_trans false x y z h k = ground (arith, ord.trans x y z)

  pub below-IsRank : (raft : Bool) → IsRank (below kc raft)
  below-IsRank raft = record { asym = below-asym raft; trans = below_trans raft }

  -- The test of `hp_up` is that of `hp_down` with its arguments exchanged.
  pub above-flip : (raft : Bool) (x y : A) → above kc raft x y ≡ below kc raft y x
  unfolding above below
  above-flip true x y = ground (arith, ord.flip y x)
  above-flip false x y = ground (arith, ord.flip x y)

module _ {ℓ} {A : Type ℓ} (low : A → A → Bool) (d : A) where
  -- Every edge among the first `n` entries whose parent is at `lo` or later is in order. `d` stands
  -- for an entry out of range, which no edge reads.
  abbrev pub IsHeapFrom : ℕ → ℕ → List A → Type 0
  IsHeapFrom lo n a =
      (c : ℕ) → 0 < c → c < n → lo ≤ parent c → low (get_or a (parent c) d) (get_or a c d) ≡ false

  -- The entry above the hole does not rank below those under it.
  abbrev pub IsBridged : ℕ → ℕ → List A → ℕ → Type 0
  IsBridged lo n a i =
      (c : ℕ)
      → 0 < c
      → c < n
      → parent c ≡ i
      → 0 < i
      → lo ≤ parent i
      → low (get_or a (parent i) d) (get_or a c d) ≡ false

  -- Only the edges below `i` may be out of order.
  pub record DownInv (lo n : ℕ) (a : List A) (i : ℕ) : Type 0 where
    pub edges :
        (c : ℕ)
        → 0 < c
        → c < n
        → lo ≤ parent c
        → parent c ≢ i
        → low (get_or a (parent c) d) (get_or a c d) ≡ false
    pub bridged : IsBridged lo n a i

  -- Only the edge above `i` may be out of order.
  pub record UpInv (n : ℕ) (a : List A) (i : ℕ) : Type 0 where
    pub edges : (c : ℕ) → 0 < c → c < n → c ≢ i → low (get_or a (parent c) d) (get_or a c d) ≡ false
    pub bridged : IsBridged 0 n a i

  -- `b` has the first `n` entries of `a` in order from `lo`, and the others in their places.
  pub record Sifted (lo n : ℕ) (a b : List A) : Type ℓ where
    pub heap : IsHeapFrom lo n b
    pub same : Rearranged n a b

  pub Sifted-trans :
      {lo n : ℕ} {a b c : List A} → Rearranged n a b → Sifted lo n b c → Sifted lo n a c
  Sifted-trans p s = record { heap = s.heap; same = Rearranged-trans p s.same }
