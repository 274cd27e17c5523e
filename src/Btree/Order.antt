-- ===== src/Btree/Order.antt =====
-- Keys in order among the entries of the children, for the searches of trunk/src/tl_btree2.c.
use common_tool.Base.{
  ℕ, zero, suc, ◌+◌, ◌≡◌, subst, List, [], ◌∷◌, ◌++◌, Option, arith, length, append_assoc, take,
  drop, map, ℤ, IsOrder,
}
use common_tool.Rbtree.Ascending.{
  IsBelow, IsAbove, IsAscending, IsAbove-parts, IsAbove-append, IsBelow-append,
  IsBelow-of_ascending, IsBelow-trans, IsAbove-trans, IsAscending-parts,
}
use common_tool.Btree.Contents.{below, weave, before, after}

-- The keys of entries.
abbrev pub keys_of {ℓ κ} : {K : Type ℓ} {V : Type κ} → List (K × V) → List K
keys_of es = map (λ e. e.0) es

module _ {K V : Type 0} (kc : K → K → ℤ) where
  pub IsBelow-parts :
      (key : K) (xs ys : List (K × V)) → IsBelow kc key (xs ++ ys) → IsBelow kc key ys
  IsBelow-parts key [] ys h = h
  IsBelow-parts key (x ∷ xs) ys h = IsBelow-parts key xs ys h.1

module _ {K V : Type 0} {C : Type 0} (kc : K → K → ℤ) (f : C → List (K × V)) where
  pub IsAbove-weave :
      (key : K) (ks : List (K × V)) (cs : List (Option C))
      → IsAbove kc key (weave f ks cs)
      → IsAbove kc key ks
  IsAbove-weave key ks [] h = h
  IsAbove-weave key [] (c ∷ cs) h = tt
  IsAbove-weave key (k ∷ ks) (c ∷ cs) h =
      let right = (IsAbove-parts kc key (below f c) (k ∷ weave f ks cs) h).1 in
      (right.0, IsAbove-weave key ks cs right.1)

  -- The keys of a node are in order.
  pub IsAscending-weave :
      (ks : List (K × V)) (cs : List (Option C))
      → IsAscending kc (weave f ks cs)
      → IsAscending kc ks
  IsAscending-weave ks [] h = h
  IsAscending-weave [] (c ∷ cs) h = tt
  IsAscending-weave (k ∷ ks) (c ∷ cs) h =
      let right = (IsAscending-parts kc (below f c) (k ∷ weave f ks cs) h).1 in
      (IsAbove-weave k.0 ks cs right.0, IsAscending-weave ks cs right.1)

module _ {K V : Type 0} {C : Type 0} (kc : K → K → ℤ) (ord : IsOrder kc)
    (f : C → List (K × V)) where
  -- A key above the first `i` keys is above all that stands before the child `i`.
  pub IsBelow-before :
      (key : K) (i : ℕ) (ks : List (K × V)) (cs : List (Option C))
      → IsAscending kc (weave f ks cs)
      → IsBelow kc key (take i ks)
      → IsBelow kc key (before f i ks cs)
  IsBelow-before key zero ks cs h b = tt
  IsBelow-before key (suc i) [] cs h b = tt
  IsBelow-before key (suc i) (k ∷ ks) [] h b = tt
  IsBelow-before key (suc i) (k ∷ ks) (c ∷ cs) h b =
      let right = (IsAscending-parts kc (below f c) (k ∷ weave f ks cs) h).1 in
      IsBelow-append kc key (below f c) (k ∷ before f i ks cs)
        (IsBelow-trans kc ord k.0 key (below f c) b.0
          (IsBelow-of_ascending kc (below f c) k (weave f ks cs) h))
        (b.0, IsBelow-before key i ks cs right.1 b.1)

  -- A key below the others is below all that stands after that child.
  pub IsAbove-after :
      (key : K) (i : ℕ) (ks : List (K × V)) (cs : List (Option C))
      → IsAscending kc (weave f ks cs)
      → IsAbove kc key (drop i ks)
      → IsAbove kc key (after f i ks cs)
  IsAbove-after key zero [] cs h a = tt
  IsAbove-after key zero (k ∷ ks) [] h a = tt
  IsAbove-after key zero (k ∷ ks) (c ∷ cs) h a =
      let right = (IsAscending-parts kc (below f c) (k ∷ weave f ks cs) h).1 in
      (a.0, IsAbove-trans kc ord key k.0 (weave f ks cs) a.0 right.0)
  IsAbove-after key (suc i) [] cs h a = tt
  IsAbove-after key (suc i) (k ∷ ks) [] h a = tt
  IsAbove-after key (suc i) (k ∷ ks) (c ∷ cs) h a =
      let right = (IsAscending-parts kc (below f c) (k ∷ weave f ks cs) h).1 in
      IsAbove-after key i ks cs right.1 a

module _ {K V : Type 0} {C : Type 0} (kc : K → K → ℤ) (f : C → List (K × V)) where
  -- And the other way round.
  pub IsBelow-keys :
      (key : K) (i : ℕ) (ks : List (K × V)) (cs : List (Option C))
      → length cs ≡ length ks + 1
      → IsBelow kc key (before f i ks cs)
      → IsBelow kc key (take i ks)
  IsBelow-keys key zero ks cs e h = tt
  IsBelow-keys key (suc i) [] cs e h = tt
  IsBelow-keys key (suc i) (k ∷ ks) [] e h = absurd (omega arith)
  IsBelow-keys key (suc i) (k ∷ ks) (c ∷ cs) e h =
      let right = IsBelow-parts kc key (below f c) (k ∷ before f i ks cs) h in
      (right.0, IsBelow-keys key i ks cs (omega arith) right.1)

  pub IsAbove-keys :
      (key : K) (i : ℕ) (ks : List (K × V)) (cs : List (Option C))
      → length cs ≡ length ks + 1
      → IsAbove kc key (after f i ks cs)
      → IsAbove kc key (drop i ks)
  IsAbove-keys key zero [] cs e h = tt
  IsAbove-keys key zero (k ∷ ks) [] e h = absurd (omega arith)
  IsAbove-keys key zero (k ∷ ks) (c ∷ cs) e h = (h.0, IsAbove-weave kc f key ks cs h.1)
  IsAbove-keys key (suc i) [] cs e h = tt
  IsAbove-keys key (suc i) (k ∷ ks) [] e h = absurd (omega arith)
  IsAbove-keys key (suc i) (k ∷ ks) (c ∷ cs) e h = IsAbove-keys key i ks cs (omega arith) h

  IsAbove-around :
      (key : K) (i : ℕ) (ks : List (K × V)) (cs : List (Option C)) (xs : List (K × V))
      → length cs ≡ length ks + 1
      → IsAbove kc key (before f i ks cs ++ (xs ++ after f i ks cs))
      → IsAbove kc key ks
  IsAbove-around key i [] cs xs e h = tt
  IsAbove-around key i (k ∷ ks) [] xs e h = absurd (omega arith)
  IsAbove-around key zero (k ∷ ks) (c ∷ cs) xs e h =
      let right = (IsAbove-parts kc key xs (k ∷ weave f ks cs) h).1 in
      (right.0, IsAbove-weave kc f key ks cs right.1)
  IsAbove-around key (suc i) (k ∷ ks) (c ∷ cs) xs e h =
      let whole =
        (IsAbove-parts kc key (below f c ++ k ∷ before f i ks cs) (xs ++ after f i ks cs) h) in
      let left = (IsAbove-parts kc key (below f c) (k ∷ before f i ks cs) whole.0).1 in
      (
        left.0,
        IsAbove-around key i ks cs xs (omega arith)
            (IsAbove-append kc key (before f i ks cs) (xs ++ after f i ks cs) left.1 whole.1),
      )

  -- The keys of a node are in order whatever stands for one of its children.
  pub IsAscending-around :
      (i : ℕ) (ks : List (K × V)) (cs : List (Option C)) (xs : List (K × V))
      → length cs ≡ length ks + 1
      → IsAscending kc (before f i ks cs ++ (xs ++ after f i ks cs))
      → IsAscending kc ks
  IsAscending-around i [] cs xs e h = tt
  IsAscending-around i (k ∷ ks) [] xs e h = absurd (omega arith)
  IsAscending-around zero (k ∷ ks) (c ∷ cs) xs e h =
      let right = (IsAscending-parts kc xs (k ∷ weave f ks cs) h).1 in
      (IsAbove-weave kc f k.0 ks cs right.0, IsAscending-weave kc f ks cs right.1)
  IsAscending-around (suc i) (k ∷ ks) (c ∷ cs) xs e h =
      let all =
        subst (IsAscending kc)
          (append_assoc (below f c) (k ∷ before f i ks cs) (xs ++ after f i ks cs)) h in
      let right =
        (IsAscending-parts kc (below f c) (k ∷ (before f i ks cs ++ (xs ++ after f i ks cs)))
          all).1 in
      (
        IsAbove-around k.0 i ks cs xs (omega arith) right.0,
        IsAscending-around i ks cs xs (omega arith) right.1,
      )
