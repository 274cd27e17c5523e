-- ===== src/Btree/Ends.antt =====
-- The entries of a node of trunk/src/tl_btree2.c on either side of an entry.
use common_tool.Base.{
  ℕ, zero, suc, ◌+◌, ◌≤◌, ◌<◌, ◌≡◌, refl, sym, List, [], ◌∷◌, ◌++◌, Option, arith, length, get_or,
  take, drop, append-nil,
}
use common_tool.Btree.Contents.{below, weave, before, after, under_head}

module _ {A : Type 0} {C : Type 0} (f : C → List A) where
  -- Up to a key: what stands before the child in front of it, and the child.
  pub weave-take :
      (i : ℕ) (ks : List A) (cs : List (Option C)) (d : Option C)
      → length cs ≡ length ks + 1
      → i ≤ length ks
      → weave f (take i ks) (take (i + 1) cs) ≡ before f i ks cs ++ below f (get_or cs i d)
  weave-take i ks [] d e h = absurd (omega arith)
  weave-take zero ks (x ∷ cs) d e h = refl
  weave-take (suc i) [] (x ∷ cs) d e h = absurd (omega arith)
  weave-take (suc i) (k ∷ ks) (x ∷ cs) d e h =
      let one_up : suc i + 1 ≡ suc (i + 1) = omega arith in
      rw one_up (
        under_head f x k _ (before f i ks cs) (below f (get_or cs i d))
          (weave-take i ks cs d (omega arith) (omega arith)))

  -- From a key on.
  pub after-drop :
      (i : ℕ) (ks : List A) (cs : List (Option C)) (d : A)
      → length cs ≡ length ks + 1
      → i < length ks
      → after f i ks cs ≡ get_or ks i d ∷ weave f (drop (i + 1) ks) (drop (i + 1) cs)
  after-drop i [] cs d e h = absurd (omega arith)
  after-drop i (k ∷ ks) [] d e h = absurd (omega arith)
  after-drop zero (k ∷ ks) (x ∷ cs) d e h = refl
  after-drop (suc i) (k ∷ ks) (x ∷ cs) d e h =
      let one_up : suc i + 1 ≡ suc (i + 1) = omega arith in
      rw one_up (after-drop i ks cs d (omega arith) (omega arith))

  -- From a child on.
  pub weave-drop :
      (i : ℕ) (ks : List A) (cs : List (Option C)) (d : Option C)
      → length cs ≡ length ks + 1
      → i ≤ length ks
      → weave f (drop i ks) (drop i cs) ≡ below f (get_or cs i d) ++ after f i ks cs
  weave-drop i ks [] d e h = absurd (omega arith)
  weave-drop zero [] (x ∷ []) d e h = sym (append-nil (below f x))
  weave-drop zero [] (x ∷ y ∷ cs) d e h = absurd (omega arith)
  weave-drop zero (k ∷ ks) (x ∷ cs) d e h = refl
  weave-drop (suc i) [] (x ∷ cs) d e h = absurd (omega arith)
  weave-drop (suc i) (k ∷ ks) (x ∷ cs) d e h = weave-drop i ks cs d (omega arith) (omega arith)

  -- Up to the child behind a key.
  pub before-next :
      (i : ℕ) (ks : List A) (cs : List (Option C)) (d : A)
      → length cs ≡ length ks + 1
      → i < length ks
      → before f (i + 1) ks cs ≡ weave f (take i ks) (take (i + 1) cs) ++ get_or ks i d ∷ []
  before-next i [] cs d e h = absurd (omega arith)
  before-next i (k ∷ ks) [] d e h = absurd (omega arith)
  before-next zero (k ∷ ks) (x ∷ cs) d e h = refl
  before-next (suc i) (k ∷ ks) (x ∷ cs) d e h =
      let one_up : suc i + 1 ≡ suc (i + 1) = omega arith in
      rw one_up (
        under_head f x k _ (weave f (take i ks) (take (i + 1) cs)) (get_or ks i d ∷ [])
          (before-next i ks cs d (omega arith) (omega arith)))

  pub after-end :
      (ks : List A) (cs : List (Option C))
      → length cs ≡ length ks + 1
      → after f (length ks) ks cs ≡ []
  after-end [] cs e = refl
  after-end (k ∷ ks) [] e = absurd (omega arith)
  after-end (k ∷ ks) (x ∷ cs) e = after-end ks cs (omega arith)
