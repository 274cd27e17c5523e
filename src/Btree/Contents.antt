-- ===== src/Btree/Contents.antt =====
-- The entries of a node of trunk/src/tl_btree2.c in order, and of the parents on the way to it.
use common_tool.Base.{
  ℕ, zero, suc, ◌+◌, ◌≤◌, ◌<◌, ◌≡◌, refl, sym, ◌∙◌, ap, List, [], ◌∷◌, ◌++◌, Option, none, some,
  arith, length, get_or, set, take, drop, append_assoc, append-nil,
}
use common_tool.Btree.{Sub, Way, top, under, Tree}
use common_tool.Btree.Arrays.{insert_at}
use common_tool.Btree.Shows.{spread}

-- The entries below a pointer.
abbrev pub below {ℓ κ} : {A : Type ℓ} {C : Type κ} → (C → List A) → Option C → List A
below f none = []
below f (some c) = f c

-- Keys with the entries of the children between them.
abbrev pub weave {ℓ κ} :
    {A : Type ℓ} {C : Type κ} → (C → List A) → List A → List (Option C) → List A
weave f ks [] = ks
weave f [] (c ∷ cs) = below f c
weave f (k ∷ ks) (c ∷ cs) = below f c ++ k ∷ weave f ks cs

-- The entries before and after the child at an index.
abbrev pub before {ℓ κ} :
    {A : Type ℓ} {C : Type κ} → (C → List A) → ℕ → List A → List (Option C) → List A
before f (suc i) (k ∷ ks) (c ∷ cs) = below f c ++ k ∷ before f i ks cs
before f zero ks cs = []
before f (suc i) [] cs = []
before f (suc i) (k ∷ ks) [] = []

abbrev pub after {ℓ κ} :
    {A : Type ℓ} {C : Type κ} → (C → List A) → ℕ → List A → List (Option C) → List A
after f zero [] cs = []
after f zero (k ∷ ks) [] = []
after f zero (k ∷ ks) (c ∷ cs) = k ∷ weave f ks cs
after f (suc i) [] cs = []
after f (suc i) (k ∷ ks) [] = []
after f (suc i) (k ∷ ks) (c ∷ cs) = after f i ks cs

module _ {ℓ} {A : Type ℓ} where
  -- The entries of a node of the height `h - 1`.
  abbrev pub contents : (h : ℕ) → Sub A h → List A
  contents zero c = elim c [ ]
  contents (suc h) node =
      weave (contents h) (take node.cnt_used node.pkv) (take (node.cnt_used + 1) node.pc)

  -- The entries that the parents have before and after a node of the height `h`.
  abbrev pub lefts : (h : ℕ) → Way A h → List A
  lefts h top = []
  lefts h (under parent i p) =
      lefts (suc h) p
      ++ before (contents (suc h)) i (take parent.cnt_used parent.pkv)
          (take (parent.cnt_used + 1) parent.pc)

  abbrev pub rights : (h : ℕ) → Way A h → List A
  rights h top = []
  rights h (under parent i p) =
      after (contents (suc h)) i (take parent.cnt_used parent.pkv)
        (take (parent.cnt_used + 1) parent.pc)
      ++ rights (suc h) p

  -- The entries of the whole tree.
  abbrev pub entries : Option (Tree A) → List A
  entries none = []
  entries (some t) = contents (suc t.0) t.1

module _ {A : Type 0} {C : Type 0} (f : C → List A) where
  -- A child and a key more in front.
  pub under_head :
      (x : Option C) (k : A) (xs ys zs : List A)
      → xs ≡ ys ++ zs
      → below f x ++ k ∷ xs ≡ (below f x ++ k ∷ ys) ++ zs
  under_head x k xs ys zs e =
      ap (λ r. below f x ++ k ∷ r) e ∙ sym (append_assoc (below f x) (k ∷ ys) zs)

  pub weave-set :
      (i : ℕ) (ks : List A) (cs : List (Option C)) (c : Option C)
      → length cs ≡ length ks + 1
      → i ≤ length ks
      → weave f ks (set cs i c) ≡ before f i ks cs ++ (below f c ++ after f i ks cs)
  weave-set i ks [] c e h = absurd (omega arith)
  weave-set zero [] (x ∷ []) c e h = sym (append-nil _)
  weave-set zero [] (x ∷ y ∷ cs) c e h = absurd (omega arith)
  weave-set (suc i) [] (x ∷ cs) c e h = absurd (omega arith)
  weave-set zero (k ∷ ks) (x ∷ cs) c e h = refl
  weave-set (suc i) (k ∷ ks) (x ∷ cs) c e h =
      under_head x k _ (before f i ks cs) (below f c ++ after f i ks cs)
        (weave-set i ks cs c (omega arith) (omega arith))

  pub weave-get :
      (i : ℕ) (ks : List A) (cs : List (Option C)) (d : Option C)
      → length cs ≡ length ks + 1
      → i ≤ length ks
      → weave f ks cs ≡ before f i ks cs ++ (below f (get_or cs i d) ++ after f i ks cs)
  weave-get i ks [] d e h = absurd (omega arith)
  weave-get zero [] (x ∷ []) d e h = sym (append-nil _)
  weave-get zero [] (x ∷ y ∷ cs) d e h = absurd (omega arith)
  weave-get (suc i) [] (x ∷ cs) d e h = absurd (omega arith)
  weave-get zero (k ∷ ks) (x ∷ cs) d e h = refl
  weave-get (suc i) (k ∷ ks) (x ∷ cs) d e h =
      under_head x k _ (before f i ks cs) (below f (get_or cs i d) ++ after f i ks cs)
        (weave-get i ks cs d (omega arith) (omega arith))

  -- An entry with a child on either side in the place of a child.
  pub weave-spread :
      (i : ℕ) (ks : List A) (cs : List (Option C)) (kv : A) (pl pr : Option C)
      → length cs ≡ length ks + 1
      → i ≤ length ks
      → weave f (insert_at i kv ks) (spread i pl pr cs)
        ≡ before f i ks cs ++ ((below f pl ++ kv ∷ below f pr) ++ after f i ks cs)
  weave-spread i ks [] kv pl pr e h = absurd (omega arith)
  weave-spread zero [] (x ∷ []) kv pl pr e h = sym (append-nil _)
  weave-spread zero [] (x ∷ y ∷ cs) kv pl pr e h = absurd (omega arith)
  weave-spread (suc i) [] (x ∷ cs) kv pl pr e h = absurd (omega arith)
  weave-spread zero (k ∷ ks) (x ∷ cs) kv pl pr e h =
      sym (append_assoc (below f pl) (kv ∷ below f pr) (k ∷ weave f ks cs))
  weave-spread (suc i) (k ∷ ks) (x ∷ cs) kv pl pr e h =
      let one_up : suc i + 1 ≡ suc (i + 1) = omega arith in
      rw one_up (
        under_head x k _ (before f i ks cs) ((below f pl ++ kv ∷ below f pr) ++ after f i ks cs)
          (weave-spread i ks cs kv pl pr (omega arith) (omega arith)))

  -- A node cut at an entry.
  pub weave-cut :
      (at : ℕ) (ks : List A) (cs : List (Option C)) (d : A)
      → length cs ≡ length ks + 1
      → at < length ks
      → weave f ks cs
        ≡ weave f (take at ks) (take (at + 1) cs)
          ++ get_or ks at d ∷ weave f (drop (at + 1) ks) (drop (at + 1) cs)
  weave-cut at [] cs d e h = absurd (omega arith)
  weave-cut at (k ∷ ks) [] d e h = absurd (omega arith)
  weave-cut zero (k ∷ ks) (x ∷ cs) d e h = refl
  weave-cut (suc at) (k ∷ ks) (x ∷ cs) d e h =
      let one_up : suc at + 1 ≡ suc (at + 1) = omega arith in
      rw one_up (
        under_head x k _ (weave f (take at ks) (take (at + 1) cs))
          (get_or ks at d ∷ weave f (drop (at + 1) ks) (drop (at + 1) cs))
          (weave-cut at ks cs d (omega arith) (omega arith)))

  pub before-set :
      (i : ℕ) (ks : List A) (cs : List (Option C)) (c : Option C)
      → before f i ks (set cs i c) ≡ before f i ks cs
  before-set zero ks cs c = refl
  before-set (suc i) [] cs c = refl
  before-set (suc i) (k ∷ ks) [] c = refl
  before-set (suc i) (k ∷ ks) (x ∷ cs) c = ap (λ r. below f x ++ k ∷ r) (before-set i ks cs c)

  pub after-set :
      (i : ℕ) (ks : List A) (cs : List (Option C)) (c : Option C)
      → after f i ks (set cs i c) ≡ after f i ks cs
  after-set zero [] cs c = refl
  after-set zero (k ∷ ks) [] c = refl
  after-set zero (k ∷ ks) (x ∷ cs) c = refl
  after-set (suc i) [] cs c = refl
  after-set (suc i) (k ∷ ks) [] c = refl
  after-set (suc i) (k ∷ ks) (x ∷ cs) c = after-set i ks cs c

  -- A key exchanged for another.
  pub weave-set_key :
      (at : ℕ) (ks : List A) (cs : List (Option C)) (k : A)
      → length cs ≡ length ks + 1
      → at < length ks
      → weave f (set ks at k) cs
        ≡ weave f (take at ks) (take (at + 1) cs)
          ++ k ∷ weave f (drop (at + 1) ks) (drop (at + 1) cs)
  weave-set_key at [] cs k e h = absurd (omega arith)
  weave-set_key at (x ∷ ks) [] k e h = absurd (omega arith)
  weave-set_key zero (x ∷ ks) (c ∷ cs) k e h = refl
  weave-set_key (suc at) (x ∷ ks) (c ∷ cs) k e h =
      let one_up : suc at + 1 ≡ suc (at + 1) = omega arith in
      rw one_up (
        under_head c x _ (weave f (take at ks) (take (at + 1) cs))
          (k ∷ weave f (drop (at + 1) ks) (drop (at + 1) cs))
          (weave-set_key at ks cs k (omega arith) (omega arith)))
