-- ===== src/Btree/Locate/Hit.antt =====
-- The comparison with the key at the place where tl_bsearch stops, in `tb_locate_key` of
-- trunk/src/tl_btree2.c.
use common_tool.Base.{
  ℕ, zero, suc, ◌+◌, ◌-◌, ◌≤◌, ◌<◌, ◌≡◌, ◌⊎◌, refl, ◌∙◌, ap, subst, true, false, List, [], ◌∷◌,
  ◌++◌, Option, none, some, arith, length, get_or, take, drop, append_assoc, get_or-take,
  length-take, ltb, Bool-cases, ℤ, is_zero, IsOrder, inl, inr, ok, load-ok,
}
use common_tool.Rbtree.Ascending.{
  IsBelow, IsAbove, IsAscending, IsBelow-of_ascending, IsBelow-equal, find, find-IsBelow, find_head,
}
use common_tool.Btree.{Node, Sub, Way, minc}
use common_tool.Btree.Contents.{weave, contents, lefts, rights, weave-cut}
use common_tool.Btree.Invariant.{Room, IsKid, IsNode, Room-Shows}
use common_tool.Btree.Order.{keys_of}
use common_tool.Btree.Locate.{hit}
use common_tool.Btree.Locate.Place.{At, hit_at, gap_at, points-IsAbove}

pub around {ℓ} :
    {A : Type ℓ} (l w : List A) (x : A) (w' r : List A)
    → l ++ ((w ++ x ∷ w') ++ r) ≡ (l ++ w) ++ x ∷ (w' ++ r)
around l w x w' r = simp append_assoc

-- An entry that stands in a list.
pub entry_there {ℓ} : {A : Type ℓ} (xs : List A) (i : ℕ) → i < length xs → A
entry_there [] i h = absurd (omega arith)
entry_there (x ∷ xs) zero h = x
entry_there (x ∷ xs) (suc i) h = entry_there xs i (omega arith)

pub leaf_child {ℓ} : (A : Type ℓ) (fork : ℕ) (c : Option (Sub A 0)) → IsKid A fork 0 c → c ≡ none
leaf_child A fork none k = refl
leaf_child A fork (some c) k = absurd k

pub inner_child {ℓ} :
    {A : Type ℓ} (fork h : ℕ) (c : Option (Sub A (suc h)))
    → IsKid A fork (suc h) c
    → (node : Sub A (suc h)) × (c ≡ some node)
      × (minc fork - 1 ≤ node.cnt_used)
      × IsNode fork h node
inner_child fork h none k = absurd k
inner_child fork h (some node) k = (node, refl, k.0, record { room = k.1; kids = k.2 })

module _ {K V : Type 0} (kc : K → K → ℤ) (ord : IsOrder kc) (fork : ℕ) (key : K) where
  pub At-cases :
      (ks : List (K × V)) (i : ℕ)
      → At kc key ks i
      → ((i < length ks) × (is_zero (kc (get_or (keys_of ks) i key) key) ≡ true))
        ⊎ ((i ≤ length ks) × IsBelow kc key (take i ks) × IsAbove kc key (drop i ks))
  At-cases ks _ (hit_at i l z b) = inl (l, z)
  At-cases ks _ (gap_at i l b a) = inr (l, b, a)

  get_or-keys_of :
      (ks : List (K × V)) (i : ℕ) (d : K) (e : K × V)
      → i < length ks
      → get_or (keys_of ks) i d ≡ (get_or ks i e).0
  get_or-keys_of [] i d e h = absurd (omega arith)
  get_or-keys_of (k ∷ ks) zero d e h = refl
  get_or-keys_of (k ∷ ks) (suc i) d e h = get_or-keys_of ks i d e (omega arith)

  -- The entry with the key is the one that a search of the list finds.
  find-at :
      (h : ℕ) (ks : List (K × V)) (cs : List (Option (Sub (K × V) h))) (l r : List (K × V)) (i : ℕ)
      (d : K × V)
      → length cs ≡ length ks + 1
      → i < length ks
      → is_zero (kc (get_or (keys_of ks) i key) key) ≡ true
      → IsAscending kc (l ++ (weave (contents h) ks cs ++ r))
      → find kc key (l ++ (weave (contents h) ks cs ++ r)) ≡ some (get_or ks i d)
  find-at h ks cs l r i d e inside z asc =
      let f = contents {A = K × V} h in
      let w = weave f (take i ks) (take (i + 1) cs) in
      let w' = weave f (drop (i + 1) ks) (drop (i + 1) cs) in
      let x = get_or ks i d in
      let split : l ++ (weave f ks cs ++ r) ≡ (l ++ w) ++ x ∷ (w' ++ r) =
        ap (λ a. l ++ (a ++ r)) (weave-cut f i ks cs d e inside) ∙ around l w x w' r in
      let zero_here : is_zero (kc key x.0) ≡ true =
        ground (arith, get_or-keys_of ks i key d inside, z, ord.flip x.0 key, ord.flip key x.0) in
      let low =
        IsBelow-equal kc ord x.0 key (l ++ w) zero_here
          (IsBelow-of_ascending kc (l ++ w) x (w' ++ r) (subst (IsAscending kc) split asc)) in
      ap (find kc key) split
      ∙ find-IsBelow kc ord key (l ++ w) (x ∷ (w' ++ r)) low
      ∙ find_head kc key x (w' ++ r) zero_here

  pub hit_here :
      {C : Type 0} (node : Node (K × V) C) (idx : ℕ)
      → Room fork node
      → idx < length (take node.cnt_used node.pkv)
      → is_zero (kc (get_or (keys_of (take node.cnt_used node.pkv)) idx key) key) ≡ true
      → (d : K × V) → is_zero (kc key (get_or node.pkv idx d).0) ≡ true
  hit_here node idx r h z d =
      let ks = take node.cnt_used node.pkv in
      let same : get_or (keys_of ks) idx key ≡ (get_or node.pkv idx d).0 =
        get_or-keys_of ks idx key d h
        ∙ ap (λ e. e.0)
            (get_or-take node.cnt_used node.pkv idx d
              (omega (arith, length-take node.cnt_used node.pkv))) in
      ground (
        arith,
        same,
        z,
        ord.flip (get_or node.pkv idx d).0 key,
        ord.flip key (get_or node.pkv idx d).0,
      )

  pub hit-true :
      {C : Type 0} (node : Node (K × V) C) (idx : ℕ)
      → Room fork node
      → idx < length (take node.cnt_used node.pkv)
      → is_zero (kc (get_or (keys_of (take node.cnt_used node.pkv)) idx key) key) ≡ true
      → hit kc node idx key ≡ ok true
  unfolding hit
  hit-true node idx r h z =
      let ks = take node.cnt_used node.pkv in
      let d = entry_there ks idx h in
      let inside : ltb idx node.cnt_used ≡ true =
        ground (arith, length-take node.cnt_used node.pkv) in
      rw
        (
          inside,
          load-ok node.pkv idx d (omega (arith, length-take node.cnt_used node.pkv)),
          hit_here node idx r h z d,
        )
        refl

  pub hit-false :
      {C : Type 0} (node : Node (K × V) C) (idx : ℕ)
      → Room fork node
      → IsAbove kc key (drop idx (take node.cnt_used node.pkv))
      → hit kc node idx key ≡ ok false
  unfolding hit
  hit-false node idx r a =
      let ks = take node.cnt_used node.pkv in
      elim (Bool-cases (ltb idx node.cnt_used)) [
        | inl inside ↦
            let l : idx < length node.pkv = ground (arith, r.room_keys, r.fits) in
            let l' : idx < length ks = ground (arith, length-take node.cnt_used node.pkv) in
            let d = entry_there node.pkv idx l in
            let x = get_or node.pkv idx d in
            let same : get_or (keys_of ks) idx key ≡ x.0 =
              get_or-keys_of ks idx key d l'
              ∙ ap (λ e. e.0) (get_or-take node.cnt_used node.pkv idx d (ground arith)) in
            let not_here : is_zero (kc key x.0) ≡ false =
              ground (arith, same, points-IsAbove kc key key idx idx ks a (omega arith) l') in
            rw (inside, load-ok node.pkv idx d l, not_here) refl
        | inr outside ↦ rw outside refl
      ]

  pub found_here :
      (h : ℕ) (node : Sub (K × V) (suc h)) (p : Way (K × V) h) (whole : List (K × V)) (idx : ℕ)
      → IsNode fork h node
      → whole ≡ lefts h p ++ (contents (suc h) node ++ rights h p)
      → IsAscending kc whole
      → idx < length (take node.cnt_used node.pkv)
      → is_zero (kc (get_or (keys_of (take node.cnt_used node.pkv)) idx key) key) ≡ true
      → (d : K × V) → find kc key whole ≡ some (get_or node.pkv idx d)
  found_here h node p whole idx n e asc l z d =
      let ks = take node.cnt_used node.pkv in
      let shown = Room-Shows fork node n.room in
      ap (find kc key) e
      ∙ find-at h ks (take (node.cnt_used + 1) node.pc) (lefts h p) (rights h p) idx d
          shown.one_more l z (subst (IsAscending kc) e asc)
      ∙ ap some (get_or-take node.cnt_used node.pkv idx d (omega (arith, shown.used)))
