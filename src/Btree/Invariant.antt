-- ===== src/Btree/Invariant.antt =====
-- What holds of a tree of trunk/src/tl_btree2.c between the calls.
use common_tool.Base.{
  ℕ, zero, suc, ◌+◌, ◌-◌, ◌^◌, ◌≤◌, ◌<◌, ◌≡◌, refl, sym, ◌∙◌, ap, subst, List, [], ◌∷◌, Option,
  none, some, arith, length, get_or, set, take, drop, length-take, get_or-take, ℤ,
}
use common_tool.Rbtree.Ascending.{IsAscending}
use common_tool.Btree.{Node, Sub, Way, top, under, Tree, Root, minc}
use common_tool.Btree.Arrays.{insert_at, ext}
use common_tool.Btree.Shows.{Shows}
use common_tool.Btree.Contents.{weave, contents, entries}

-- The arrays of a node have room for `fork` entries.
pub record Room {ℓ κ} {A : Type ℓ} {C : Type κ} (fork : ℕ) (node : Node A C) : Type 0 where
  pub room_keys : length node.pkv ≡ fork
  pub room_kids : length node.pc ≡ fork + 1
  pub fits : node.cnt_used ≤ fork

-- A property of every child.
abbrev pub All {ℓ} : {C : Type ℓ} → (C → Type 0) → List C → Type 0
All P [] = Unit
All P (c ∷ cs) = P c × All P cs

-- A pointer in a node of the height `h`: NULL in a leaf, otherwise a node at least half full, with
-- leaves at the same depth everywhere.
abbrev pub IsKid {ℓ} : (A : Type ℓ) → ℕ → (h : ℕ) → Option (Sub A h) → Type 0
IsKid A fork zero none = Unit
IsKid A fork zero (some c) = ⊥
IsKid A fork (suc h) none = ⊥
IsKid A fork (suc h) (some node) =
    (minc fork - 1 ≤ node.cnt_used)
    × Room fork node
    × All (IsKid A fork h) (take (node.cnt_used + 1) node.pc)

-- A node of the height `h`, with what is below it.
pub record IsNode {ℓ} {A : Type ℓ} (fork h : ℕ) (node : Sub A (suc h)) : Type 0 where
  pub room : Room fork node
  pub kids : All (IsKid A fork h) (take (node.cnt_used + 1) node.pc)

-- The fewest entries of a node: one in the root.
abbrev pub least {ℓ} : {A : Type ℓ} → ℕ → (h : ℕ) → Way A h → ℕ
least fork h top = 1
least fork h (under parent i p) = minc fork - 1

-- The parents on the way to a node.
abbrev pub IsWay {ℓ} : {A : Type ℓ} → ℕ → (h : ℕ) → Way A h → Type 0
IsWay fork h top = Unit
IsWay fork h (under parent i p) =
    IsNode fork (suc h) parent
    × (i ≤ parent.cnt_used)
    × (least fork (suc h) p ≤ parent.cnt_used)
    × IsWay fork (suc h) p

-- The tree below a root.
abbrev pub IsShape {ℓ} : {A : Type ℓ} → ℕ → Option (Tree A) → Type 0
IsShape fork none = Unit
IsShape fork (some t) = (1 ≤ t.1.cnt_used) × IsNode fork t.0 t.1

-- A B-tree: nodes at least half full but for the root, all leaves at one depth, the entries in
-- ascending order of the keys, and their number in `cnt_key`. `m_fork` is an int; up to 2^30 the int of
-- tl_bsearch does not overflow.
pub record IsBtree {ℓ κ} {K : Type ℓ} {V : Type κ} (kc : K → K → ℤ) (root : Root (K × V))
    : Type (ℓ ⊔ κ) where
  pub positive : 1 ≤ root.m_fork
  pub small : root.m_fork ≤ 2 ^ 30
  pub shape : IsShape root.m_fork root.first
  pub ascending : IsAscending kc (entries root.first)
  pub counted : root.cnt_key ≡ length (entries root.first)

module _ {C : Type 0} (P : C → Type 0) where
  pub All-set : (i : ℕ) (cs : List C) (c : C) → All P cs → P c → All P (set cs i c)
  All-set i [] c a p = tt
  All-set zero (x ∷ cs) c a p = (p, a.1)
  All-set (suc i) (x ∷ cs) c a p = (a.0, All-set i cs c a.1 p)

  pub All-insert_at : (i : ℕ) (cs : List C) (c : C) → All P cs → P c → All P (insert_at i c cs)
  All-insert_at zero cs c a p = (p, a)
  All-insert_at (suc i) [] c a p = (p, tt)
  All-insert_at (suc i) (x ∷ cs) c a p = (a.0, All-insert_at i cs c a.1 p)

  pub All-take : (n : ℕ) (cs : List C) → All P cs → All P (take n cs)
  All-take zero cs a = tt
  All-take (suc n) [] a = tt
  All-take (suc n) (x ∷ cs) a = (a.0, All-take n cs a.1)

  pub All-drop : (n : ℕ) (cs : List C) → All P cs → All P (drop n cs)
  All-drop zero cs a = a
  All-drop (suc n) [] a = tt
  All-drop (suc n) (x ∷ cs) a = All-drop n cs a.1

  pub All-get_or : (i : ℕ) (cs : List C) (d : C) → i < length cs → All P cs → P (get_or cs i d)
  All-get_or i [] d h a = absurd (omega arith)
  All-get_or zero (x ∷ cs) d h a = a.0
  All-get_or (suc i) (x ∷ cs) d h a = All-get_or i cs d (omega arith) a.1

pub take-set {ℓ} :
    {C : Type ℓ} (n i : ℕ) (cs : List C) (c : C) → take n (set cs i c) ≡ set (take n cs) i c
take-set zero i cs c = refl
take-set (suc n) i [] c = refl
take-set (suc n) zero (x ∷ cs) c = refl
take-set (suc n) (suc i) (x ∷ cs) c = ap (◌∷◌ x) (take-set n i cs c)

module _ {A : Type 0} (fork : ℕ) where
  -- The lists that a node shows.
  pub Room-Shows :
      {C : Type 0} (node : Node A C)
      → Room fork node
      → Shows fork node (take node.cnt_used node.pkv) (take (node.cnt_used + 1) node.pc)
  Room-Shows node r = record {
    room_keys = r.room_keys;
    room_kids = r.room_kids;
    used = omega (arith, length-take node.cnt_used node.pkv, r.fits, r.room_keys);
    one_more = omega (
      arith,
      length-take node.cnt_used node.pkv,
      length-take (node.cnt_used + 1) node.pc,
      r.fits,
      r.room_keys,
      r.room_kids,
    );
    fits = omega (arith, length-take node.cnt_used node.pkv, r.fits);
    keys = λ j d h. sym (
        get_or-take node.cnt_used node.pkv j d (omega (arith, length-take node.cnt_used node.pkv)));
    kids = λ j d h. sym (
        get_or-take (node.cnt_used + 1) node.pc j d
          (omega (arith, length-take (node.cnt_used + 1) node.pc)));
  }

  pub Shows-Room :
      {C : Type 0} (node : Node A C) (ks : List A) (cs : List (Option C))
      → Shows fork node ks cs
      → Room fork node
  Shows-Room node ks cs s = record {
    room_keys = s.room_keys;
    room_kids = s.room_kids;
    fits = omega (arith, s.used, s.fits);
  }

  pub Shows-keys :
      {C : Type 0} (node : Node A C) (ks : List A) (cs : List (Option C)) (d : A)
      → Shows fork node ks cs
      → take node.cnt_used node.pkv ≡ ks
  Shows-keys node ks cs d s =
      ext (take node.cnt_used node.pkv) ks d
        (omega (arith, length-take node.cnt_used node.pkv, s.used, s.fits, s.room_keys))
        λ j h.
          get_or-take node.cnt_used node.pkv j d (omega (arith, length-take node.cnt_used node.pkv))
          ∙ s.keys j d (omega (arith, length-take node.cnt_used node.pkv, s.used))

  pub Shows-kids :
      {C : Type 0} (node : Node A C) (ks : List A) (cs : List (Option C))
      → Shows fork node ks cs
      → take (node.cnt_used + 1) node.pc ≡ cs
  Shows-kids node ks cs s =
      ext (take (node.cnt_used + 1) node.pc) cs none
        (omega
          (arith, length-take (node.cnt_used + 1) node.pc, s.used, s.fits, s.one_more, s.room_kids))
        λ j h.
          get_or-take (node.cnt_used + 1) node.pc j none
            (omega (arith, length-take (node.cnt_used + 1) node.pc))
          ∙ s.kids j none
              (omega (arith, length-take (node.cnt_used + 1) node.pc, s.used, s.one_more))

  -- A node by what it shows.
  pub Shows-IsNode :
      (h : ℕ) (node : Sub A (suc h)) (ks : List A) (cs : List (Option (Sub A h)))
      → Shows fork node ks cs
      → All (IsKid A fork h) cs
      → IsNode fork h node
  Shows-IsNode h node ks cs s a = record {
    room = Shows-Room node ks cs s;
    kids = subst (All (IsKid A fork h)) (sym (Shows-kids node ks cs s)) a;
  }

  pub contents-Shows :
      (h : ℕ) (node : Sub A (suc h)) (ks : List A) (cs : List (Option (Sub A h))) (d : A)
      → Shows fork node ks cs
      → contents (suc h) node ≡ weave (contents h) ks cs
  contents-Shows h node ks cs d s =
      ap (λ l. weave (contents h) l (take (node.cnt_used + 1) node.pc)) (Shows-keys node ks cs d s)
      ∙ ap (weave (contents h) ks) (Shows-kids node ks cs s)
