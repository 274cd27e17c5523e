-- ===== src/Btree/Insert/Spread.antt =====
-- The halves of a full node for insert_3 of trunk/src/tl_btree2.c, and lists with a child parted.
use common_tool.Base.{
  ℕ, ◌+◌, ◌-◌, ◌≤◌, ◌<◌, ◌≡◌, ◌∙◌, false, List, Option, arith, ltb, ◌==◌, if◌then◌else◌, length,
  get_or, set, take, drop, length-set, length-take, get_or-set, get_or-take, ok,
}
use common_tool.Btree.{Node}
use common_tool.Btree.Insert.{move}
use common_tool.Btree.Arrays.{length-insert_at, get_or-insert_at}
use common_tool.Btree.Shows.{Shows, spread}

module _ {C : Type 0} where
  pub length-spread :
      (idx : ℕ) (pl pr : Option C) (cs : List (Option C))
      → length (spread idx pl pr cs) ≡ length cs + 1
  length-spread idx pl pr cs =
      omega (arith, length-insert_at (idx + 1) pr (set cs idx pl), length-set cs idx pl)

  pub get_or-spread :
      (idx : ℕ) (pl pr : Option C) (cs : List (Option C)) (j : ℕ) (d : Option C)
      → idx < length cs
      → get_or (spread idx pl pr cs) j d ≡ (
          if ltb j idx
          then get_or cs j d
          else if j == idx
          then pl
          else if j == idx + 1
          then pr
          else get_or cs (j - 1) d)
  get_or-spread idx pl pr cs j d h = ground (
    arith,
    get_or-insert_at (idx + 1) pr (set cs idx pl) j d,
    length-set cs idx pl,
    get_or-set cs idx j pl d,
    get_or-set cs idx (j - 1) pl d,
  )

module _ {A : Type 0} {C : Type 0} where
  -- Other lists of the same entries.
  pub Shows-same :
      (fork : ℕ) (node : Node A C) (ks ks' : List A) (cs cs' : List (Option C))
      → Shows fork node ks cs
      → length ks' ≡ length ks
      → length cs' ≡ length cs
      → ((j : ℕ) (d : A) → j < length ks → get_or ks j d ≡ get_or ks' j d)
      → ((j : ℕ) (d : Option C) → j < length cs → get_or cs j d ≡ get_or cs' j d)
      → Shows fork node ks' cs'
  Shows-same fork node ks ks' cs cs' s a b same_keys same_kids = record {
    room_keys = s.room_keys;
    room_kids = s.room_kids;
    used = omega (arith, s.used);
    one_more = omega (arith, s.one_more);
    fits = omega (arith, s.fits);
    keys = λ j d h. s.keys j d (omega arith) ∙ same_keys j d (omega arith);
    kids = λ j d h. s.kids j d (omega arith) ∙ same_kids j d (omega arith);
  }

  -- A node cut down to `at` entries.
  pub Shows-take :
      (fork at : ℕ) (node : Node A C) (ks : List A) (cs : List (Option C))
      → Shows fork node ks cs
      → at ≤ length ks
      → Shows fork (record node { cnt_used = at }) (take at ks) (take (at + 1) cs)
  Shows-take fork at node ks cs s h = record {
    room_keys = s.room_keys;
    room_kids = s.room_kids;
    used = omega (arith, length-take at ks);
    one_more = omega (arith, length-take at ks, length-take (at + 1) cs, s.one_more);
    fits = omega (arith, length-take at ks, s.fits);
    keys = λ j d p. ground (arith, s.keys j d, get_or-take at ks j d, length-take at ks);
    kids = λ j d p.
        ground
          (arith, s.kids j d, s.one_more, get_or-take (at + 1) cs j d, length-take (at + 1) cs);
  }

-- The two halves, cut at `at` out of the keys `ks` and the children `cs`.
pub record Halves {A : Type 0} {C : Type 0} (fork at : ℕ) (ks : List A) (cs : List (Option C))
    (sep : A) (n n' : Node A C) : Type 0 where
  pub lower : Shows fork n (take at ks) (take (at + 1) cs)
  pub upper : Shows fork n' (drop (at + 1) ks) (drop (at + 1) cs)
  pub between : get_or ks at sep ≡ sep

-- What `move` leaves in the new node. Nothing is moved behind the last entry; its first child is then
-- what it was.
pub record Tail {A : Type 0} {C : Type 0} (fork at : ℕ) (ks : List A) (cs : List (Option C))
    (n : Node A C) : Type 0 where
  pub first_kids : List (Option C)
  pub shown : Shows fork n (drop at ks) first_kids
  pub same : (j : ℕ) (d : Option C) → at < length ks → get_or first_kids j d ≡ get_or cs (at + j) d

-- Nothing to move.
pub move-nothing :
    {A : Type 0} {C : Type 0} (pnew node : Node A C) (at : ℕ)
    → ltb at node.cnt_used ≡ false
    → move pnew node at ≡ ok pnew
unfolding move
move-nothing pnew node at h = rw h
