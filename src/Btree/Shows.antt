-- ===== src/Btree/Shows.antt =====
-- What a node of trunk/src/tl_btree2.c stands for: its keys, and the children between them.
use common_tool.Base.{ℕ, ◌+◌, ◌≤◌, ◌<◌, ◌≡◌, List, Option, length, get_or, set}
use common_tool.Btree.{Node}
use common_tool.Btree.Arrays.{insert_at}

-- The entries in use of a node of at most `fork` entries, and the children, one more.
pub record Shows {A : Type 0} {C : Type 0} (fork : ℕ) (node : Node A C) (ks : List A)
    (cs : List (Option C)) : Type 0 where
  pub room_keys : length node.pkv ≡ fork
  pub room_kids : length node.pc ≡ fork + 1
  pub used : node.cnt_used ≡ length ks
  pub one_more : length cs ≡ length ks + 1
  pub fits : length ks ≤ fork
  pub keys : (j : ℕ) (d : A) → j < length ks → get_or node.pkv j d ≡ get_or ks j d
  pub kids : (j : ℕ) (d : Option C) → j < length cs → get_or node.pc j d ≡ get_or cs j d

-- The children after an insertion: `pl` for the one at the place, and `pr` after it.
abbrev pub spread : {C : Type 0} → ℕ → Option C → Option C → List (Option C) → List (Option C)
spread idx pl pr cs = insert_at (idx + 1) pr (set cs idx pl)
