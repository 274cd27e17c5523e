-- ===== src/Btree/Arrays.antt =====
-- The arrays of a node entry by entry: what tb_shift_right of trunk/src/tl_btree2.c leaves.
use common_tool.Base.{
  ℕ, zero, suc, ◌+◌, ◌-◌, ◌≤◌, ◌<◌, ◌≡◌, ◌≢◌, refl, ◌∙◌, ap, false, ◌&&◌, List, [], ◌∷◌, Option,
  none, arith, ltb, leb, ◌==◌, if◌then◌else◌, length, get_or, set, drop, length-set, get_or-set,
  get_or_any, load-ok, store-ok, Returns, returns, Returns-bind, Returns-map, Returns-if,
}
use common_tool.Btree.{Node, right_loop, shift_right}

module _ {A : Type 0} where
  -- Lists of one length with the same entries.
  pub ext :
      (xs ys : List A) (d : A)
      → length xs ≡ length ys
      → ((j : ℕ) → j < length xs → get_or xs j d ≡ get_or ys j d)
      → xs ≡ ys
  ext [] [] d e h = refl
  ext [] (y ∷ ys) d e h = absurd (omega arith)
  ext (x ∷ xs) [] d e h = absurd (omega arith)
  ext (x ∷ xs) (y ∷ ys) d e h =
      let rest = ext xs ys d (omega arith) (λ j k. h (suc j) (omega arith)) in
      let first : x ≡ y = h 0 (omega arith) in cc

  -- An entry put at an index.
  abbrev pub insert_at : ℕ → A → List A → List A
  insert_at zero v xs = v ∷ xs
  insert_at (suc i) v [] = v ∷ []
  insert_at (suc i) v (x ∷ xs) = x ∷ insert_at i v xs

  pub length-insert_at : (i : ℕ) (v : A) (xs : List A) → length (insert_at i v xs) ≡ length xs + 1
  length-insert_at zero v xs = omega arith
  length-insert_at (suc i) v [] = omega arith
  length-insert_at (suc i) v (x ∷ xs) = omega (arith, length-insert_at i v xs)

  pub get_or-insert_at :
      (i : ℕ) (v : A) (xs : List A) (j : ℕ) (d : A)
      → i ≤ length xs
      → get_or (insert_at i v xs) j d
        ≡ (if ltb j i then get_or xs j d else if j == i then v else get_or xs (j - 1) d)
  get_or-insert_at zero v xs zero d h = refl
  get_or-insert_at zero v xs (suc j) d h = ground arith
  get_or-insert_at (suc i) v [] j d h = absurd (omega arith)
  get_or-insert_at (suc i) v (x ∷ xs) zero d h = ground arith
  get_or-insert_at (suc i) v (x ∷ xs) (suc zero) d h =
      ground (arith, get_or-insert_at i v xs zero d (omega arith))
  get_or-insert_at (suc i) v (x ∷ xs) (suc (suc j)) d h =
      ground (arith, get_or-insert_at i v xs (suc j) d (omega arith))

  pub get_or-drop :
      (n : ℕ) (xs : List A) (j : ℕ) (d : A) → get_or (drop n xs) j d ≡ get_or xs (n + j) d
  get_or-drop zero xs j d = ap (λ k. get_or xs k d) (omega arith)
  get_or-drop (suc n) [] j d = refl
  get_or-drop (suc n) (x ∷ xs) j d =
      let next : suc n + j ≡ suc (n + j) = omega arith in rw next (get_or-drop n xs j d)

  -- The `n` entries from `lo` on come from `cnt` places before.
  abbrev pub Moved : (lo n cnt : ℕ) → List A → List A → Type 0
  Moved lo n cnt xs ys =
      (j : ℕ) (d : A)
      → get_or ys j d
        ≡ (if leb lo j && ltb j (lo + n) then get_or xs (j - cnt) d else get_or xs j d)

  Moved-step :
      (lo n cnt i w : ℕ) (d : A) (xs ys : List A)
      → 0 < cnt
      → i + cnt ≡ lo + n
      → w ≡ lo + n
      → cnt ≤ lo
      → lo + n < length xs
      → Moved lo n cnt (set xs w (get_or xs i d)) ys
      → Moved lo (suc n) cnt xs ys
  Moved-step lo n cnt i w d xs ys p e e' q h m j d' = ground (
    arith,
    m j d',
    get_or-set xs w j (get_or xs i d) d',
    get_or-set xs w (j - cnt) (get_or xs i d) d',
    get_or_any xs i d d',
  )

-- What a shift to the right leaves.
pub record Right {A : Type 0} {C : Type 0} (node node' : Node A C) (idx n cnt : ℕ) : Type 0 where
  pub used : node'.cnt_used ≡ node.cnt_used
  pub keys : length node'.pkv ≡ length node.pkv
  pub kids : length node'.pc ≡ length node.pc
  pub moved_keys : Moved (idx + cnt) n cnt node.pkv node'.pkv
  pub moved_kids : Moved (idx + 1 + cnt) n cnt node.pc node'.pc

-- What tb_shift_right leaves that makes room for one entry and the child after it.
pub record Opened {A : Type 0} {C : Type 0} (node node' : Node A C) (idx : ℕ) : Type 0 where
  pub used : node'.cnt_used ≡ node.cnt_used
  pub keys : length node'.pkv ≡ length node.pkv
  pub kids : length node'.pc ≡ length node.pc
  pub open_keys :
      (j : ℕ) (d : A)
      → get_or node'.pkv j d ≡ (
          if ltb idx j && leb j node.cnt_used
          then get_or node.pkv (j - 1) d
          else get_or node.pkv j d)
  pub open_kids :
      (j : ℕ) (d : Option C)
      → j ≢ idx + 1
      → get_or node'.pc j d ≡ (
          if ltb idx j && leb j (node.cnt_used + 1)
          then get_or node.pc (j - 1) d
          else get_or node.pc j d)

module _ {A : Type 0} {C : Type 0} (d : A) where
  right_loop-Right :
      (left : ℕ) (node : Node A C) (idx cnt : ℕ)
      → 0 < cnt
      → idx + cnt + left ≤ length node.pkv
      → idx + 1 + cnt + left ≤ length node.pc
      → Returns (λ node'. Right node node' idx left cnt) (right_loop left node idx cnt false)
  unfolding right_loop
  right_loop-Right zero node idx cnt p h k = returns (record {
    used = refl;
    keys = refl;
    kids = refl;
    moved_keys = λ j d. ground arith;
    moved_kids = λ j d. ground arith;
  })
  right_loop-Right (suc left) node idx cnt p h k =
      let i = idx + left in
      let kv = get_or node.pkv i d in
      let c = get_or node.pc (i + 1) none in
      let next : Node A C = record node {
        pkv = set node.pkv (i + cnt) kv;
        pc = set node.pc (i + cnt + 1) c;
      } in
      rw
        (
          load-ok node.pkv i d (omega arith),
          store-ok node.pkv (i + cnt) kv (omega arith),
          load-ok node.pc (i + 1) none (omega arith),
          store-ok node.pc (i + cnt + 1) c (omega arith),
        )
        (Returns-map
          (right_loop-Right left next idx cnt p (omega (arith, length-set node.pkv (i + cnt) kv))
            (omega (arith, length-set node.pc (i + cnt + 1) c)))
          λ node' r. record {
            used = r.used;
            keys = r.keys ∙ length-set node.pkv (i + cnt) kv;
            kids = r.kids ∙ length-set node.pc (i + cnt + 1) c;
            moved_keys =
                Moved-step (idx + cnt) left cnt i (i + cnt) d node.pkv node'.pkv p (omega arith)
                  (omega arith) (omega arith) (omega arith) r.moved_keys;
            moved_kids =
                Moved-step (idx + 1 + cnt) left cnt (i + 1) (i + cnt + 1) none node.pc node'.pc p
                  (omega arith) (omega arith) (omega arith) (omega arith) r.moved_kids;
          })

  pub shift_right-Opened :
      (node : Node A C) (idx : ℕ)
      → idx ≤ node.cnt_used
      → node.cnt_used < length node.pkv
      → length node.pc ≡ length node.pkv + 1
      → Returns (λ node'. Opened node node' idx) (shift_right node idx 1 false)
  unfolding shift_right
  shift_right-Opened node idx h k e =
      Returns-if (leb node.cnt_used idx)
        (λ at_end. returns (record {
          used = refl;
          keys = refl;
          kids = refl;
          open_keys = λ j d. ground arith;
          open_kids = λ j d ne. ground arith;
        }))
        λ inside.
          let below : idx < node.cnt_used = ground arith in
          Returns-bind
            (right_loop-Right (node.cnt_used - idx) node idx 1 (omega arith) (omega arith)
              (omega arith))
            λ n r.
              let c = get_or n.pc idx none in
              rw
                (
                  load-ok n.pc idx none (omega (arith, r.kids)),
                  store-ok n.pc (idx + 1) c (omega (arith, r.kids)),
                )
                (returns (record {
                  used = r.used;
                  keys = r.keys;
                  kids = length-set n.pc (idx + 1) c ∙ r.kids;
                  open_keys = λ j d. ground (arith, r.moved_keys j d);
                  open_kids = λ j d ne. ground (
                    arith,
                    r.moved_kids j d,
                    get_or-set n.pc (idx + 1) j c d (omega (arith, r.kids)),
                  );
                }))
