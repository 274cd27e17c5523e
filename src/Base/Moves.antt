-- ===== src/Base/Moves.antt =====
-- Arrays whose entries are moved about: what a write or an exchange does to the multiset of the
-- entries and to the part of the array past a bound.
use mathlib.Core.Path.{◌≡◌, refl, ap, ◌∙◌, sym, subst₂}
use mathlib.Core.Logic.{◌≢◌, ∥∥₁_elim}
use mathlib.Core.List.{
  List, [], ◌∷◌, ◌++◌, Perm, Permᴰ, perm-append_right_iff, append-nil, perm_middle, Mem, mem-cons,
  not-mem-nil,
}
use mathlib.Core.Logic.Or
use mathlib.Core.Bool.{Bool, false, Bool-set}
use mathlib.Core.List.Perm
use Prim.Native.Nat.{ℕ, zero, suc, ◌<◌, ◌≤◌}
use native.Mathlib.Omega.{arith}
use native.Mathlib.Nat.{ℕ_set}
use common_tool.Base.Lists.{length, set, get_or, take, drop, drop-set, take-append-drop}

module _ {ℓ} {A : Type ℓ} where
  same_length : {xs ys : List A} → Permᴰ xs ys → length xs ≡ length ys
  same_length (Permᴰ.trans first second) = same_length first ∙ same_length second
  same_length (Permᴰ.cons _ rest) = ap suc (same_length rest)
  same_length (Permᴰ.swap _ _) = refl
  same_length Permᴰ.nil = refl

  pub length-perm : {xs ys : List A} → Perm xs ys → length xs ≡ length ys
  length-perm perm = ∥∥₁_elim perm (ℕ_set _ _) same_length

  -- A write trades the old entry for the new one.
  pub set-perm :
      (a : List A) (i : ℕ) (v d : A) → i < length a → Perm (get_or a i d ∷ set a i v) (v ∷ a)
  set-perm [] i v d h = elim h [ ]
  set-perm (x ∷ a) zero v d h = Perm.swap v x a
  set-perm (x ∷ a) (suc i) v d h =
      let rest = Perm.cons x (set-perm a i v d (omega arith)) in
      Perm.trans (Perm.swap x _ _) (Perm.trans rest (Perm.swap v x a))

  -- Two values that stand one in front and one at `i` change places.
  pub trade-perm :
      (a : List A) (i : ℕ) (v w : A) → i < length a → Perm (v ∷ set a i w) (w ∷ set a i v)
  trade-perm [] i v w h = elim h [ ]
  trade-perm (x ∷ a) zero v w h = Perm.swap w v a
  trade-perm (x ∷ a) (suc i) v w h =
      let rest = Perm.cons x (trade-perm a i v w (omega arith)) in
      Perm.trans (Perm.swap x v _) (Perm.trans rest (Perm.swap w x _))

  -- A hole at `t` with the value `e` in hand moves to `m`.
  pub move-perm :
      (a : List A) (t m : ℕ) (e d : A)
      → t < length a
      → m < length a
      → t ≢ m
      → Perm (set (set a t (get_or a m d)) m e) (set a t e)
  move-perm [] t m e d h k n = elim h [ ]
  move-perm (x ∷ a) zero zero e d h k n = absurd (n refl)
  move-perm (x ∷ a) zero (suc m) e d h k n = set-perm a m e d (omega arith)
  move-perm (x ∷ a) (suc t) zero e d h k n = trade-perm a t e x (omega arith)
  move-perm (x ∷ a) (suc t) (suc m) e d h k n =
      Perm.cons x (move-perm a t m e d (omega arith) (omega arith) (omega arith))

  pub set-get_or : (a : List A) (i : ℕ) (d : A) → set a i (get_or a i d) ≡ a
  set-get_or [] i d = refl
  set-get_or (x ∷ a) zero d = refl
  set-get_or (x ∷ a) (suc i) d = ap (◌∷◌ x) (set-get_or a i d)

  -- `b` holds the entries of `a`, and those from `n` on in their places.
  pub record Rearranged (n : ℕ) (a b : List A) : Type ℓ where
    pub perm : Perm b a
    pub rest : drop n b ≡ drop n a

  pub Rearranged-refl : {n : ℕ} {a : List A} → Rearranged n a a
  Rearranged-refl = record { perm = Perm.refl _; rest = refl }

  pub Rearranged-trans :
      {n : ℕ} {a b c : List A} → Rearranged n a b → Rearranged n b c → Rearranged n a c
  Rearranged-trans p q = record { perm = Perm.trans q.perm p.perm; rest = q.rest ∙ p.rest }

  pub Rearranged-length : {n : ℕ} {a b : List A} → Rearranged n a b → length b ≡ length a
  Rearranged-length p = length-perm p.perm

  pub Rearranged-move :
      (n : ℕ) (a : List A) (t m : ℕ) (e d : A)
      → t < n
      → m < n
      → n ≤ length a
      → t ≢ m
      → Rearranged n (set a t e) (set (set a t (get_or a m d)) m e)
  Rearranged-move n a t m e d ht hm hn ne = record {
    perm = move-perm a t m e d (omega arith) (omega arith) ne;
    rest = drop-set n _ m e hm ∙ drop-set n a t _ ht ∙ sym (drop-set n a t e ht);
  }

module _ {ℓ} {A : Type ℓ} where
  -- Rearranging the first `n` entries rearranges the list of them.
  pub Rearranged-take : (n : ℕ) {a b : List A} → Rearranged n a b → Perm (take n b) (take n a)
  Rearranged-take n {a} {b} p = (perm-append_right_iff (drop n a)).0 (
      subst₂ Perm (sym (take-append-drop n b) ∙ ap (λ r. take n b ++ r) p.rest)
        (sym (take-append-drop n a)) p.perm)

  pub take-suc :
      (n : ℕ) (a : List A) (d : A) → n < length a → take (suc n) a ≡ take n a ++ get_or a n d ∷ []
  take-suc n [] d h = elim h [ ]
  take-suc zero (x ∷ a) d h = refl
  take-suc (suc n) (x ∷ a) d h = ap (◌∷◌ x) (take-suc n a d (omega arith))

  pub take-set : (n : ℕ) (a : List A) (i : ℕ) (v : A) → n ≤ i → take n (set a i v) ≡ take n a
  take-set zero a i v h = refl
  take-set (suc n) [] i v h = refl
  take-set (suc n) (x ∷ a) zero v h = elim h [ ]
  take-set (suc n) (x ∷ a) (suc i) v h = ap (◌∷◌ x) (take-set n a i v (omega arith))

  pub concat-perm : (xs : List A) (y : A) → Perm (xs ++ y ∷ []) (y ∷ xs)
  concat-perm xs y = let moved = perm_middle {a = y} xs [] in rw (append-nil xs) at moved

  -- The last of `n + 1` entries put in the place of the first.
  pub cut-perm :
      (n : ℕ) (a : List A) (d : A)
      → n < length a
      → Perm (get_or a 0 d ∷ take n (set a 0 (get_or a n d))) (take (suc n) a)
  cut-perm n [] d h = elim h [ ]
  cut-perm zero (x ∷ a) d h = Perm.refl (x ∷ [])
  cut-perm (suc n) (x ∷ a) d h =
      Perm.cons x
        (Perm.symm (rw (take-suc n a d (omega arith)) (concat-perm (take n a) (get_or a n d))))

  -- A test that fails at every index fails at every member.
  pub false_of_mem :
      (f : A → Bool) (xs : List A) (d : A)
      → ((i : ℕ) → i < length xs → f (get_or xs i d) ≡ false)
      → (y : A) → Mem y xs
      → f y ≡ false
  false_of_mem f [] d h y m = absurd (not-mem-nil m)
  false_of_mem f (x ∷ xs) d h y m =
      Or.elim (Bool-set (f y) false) (mem-cons.0 m) (λ e. ap f e ∙ h 0 (omega arith))
        (false_of_mem f xs d (λ i p. h (suc i) (omega arith)) y)
