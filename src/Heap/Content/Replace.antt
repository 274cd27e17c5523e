-- ===== src/Heap/Content/Replace.antt =====
-- tl_heap_add_and_replace.
use mathlib.Core.List.Perm
use common_tool.Base.{
  get_elem?, ℕ, zero, suc, ◌<◌, ◌≡◌, refl, Bool, true, Option, none, some, List, [], ◌∷◌, arith,
  ltb, ℤ, IsOrder, store-ok, Returns, returns, Returns-bind, take, get_or-set, Perm,
  Rearranged-take,
}
use common_tool.Heap.{parent}
use common_tool.Heap.Content.{Heap, add_and_replace}
use common_tool.Heap.Content.Methods.{IsValid, content, Sifted-IsValid, root_down}

module _ {ℓ} {A : Type ℓ} (kc : A → A → ℤ) (raft : Bool) (ord : IsOrder kc) where
  abbrev heap_of : ℕ → Option (List A) → ℕ → ℕ → Heap A
  heap_of limit o cnt used = record { ele_cnt = limit; cont = o; cnt = cnt; used = used }

  -- What tl_heap_add_and_replace leaves: the top is replaced.
  pub record Replaced (h : Heap A) (x : A) (h' : Heap A) : Type ℓ where
    pub valid : IsValid kc raft h'
    pub out : A
    pub top : get_elem? (content h) 0 ≡ some out
    pub perm : Perm (out ∷ content h') (x ∷ content h)

  replace_cases :
      (limit : ℕ) (o : Option (List A)) (cnt used : ℕ) (x : A)
      → IsValid kc raft (heap_of limit o cnt used)
      → 0 < used
      → Returns
          (Replaced (heap_of limit o cnt used) x)
          (add_and_replace kc raft (heap_of limit o cnt used) x)
  unfolding add_and_replace
  replace_cases limit o cnt zero x v h = elim h [ ]
  replace_cases limit none cnt (suc n) x v h = absurd (omega (arith, v.counted, v.sized))
  replace_cases limit (some []) cnt (suc n) x v h = absurd (omega (arith, v.counted, v.sized))
  replace_cases limit (some (y ∷ a)) cnt (suc n) x v h =
      let size = v.sized in
      let some_used : ltb 0 (suc n) ≡ true = ground arith in
      rw (some_used, store-ok (y ∷ a) 0 x (omega arith))
        (Returns-bind
          (root_down kc raft ord (suc n) (x ∷ a) x (omega arith) (omega (arith, v.counted))
            (record {
              edges = λ c p q r s. ground (
                arith,
                v.heap x c,
                get_or-set (y ∷ a) 0 c x x,
                get_or-set (y ∷ a) 0 (parent c) x x,
              );
              bridged = λ c p q r s. absurd (omega arith);
            }))
          λ b s. returns (record {
            valid =
                Sifted-IsValid kc raft ord limit cnt (suc n) (x ∷ a) b.0 x size v.counted v.limited
                  s;
            out = y;
            top = refl;
            perm =
                Perm.trans (Perm.cons y (Rearranged-take (suc n) s.same))
                  (Perm.swap x y (take n a));
          }))

  -- On a valid heap that is not empty, tl_heap_add_and_replace leaves a valid heap in which the new
  -- entry stands for the old top.
  pub replace_correct :
      (h : Heap A) (x : A)
      → IsValid kc raft h
      → 0 < h.used
      → Returns (Replaced h x) (add_and_replace kc raft h x)
  replace_correct h x = replace_cases h.ele_cnt h.cont h.cnt h.used x
