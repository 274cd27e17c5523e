-- ===== src/Heap/Tests.antt =====
-- Heaps of numbers, the highest first, over trunk/src/tl_heap.c.
use common_tool.Base.{
  ℕ, zero, suc, ◌≤◌, ◌<◌, ◌≡◌, ◌≢◌, refl, ap, Bool, true, false, Option, none, some, List, [], ◌∷◌,
  arith, ok, fault, Returns, length, take, get_or,
}
use common_tool.Heap.{below, parent, hp_down, hp_up, heap_down, heap_up, adjust}
use common_tool.Heap.Order.{IsHeapFrom, DownInv, UpInv, Sifted}
use common_tool.Heap.Down.{hp_down-Sifted}
use common_tool.Heap.Up.{hp_up-Sifted}
use common_tool.Heap.Calls.{replay, heap_down_tells, heap_up_tells}
use common_tool.Heap.Adjust.{adjust_heapifies, adjust-fault}
use common_tool.Heap.Content.{Heap, IsRealloc, add, add_and_replace, pop}
use common_tool.Heap.Content.Methods.{IsValid, Popped, pop_correct}
use common_tool.Heap.Content.Insert.{Added, add_correct, add-lost}
use common_tool.Heap.Content.Replace.{Replaced, replace_correct}
use common_tool.Samples.{nat_cmp, nat_cmp-IsOrder}

abbrev order : ℕ → ℕ → Bool
order = below nat_cmp true

-- The root is too low, and the last entry is too high.
abbrev low_root : List ℕ
low_root = 1 ∷ 5 ∷ 3 ∷ []

abbrev high_last : List ℕ
high_last = 5 ∷ 3 ∷ 9 ∷ []

low_root-DownInv : DownInv order 0 0 3 low_root 0
low_root-DownInv = record {
  edges = λ c p q r s. absurd (omega arith);
  bridged = λ c p q r s t. absurd (omega arith);
}

high_last-edges :
    (c : ℕ)
    → 0 < c
    → c < 3
    → c ≢ 2
    → order (get_or high_last (parent c) 0) (get_or high_last c 0) ≡ false
unfolding below
high_last-edges zero p q r = absurd (omega arith)
high_last-edges (suc zero) p q r = refl
high_last-edges (suc (suc zero)) p q r = absurd (r refl)
high_last-edges (suc (suc (suc c))) p q r = absurd (omega arith)

high_last-UpInv : UpInv order 0 3 high_last 2
high_last-UpInv = record { edges = high_last-edges; bridged = λ c p q r s t. absurd (omega arith) }

hp_down-Sifted_example :
    Returns (λ r. Sifted order 0 0 3 low_root r.0) (hp_down nat_cmp true false 3 low_root 0)
hp_down-Sifted_example =
    hp_down-Sifted nat_cmp true nat_cmp-IsOrder 0 0 3 false low_root 0 (omega arith) (omega arith)
      low_root-DownInv

hp_up-Sifted_example :
    Returns (λ r. Sifted order 0 0 3 high_last r.0) (hp_up nat_cmp true false high_last 2)
hp_up-Sifted_example =
    hp_up-Sifted nat_cmp true nat_cmp-IsOrder 0 3 false high_last 2 (omega arith) (omega arith)
      high_last-UpInv

heap_down_tells_example :
    Returns
      (λ r. Sifted order 0 0 3 low_root r.0 × (replay r.1 low_root ≡ r.0))
      (heap_down nat_cmp true true low_root 3 0)
heap_down_tells_example =
    heap_down_tells nat_cmp true nat_cmp-IsOrder 0 low_root 3 0 (omega arith) (omega arith)
      low_root-DownInv

heap_up_tells_example :
    Returns
      (λ r. Sifted order 0 0 3 high_last r.0 × (replay r.1 high_last ≡ r.0))
      (heap_up nat_cmp true true high_last 3 2)
heap_up_tells_example =
    heap_up_tells nat_cmp true nat_cmp-IsOrder 0 high_last 3 2 (omega arith) (omega arith)
      high_last-UpInv

adjust_heapifies_example : Returns (Sifted order 0 0 3 low_root) (adjust nat_cmp true low_root 0 3)
adjust_heapifies_example = adjust_heapifies nat_cmp true nat_cmp-IsOrder 0 low_root 3 (omega arith)

adjust-fault_example : adjust nat_cmp true low_root 1 3 ≡ fault
adjust-fault_example = adjust-fault nat_cmp true low_root 1 3 (omega arith) (omega arith)

-- Two entries in an array of three.
abbrev roomy : Heap ℕ
roomy = record { ele_cnt = 3; cont = some (5 ∷ 3 ∷ 0 ∷ []); cnt = 3; used = 2 }

-- Two entries in an array of two, which may not or may grow.
abbrev full : Heap ℕ
full = record { ele_cnt = 2; cont = some (5 ∷ 3 ∷ []); cnt = 2; used = 2 }

abbrev tight : Heap ℕ
tight = record { ele_cnt = 300; cont = some (5 ∷ 3 ∷ []); cnt = 2; used = 2 }

two_entries : (d : ℕ) (rest : List ℕ) → IsHeapFrom order d 0 2 (5 ∷ 3 ∷ rest)
unfolding below
two_entries d rest zero p q r = absurd (omega arith)
two_entries d rest (suc zero) p q r = refl
two_entries d rest (suc (suc c)) p q r = absurd (omega arith)

roomy-IsValid : IsValid nat_cmp true roomy
roomy-IsValid = record {
  sized = refl;
  counted = omega arith;
  limited = omega arith;
  heap = λ d. two_entries d (0 ∷ []);
}

full-IsValid : IsValid nat_cmp true full
full-IsValid = record {
  sized = refl;
  counted = omega arith;
  limited = omega arith;
  heap = λ d. two_entries d [];
}

tight-IsValid : IsValid nat_cmp true tight
tight-IsValid = record {
  sized = refl;
  counted = omega arith;
  limited = omega arith;
  heap = λ d. two_entries d [];
}

-- A `realloc` that cuts an array off or fills it up with zeroes, and one without memory.
abbrev fit : ℕ → List ℕ → List ℕ
fit zero a = []
fit (suc n) [] = 0 ∷ fit n []
fit (suc n) (x ∷ a) = x ∷ fit n a

abbrev new_array : Option (List ℕ) → ℕ → Option (List ℕ)
new_array none n = some (fit n [])
new_array (some a) n = some (fit n a)

abbrev no_memory : Option (List ℕ) → ℕ → Option (List ℕ)
no_memory o n = none

length-fit : (n : ℕ) (a : List ℕ) → length (fit n a) ≡ n
length-fit zero a = refl
length-fit (suc n) [] = ap suc (length-fit n [])
length-fit (suc n) (x ∷ a) = ap suc (length-fit n a)

take-fit : (k n : ℕ) (a : List ℕ) → k ≤ length a → k ≤ n → take k (fit n a) ≡ take k a
take-fit zero n a h p = refl
take-fit (suc k) zero a h p = absurd (omega arith)
take-fit (suc k) (suc n) [] h p = absurd (omega arith)
take-fit (suc k) (suc n) (x ∷ a) h p = ap (◌∷◌ x) (take-fit k n a (omega arith) (omega arith))

new_array-sized : (c : Option (List ℕ)) (n : ℕ) (b : List ℕ) → new_array c n ≡ some b → length b ≡ n
new_array-sized none n b e = ground (arith, length-fit n [])
new_array-sized (some a) n b e = ground (arith, length-fit n a)

new_array-kept :
    (a : List ℕ) (n k : ℕ) (b : List ℕ)
    → new_array (some a) n ≡ some b
    → k ≤ length a
    → k ≤ n
    → take k b ≡ take k a
new_array-kept a n k b e h p = ground (arith, take-fit k n a h p)

new_array-IsRealloc : IsRealloc new_array
new_array-IsRealloc = record { sized = new_array-sized; kept = new_array-kept }

pop_correct_example : Returns (Popped nat_cmp true nat_cmp-IsOrder roomy) (pop nat_cmp true roomy)
pop_correct_example = pop_correct nat_cmp true nat_cmp-IsOrder roomy roomy-IsValid (omega arith)

add_correct_example :
    Returns
      (Added nat_cmp true nat_cmp-IsOrder new_array tight 9)
      (add nat_cmp true new_array tight 9)
add_correct_example =
    add_correct nat_cmp true nat_cmp-IsOrder new_array tight 9 new_array-IsRealloc tight-IsValid
      (omega arith) (λ n e. cc)

add-lost_example :
    (h : Heap ℕ) × (add nat_cmp true no_memory tight 9 ≡ ok (h, false))
    × (add nat_cmp true no_memory h 4 ≡ fault)
    × (pop nat_cmp true h ≡ fault)
add-lost_example =
    add-lost nat_cmp true nat_cmp-IsOrder no_memory tight 9 4 tight-IsValid refl (omega arith)
      (λ n. refl) (omega arith)

replace_correct_example :
    Returns (Replaced nat_cmp true nat_cmp-IsOrder roomy 1) (add_and_replace nat_cmp true roomy 1)
replace_correct_example =
    replace_correct nat_cmp true nat_cmp-IsOrder roomy 1 roomy-IsValid (omega arith)
