-- ===== src/Sort/Tests.antt =====
-- Small arrays over trunk/src/tl_sort.c.
use common_tool.Base.{
  ℕ, zero, suc, ◌≡◌, refl, true, false, List, [], ◌∷◌, arith, replicate, ok, Returns,
}
use common_tool.Sort.{bsearch, i_sort}
use common_tool.Sort.Search.{IsSorted, Answer, bsearch_correct}
use common_tool.Sort.Halt.{IsPlace, bsearch-IsPlace}
use common_tool.Sort.Insertion.{Sorted, i_sort_correct}
use common_tool.Sort.Swap.{swap, traded, reach, swap-reach}
use common_tool.Samples.{nat_cmp, nat_cmp-IsOrder, nat_cmp-IsUnit}

abbrev ascending : List ℕ
ascending = 2 ∷ 5 ∷ 5 ∷ []

ascending-IsSorted : IsSorted nat_cmp 0 3 ascending
ascending-IsSorted zero zero h k = absurd (omega arith)
ascending-IsSorted zero (suc zero) h k = refl
ascending-IsSorted zero (suc (suc zero)) h k = refl
ascending-IsSorted zero (suc (suc (suc j))) h k = absurd (omega arith)
ascending-IsSorted (suc zero) (suc (suc zero)) h k = refl
ascending-IsSorted (suc zero) (suc (suc (suc j))) h k = absurd (omega arith)
ascending-IsSorted (suc (suc i)) j h k = absurd (omega arith)
ascending-IsSorted i zero h k = absurd (omega arith)
ascending-IsSorted (suc i) (suc zero) h k = absurd (omega arith)

bsearch_correct_example :
    Returns
      (Answer nat_cmp nat_cmp-IsOrder 0 ascending 5 ascending-IsSorted true)
      (bsearch nat_cmp ascending 5 true)
bsearch_correct_example =
    bsearch_correct nat_cmp nat_cmp-IsOrder 0 ascending 5 ascending-IsSorted true (omega arith)

abbrev mixed : List ℕ
mixed = 5 ∷ 1 ∷ 4 ∷ 2 ∷ []

i_sort_correct_example :
    Returns (Sorted nat_cmp nat_cmp-IsOrder nat_cmp-IsUnit 0 4 mixed) (i_sort nat_cmp mixed)
i_sort_correct_example = i_sort_correct nat_cmp nat_cmp-IsOrder nat_cmp-IsUnit 0 mixed

-- Two entries of nine bytes.
abbrev ones : List ℕ
ones = replicate 9 1

abbrev twos : List ℕ
twos = replicate 9 2

swap-reach_example : swap 8 4 9 ones twos ≡ ok (traded (reach 9) ones twos)
swap-reach_example = swap-reach 9 ones twos refl refl

bsearch-IsPlace_example : Returns (IsPlace 4) (bsearch nat_cmp mixed 4 false)
bsearch-IsPlace_example = bsearch-IsPlace nat_cmp mixed 4 false (omega arith)
