-- ===== src/Queue/Tests.antt =====
-- A queue of trunk/src/tl_queue.c with two entries left in its array.
use common_tool.Base.{ℕ, ◌≡◌, refl, true, some, [], ◌∷◌, arith, drop, Returns}
use common_tool.Queue.{Queue, push, pop}
use common_tool.Queue.Fifo.{IsValid, Pushed, content, push_correct}
use common_tool.Queue.Take.{pop_oldest}

-- The array is full, so a push asks for a new one.
abbrev two_left : Queue ℕ
two_left = record {
  size = 2;
  chain = record { container = some 4 ∷ some 7 ∷ some 9 ∷ []; size = 3; s = 1; e = 3 } ∷ [];
  f = [];
}

two_left-IsValid : IsValid two_left
two_left-IsValid = record {
  used = (record { some_left = omega arith; inside = omega arith; sized = refl }, tt);
  spare = tt;
  counted = refl;
}

push_correct_example : Returns (Pushed true two_left 5) (push true two_left 5)
push_correct_example = push_correct true two_left 5 two_left-IsValid

pop_oldest_example :
    Returns (λ q. IsValid q × (content q ≡ drop 1 (content two_left))) (pop two_left)
pop_oldest_example = pop_oldest two_left two_left-IsValid
