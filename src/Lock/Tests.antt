-- ===== src/Lock/Tests.antt =====
-- Runs of two threads over the lock of trunk/src/tl_lock.c.
use common_tool.Base.{ℕ, ◌≡◌, ◌<◌, ◌^◌, refl, true, List, [], ◌∷◌, ◌⊎◌}
use common_tool.Lock.{idle, critical, Event, call_on, call_off, access, start, run, step}
use common_tool.Lock.Exclusion.{has_lock, mutual_exclusion, release_frees, no_deadlock}

-- Thread 0 takes the lock, and thread 1 has read the word.
abbrev taken : List (ℕ × Event)
taken = (1, call_on) ∷ (0, call_on) ∷ (0, access) ∷ (1, access) ∷ (0, access) ∷ []

-- Thread 0 is about to exchange the word for its release; it read 2^31.
abbrev leaving : List (ℕ × Event)
leaving = (0, call_on) ∷ (0, access) ∷ (0, access) ∷ (0, call_off) ∷ (0, access) ∷ []

-- Thread 1 waits while thread 0 has the lock.
abbrev waiting : List (ℕ × Event)
waiting = (0, call_on) ∷ (0, access) ∷ (0, access) ∷ (1, call_on) ∷ []

mutual_exclusion_example : ◌≡◌ {A = ℕ} 0 0
unfolding run
mutual_exclusion_example = mutual_exclusion taken 0 0 refl refl

release_frees_example :
    ((step (run start leaving) (0, access)).pc 0 ≡ idle)
    × ((step (run start leaving) (0, access)).word < 2 ^ 31)
unfolding run
release_frees_example = release_frees leaving 0 (2 ^ 31) refl

no_deadlock_example :
    ((j : ℕ) × (has_lock ((run start waiting).pc j) ≡ true))
    ⊎ ((run (run start waiting) ((1, access) ∷ (1, access) ∷ [])).pc 1 ≡ critical)
unfolding run
no_deadlock_example = no_deadlock waiting 1 refl
