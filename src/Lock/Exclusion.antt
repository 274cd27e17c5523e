-- ===== src/Lock/Exclusion.antt =====
-- Mutual exclusion, and what the owner's release does, in every interleaving.
use common_tool.Base.{
  ℕ, ◌^◌, ◌≡◌, ◌≤◌, ◌<◌, refl, Bool, true, false, List, [], ◌∷◌, arith, ◌==◌, if◌then◌else◌, ◌≢◌,
  ◌⊎◌, inl, inr, Bool-cases, subst, dec_lt,
}
use common_tool.Lock.{
  Pc, idle, on_top, try_top, critical, off_top, on_read, try_read, off_read, Event, call_on,
  call_try, call_off, access, System, high, off_value, react, update, step, start, run, on_round,
  off_round,
}

-- The thread has the lock: it is in its critical section or on its way out of it.
abbrev pub has_lock : Pc → Bool
has_lock critical = true
has_lock off_top = true
has_lock (off_read o) = true
has_lock idle = false
has_lock on_top = false
has_lock try_top = false
has_lock (on_read o) = false
has_lock (try_read o) = false

-- What an owner that has read the word knows of it.
abbrev Read : Pc → ℕ → Type 0
Read (off_read o) l = o ≡ l
Read critical l = Unit
Read off_top l = Unit
Read idle l = Unit
Read on_top l = Unit
Read try_top l = Unit
Read (on_read o) l = Unit
Read (try_read o) l = Unit

record Inv (s : System) : Type 0 where
  bound : s.word < 2 ^ 32
  taken : (i : ℕ) → has_lock (s.pc i) ≡ true → 2 ^ 31 ≤ s.word
  one : (i j : ℕ) → has_lock (s.pc i) ≡ true → has_lock (s.pc j) ≡ true → i ≡ j
  fresh : (i : ℕ) → Read (s.pc i) s.word
  owner : 2 ^ 31 ≤ s.word → (i : ℕ) × (has_lock (s.pc i) ≡ true)

-- What one step does to the word and to the thread that makes it: it takes the free lock, it
-- gives up its own, or it leaves word and ownership alone.
data Effect (p q : Pc) (l m : ℕ) : Type 0 where
  acquire : l < 2 ^ 31 → has_lock q ≡ true → 2 ^ 31 ≤ m → m < 2 ^ 32 → Read q m → Effect p q l m
  release : has_lock p ≡ true → has_lock q ≡ false → m < 2 ^ 31 → Read q m → Effect p q l m
  keep : m ≡ l → has_lock q ≡ has_lock p → Read q m → Effect p q l m

on_round-Effect :
    (p r : Pc) (o l : ℕ)
    → has_lock p ≡ false
    → has_lock r ≡ false
    → Read r l
    → l < 2 ^ 32
    → Effect p (if (on_round o l).0 then critical else r) l (on_round o l).1
unfolding on_round
on_round-Effect p r o l hp hr rd h = elim (Bool-cases (high o == 0)) [
  | inl e ↦ elim (Bool-cases (l == o)) [
    | inl f ↦ rw (e, f) (acquire (ground arith) refl (ground arith) (ground arith) tt)
    | inr f ↦ rw (e, f) (keep refl (ground arith) rd)
  ]
  | inr e ↦ rw e (keep refl (ground arith) rd)
]

pub off_value-lt : (o : ℕ) → off_value o < 2 ^ 31
unfolding off_value
off_value-lt o = ground arith

off_round-Effect :
    (o l : ℕ)
    → o ≡ l
    → Effect (off_read o) (if (off_round o l).0 then idle else off_top) l (off_round o l).1
unfolding off_round
off_round-Effect o l e =
    let same : (l == o) ≡ true = ground arith in rw same (release refl refl (off_value-lt o) tt)

react-Effect :
    (e : Event) (p : Pc) (l : ℕ)
    → l < 2 ^ 32
    → Read p l
    → Effect p (react e p l).0 l (react e p l).1
unfolding react off_round
react-Effect access idle l h r = keep refl refl tt
react-Effect access critical l h r = keep refl refl tt
react-Effect access on_top l h r = keep refl refl tt
react-Effect access try_top l h r = keep refl refl tt
react-Effect access off_top l h r = keep refl refl refl
react-Effect access (on_read o) l h r = on_round-Effect (on_read o) on_top o l refl refl tt h
react-Effect access (try_read o) l h r = on_round-Effect (try_read o) idle o l refl refl tt h
react-Effect access (off_read o) l h r = off_round-Effect o l r
react-Effect call_on idle l h r = keep refl refl tt
react-Effect call_on p l h r = keep refl refl r
react-Effect call_try idle l h r = keep refl refl tt
react-Effect call_try p l h r = keep refl refl r
react-Effect call_off critical l h r = keep refl refl tt
react-Effect call_off p l h r = keep refl refl r

Read-of_out : (p : Pc) (l : ℕ) → has_lock p ≡ false → Read p l
Read-of_out (off_read o) l h = cc
Read-of_out idle l h = tt
Read-of_out p l h = tt

Read-update :
    (f : ℕ → Pc) (i : ℕ) (q : Pc) (m : ℕ)
    → Read q m
    → ((j : ℕ) → i ≢ j → Read (f j) m)
    → (j : ℕ) → Read (update f i q j) m
Read-update f i q m rd others j = elim (Bool-cases (i == j)) [
  | inl e ↦ rw e rd
  | inr e ↦ rw e (others j (ground arith))
]

Effect-Inv :
    {s : System} (i : ℕ) (q : Pc) (m : ℕ)
    → Inv s
    → Effect (s.pc i) q s.word m
    → Inv (record { word = m; pc = update s.pc i q })
Effect-Inv {s} i q m v (acquire free owns low high rd) = record {
  bound = high;
  taken = λ j h. low;
  one = λ j k h h'. ground (arith, v.taken j, v.taken k);
  fresh = Read-update s.pc i q m rd λ j ne. Read-of_out (s.pc j) m (ground (arith, v.taken j));
  owner = λ h. (i, ground arith);
}
Effect-Inv {s} i q m v (release owned gives low rd) = record {
  bound = omega arith;
  taken = λ j h. ground (arith, v.one i j);
  one = λ j k h h'. ground (arith, v.one j k);
  fresh = Read-update s.pc i q m rd λ j ne. Read-of_out (s.pc j) m (ground (arith, v.one i j));
  owner = λ h. absurd (omega arith);
}
Effect-Inv {s} i q m v (keep same owner rd) = record {
  bound = omega arith;
  taken = λ j h. ground (arith, v.taken j, v.taken i);
  one = λ j k h h'. ground (arith, v.one j k);
  fresh = Read-update s.pc i q m rd λ j ne. rw same (v.fresh j);
  owner = λ h. let (j, has) = v.owner (omega arith) in (j, ground arith);
}

step-Inv : (s : System) (i : ℕ) (e : Event) → Inv s → Inv (step s (i, e))
unfolding step
step-Inv s i e v = Effect-Inv i _ _ v (react-Effect e (s.pc i) s.word v.bound (v.fresh i))

run-Inv : (s : System) (es : List (ℕ × Event)) → Inv s → Inv (run s es)
unfolding run
run-Inv s [] v = v
run-Inv s ((i, e) ∷ es) v = run-Inv (step s (i, e)) es (step-Inv s i e v)

start-Inv : Inv start
start-Inv = record {
  bound = omega arith;
  taken = λ i h. cc;
  one = λ i j h. cc;
  fresh = λ i. tt;
  owner = λ h. absurd (omega arith);
}

-- However the scheduler interleaves the threads of a new lock, no two threads have it at once.
pub mutual_exclusion :
    (es : List (ℕ × Event)) (i j : ℕ)
    → has_lock ((run start es).pc i) ≡ true
    → has_lock ((run start es).pc j) ≡ true
    → i ≡ j
mutual_exclusion es i j = (run-Inv start es start-Inv).one i j

-- While some thread has the lock, the exchange of another thread fails, whatever value it read:
-- the word is left alone and the thread is outside the lock.
pub locked-refuses :
    (es : List (ℕ × Event)) (i o : ℕ)
    → has_lock ((run start es).pc i) ≡ true
    → on_round o (run start es).word ≡ (false, (run start es).word)
unfolding on_round
locked-refuses es i o h = let v = run-Inv start es start-Inv in ground (arith, v.taken i h, v.bound)

-- The exchange of a release never fails: between the owner's read and its exchange the other
-- threads cannot change the word. It clears the highest bit and lets the owner go.
pub release_frees :
    (es : List (ℕ × Event)) (i o : ℕ)
    → (run start es).pc i ≡ off_read o
    → ((step (run start es) (i, access)).pc i ≡ idle)
      × ((step (run start es) (i, access)).word < 2 ^ 31)
unfolding step react off_round
release_frees es i o h =
    let same : o ≡ (run start es).word =
      subst (λ p. Read p (run start es).word) h ((run-Inv start es start-Inv).fresh i) in
    let hit : ((run start es).word == o) ≡ true = ground arith in
    let self : (i == i) ≡ true = ground arith in rw h (rw (hit, self) (refl, off_value-lt o))

take_free :
    (s : System) (i : ℕ)
    → s.pc i ≡ on_top
    → s.word < 2 ^ 31
    → (run s ((i, access) ∷ (i, access) ∷ [])).pc i ≡ critical
unfolding run
take_free s i h free = let self : (i == i) ≡ true = ground arith in rw (h, self) (ground arith)

-- No release is lost: in every reachable state some thread has the lock, or a thread at the top of
-- the loop of tl_lock_on has it after its next two accesses.
pub no_deadlock :
    (es : List (ℕ × Event)) (i : ℕ)
    → (run start es).pc i ≡ on_top
    → ((j : ℕ) × (has_lock ((run start es).pc j) ≡ true))
      ⊎ ((run (run start es) ((i, access) ∷ (i, access) ∷ [])).pc i ≡ critical)
no_deadlock es i h =
    let v = run-Inv start es start-Inv in
    elim (dec_lt (run start es).word (2 ^ 31)) [
      | yes free ↦ inr (take_free (run start es) i h free)
      | no locked ↦ inl (v.owner (omega arith))
    ]
