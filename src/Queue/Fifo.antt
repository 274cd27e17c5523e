-- ===== src/Queue/Fifo.antt =====
-- The chain of arrays as one list of entries, oldest first.
use common_tool.Base.{
  ℕ, zero, suc, ◌+◌, ◌≤◌, ◌<◌, ◌≡◌, ◌⊎◌, refl, sym, ap, ◌∙◌, Bool, true, false, Option, none, some,
  List, [], ◌∷◌, ◌++◌, append_assoc, append-nil, arith, ◌==◌, if◌then◌else◌, inl, inr, length,
  get_elem?, set, take, replicate, length-set, length-append, store-ok, Returns, returns,
  Returns-bind, Returns-if,
}
use common_tool.Queue.{Chunk, Queue, new_list, put, push_new, push_chain, push, chunk_size}

-- The entries from `s` to `e` of an array.
abbrev pub window {ℓ} : {A : Type ℓ} → ℕ → ℕ → List A → List A
window zero e xs = take e xs
window (suc s) zero xs = []
window (suc s) (suc e) [] = []
window (suc s) (suc e) (x ∷ xs) = window s e xs

module _ {ℓ} {A : Type ℓ} where
  window-set :
      (s e : ℕ) (xs : List A) (v : A)
      → s ≤ e
      → e < length xs
      → window s (suc e) (set xs e v) ≡ window s e xs ++ v ∷ []
  window-set s e [] v h k = elim k [ ]
  window-set zero zero (x ∷ xs) v h k = refl
  window-set zero (suc e) (x ∷ xs) v h k =
      ap (◌∷◌ x) (window-set zero e xs v (omega arith) (omega arith))
  window-set (suc s) zero (x ∷ xs) v h k = absurd (omega arith)
  window-set (suc s) (suc e) (x ∷ xs) v h k = window-set s e xs v (omega arith) (omega arith)

  pub window_first :
      (s e : ℕ) (xs : List A)
      → s < e
      → e ≤ length xs
      → (y : A) × (get_elem? xs s ≡ some y) × (window s e xs ≡ y ∷ window (suc s) e xs)
  window_first s zero xs h k = absurd (omega arith)
  window_first s (suc e) [] h k = absurd (omega arith)
  window_first zero (suc e) (x ∷ xs) h k = (x, refl, refl)
  window_first (suc s) (suc e) (x ∷ xs) h k = window_first s e xs (omega arith) (omega arith)

module _ {ℓ} {A : Type ℓ} where
  abbrev pub live : Chunk A → List (Option A)
  live c = window c.s c.e c.container

  abbrev pub entries : List (Chunk A) → List (Option A)
  entries [] = []
  entries (c ∷ cs) = live c ++ entries cs

  -- An array in the chain has an entry; one in `f` has room for one.
  pub record IsLive (c : Chunk A) : Type 0 where
    pub some_left : c.s < c.e
    pub inside : c.e ≤ c.size
    pub sized : c.size ≡ length c.container

  pub record IsSpare (c : Chunk A) : Type 0 where
    pub room : 0 < c.size
    pub sized : c.size ≡ length c.container

  abbrev pub AllLive : List (Chunk A) → Type 0
  AllLive [] = Unit
  AllLive (c ∷ cs) = IsLive c × AllLive cs

  abbrev pub AllSpare : List (Chunk A) → Type 0
  AllSpare [] = Unit
  AllSpare (c ∷ cs) = IsSpare c × AllSpare cs

  -- The queue as a list: the oldest entry first.
  abbrev pub content : Queue A → List (Option A)
  content q = entries q.chain

  pub record IsValid (q : Queue A) : Type 0 where
    pub used : AllLive q.chain
    pub spare : AllSpare q.f
    pub counted : q.size ≡ length (content q)

  put-live :
      (c : Chunk A) (x : A)
      → c.s ≤ c.e
      → c.e < c.size
      → c.size ≡ length c.container
      → Returns (λ c'. IsLive c' × (live c' ≡ live c ++ some x ∷ [])) (put c x)
  unfolding put
  put-live c x h k z = rw (store-ok c.container c.e (some x) (omega arith)) (
      returns (
        record {
          some_left = omega arith;
          inside = omega arith;
          sized = z ∙ sym (length-set c.container c.e (some x));
        },
        (let next : c.e + 1 ≡ suc c.e = omega arith in
            rw next (window-set c.s c.e c.container (some x) h (omega arith))),
      ))

  length-replicate : (n : ℕ) (x : Option A) → n ≡ length (replicate n x)
  length-replicate zero x = refl
  length-replicate (suc n) x = ap suc (length-replicate n x)

  -- What an insertion leaves of a chain, or of the empty end of one.
  record Grown (alloc_ok : Bool) (cs : List (Chunk A)) (x : A)
      (r : List (Chunk A) × List (Chunk A) × Bool) : Type ℓ where
    used : AllLive r.0
    spare : AllSpare r.1
    same : entries r.0 ≡ (if r.2 then entries cs ++ some x ∷ [] else entries cs)
    success : (alloc_ok ≡ false) ⊎ (r.2 ≡ true)

  push_new-Grown :
      (alloc_ok : Bool) (f : List (Chunk A)) (x : A)
      → AllSpare f
      → Returns (Grown alloc_ok [] x) (push_new alloc_ok f x)
  unfolding push_new new_list
  push_new-Grown alloc_ok (c ∷ f) x h =
      Returns-bind (put-live (record c { s = 0; e = 0 }) x (omega arith) h.0.room h.0.sized) λ c' p.
        returns (record {
          used = (p.0, tt);
          spare = h.1;
          same = append-nil (live c') ∙ p.1;
          success = inr refl;
        })
  push_new-Grown false [] x h =
      returns (record { used = tt; spare = tt; same = refl; success = inl refl })
  push_new-Grown true [] x h =
      Returns-bind
        (put-live
          (record { container = replicate chunk_size none; size = chunk_size; s = 0; e = 0 }) x
          (omega arith) (omega arith) (length-replicate chunk_size none))
        λ c' p. returns (record {
          used = (p.0, tt);
          spare = tt;
          same = append-nil (live c') ∙ p.1;
          success = inr refl;
        })

  more :
      (c : Chunk A) (b : Bool) (xs ys zs : List (Option A))
      → ys ≡ (if b then xs ++ zs else xs)
      → live c ++ ys ≡ (if b then (live c ++ xs) ++ zs else live c ++ xs)
  more c true xs ys zs h = ap (λ l. live c ++ l) h ∙ sym (append_assoc (live c) xs zs)
  more c false xs ys zs h = ap (λ l. live c ++ l) h

  -- An array before the place of the insertion.
  Grown-after :
      (alloc_ok : Bool) (c : Chunk A) (cs : List (Chunk A)) (x : A)
      (r : List (Chunk A) × List (Chunk A) × Bool)
      → IsLive c
      → Grown alloc_ok cs x r
      → Grown alloc_ok (c ∷ cs) x (c ∷ r.0, r.1, r.2)
  Grown-after alloc_ok c cs x r h g = record {
    used = (h, g.used);
    spare = g.spare;
    same = more c r.2 (entries cs) (entries r.0) (some x ∷ []) g.same;
    success = g.success;
  }

  push_chain-Grown :
      (alloc_ok : Bool) (cs f : List (Chunk A)) (x : A)
      → AllLive cs
      → AllSpare f
      → Returns (Grown alloc_ok cs x) (push_chain alloc_ok cs f x)
  unfolding push_chain
  push_chain-Grown alloc_ok [] f x h k = push_new-Grown alloc_ok f x k
  push_chain-Grown alloc_ok (t ∷ []) f x h k =
      Returns-if (t.e == t.size)
        (λ full.
          Returns-bind (push_new-Grown alloc_ok f x k)
            λ r g. returns (Grown-after alloc_ok t [] x r h.0 g))
        (λ room.
          let v = h.0 in
          Returns-bind
            (put-live t x (omega (arith, v.some_left)) (ground (arith, v.inside)) v.sized)
            λ t' p. returns (record {
              used = (p.0, tt);
              spare = k;
              same =
                  append-nil (live t')
                  ∙ p.1
                  ∙ ap (λ l. l ++ some x ∷ []) (sym (append-nil (live t)));
              success = inr refl;
            }))
  push_chain-Grown alloc_ok (c ∷ d ∷ cs) f x h k =
      Returns-bind (push_chain-Grown alloc_ok (d ∷ cs) f x h.1 k)
        λ r g. returns (Grown-after alloc_ok c (d ∷ cs) x r h.0 g)

  -- What tl_queue_push leaves.
  pub record Pushed (alloc_ok : Bool) (q : Queue A) (x : A) (r : Queue A × Bool) : Type ℓ where
    pub valid : IsValid r.0
    pub same : content r.0 ≡ (if r.1 then content q ++ some x ∷ [] else content q)
    pub success : (alloc_ok ≡ false) ⊎ (r.1 ≡ true)

  count :
      (b : Bool) (n : ℕ) (xs ys : List (Option A)) (x : A)
      → n ≡ length xs
      → ys ≡ (if b then xs ++ some x ∷ [] else xs)
      → (if b then n + 1 else n) ≡ length ys
  count true n xs ys x h e = omega (arith, ap length e, length-append xs (some x ∷ []))
  count false n xs ys x h e = omega (arith, ap length e)

  -- On a valid queue tl_queue_push returns and leaves a valid queue: with the entry behind the others
  -- where it returns 0, with the same entries where it returns -1, which it does not while memory is
  -- found.
  pub push_correct :
      (alloc_ok : Bool) (q : Queue A) (x : A)
      → IsValid q
      → Returns (Pushed alloc_ok q x) (push alloc_ok q x)
  unfolding push
  push_correct alloc_ok q x v =
      Returns-bind (push_chain-Grown alloc_ok q.chain q.f x v.used v.spare) λ r g. returns (record {
        valid = record {
          used = g.used;
          spare = g.spare;
          counted = count r.2 q.size (content q) (entries r.0) x v.counted g.same;
        };
        same = g.same;
        success = g.success;
      })
