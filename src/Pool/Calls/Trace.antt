-- ===== src/Pool/Calls/Trace.antt =====
-- One used tag of a pool, followed through an allocation.
use common_tool.Base.{
  ℕ, ◌≤◌, ◌<◌, ◌≡◌, ◌≢◌, inl, inr, refl, ◌∙◌, ap, false, some, arith, ◌==◌, if◌then◌else◌,
  Option-cases,
}
use common_tool.Pool.{Tag, used, unuse, Pool, Spot, locate}
use common_tool.Pool.Layout.{tally_blks, on_used, Local}
use common_tool.Pool.Invariant.{IsPool}
use common_tool.Pool.Locate.{locate-Local, locate-none, locate-found}
use common_tool.Pool.Alloc.Part.{Taken}

-- One for a used tag at an address, and its size.
abbrev one_at : ℕ → ℕ → ℕ → ℕ
one_at a c n = if c == a then 1 else 0

abbrev size_at : ℕ → ℕ → ℕ → ℕ
size_at a c n = if c == a then n else 0

one_at-Local : (a : ℕ) → Local a (on_used (one_at a))
one_at-Local a c (used n) ne = let e : (c == a) ≡ false = ground (arith, ne) in rw e
one_at-Local a c (unuse n) ne = refl

size_at-Local : (a : ℕ) → Local a (on_used (size_at a))
size_at-Local a c (used n) ne = let e : (c == a) ≡ false = ground (arith, ne) in rw e
size_at-Local a c (unuse n) ne = refl

one_at_used : (a : ℕ) (t : Tag) → 0 < on_used (one_at a) a t → (m : ℕ) × (t ≡ used m)
one_at_used a (used m) h = (m, refl)
one_at_used a (unuse m) h = absurd (omega arith)

one_at_most : (a : ℕ) (t : Tag) → on_used (one_at a) a t ≤ 1
one_at_most a (used m) = ground arith
one_at_most a (unuse m) = omega arith

no_size : (a : ℕ) (t : Tag) → on_used (one_at a) a t ≡ 0 → on_used (size_at a) a t ≡ 0
no_size a (used m) h = absurd (ground arith)
no_size a (unuse m) h = refl

no_size_at : (a c n : ℕ) → one_at a c n ≡ 0 → size_at a c n ≡ 0
no_size_at a c n h = ground arith

one_at_self : (a n : ℕ) → one_at a a n ≡ 1
one_at_self a n = ground arith

size_at_self : (a n : ℕ) → size_at a a n ≡ n
size_at_self a n = ground arith

-- Where no tag is used, none has a size.
not_used :
    (p : Pool) (a : ℕ)
    → IsPool p
    → tally_blks (on_used (one_at a)) p.blks ≡ 0
    → tally_blks (on_used (size_at a)) p.blks ≡ 0
not_used p a v h = elim (Option-cases (locate a p.blks)) [
  | inl e ↦ locate-none a (on_used (size_at a)) (size_at-Local a) p.blks e
  | inr (s, e) ↦
      let one =
        locate-Local a (on_used (one_at a)) (one_at-Local a) p.home p.blks s v.blocks v.apart e in
      let size =
        locate-Local a (on_used (size_at a)) (size_at-Local a) p.home p.blks s v.blocks v.apart e in
      omega (arith, size, no_size a s.tag (omega (arith, one, h)))
]

-- The tag that was taken is the one at its address.
pub Taken-at :
    (n : ℕ) (p q : Pool) (a : ℕ)
    → IsPool p
    → (t : Taken n p q a) → (s : Spot) × (locate a q.blks ≡ some s) × (s.tag ≡ used t.size)
Taken-at n p q a v t =
    let one = one_at_self a t.size in
    let size = size_at_self a t.size in
    let blks = t.valid.blocks in
    let (s, e, only) =
      locate-found a (on_used (one_at a)) q.home q.blks (one_at-Local a) blks t.valid.apart
        (omega (arith, t.kept (one_at a), one)) in
    let (m, tag) = one_at_used a s.tag (omega (arith, only, t.kept (one_at a), one)) in
    let fresh : tally_blks (on_used (one_at a)) p.blks ≡ 0 =
      omega (arith, only, t.kept (one_at a), one, one_at_most a s.tag) in
    let sized =
      locate-Local a (on_used (size_at a)) (size_at-Local a) q.home q.blks s blks t.valid.apart e in
    let found = size_at_self a m in
    let same : m ≡ t.size = omega (
      arith,
      sized,
      t.kept (size_at a),
      not_used p a v fresh,
      ap (on_used (size_at a) a) tag,
      found,
      size,
    ) in
    (s, e, tag ∙ ap used same)

-- A used tag is where it was after another one was taken.
pub still_used :
    (p q : Pool) (b n k a : ℕ) (s : Spot)
    → IsPool p
    → locate b p.blks ≡ some s
    → s.tag ≡ used n
    → Taken k p q a
    → (s' : Spot) × (locate b q.blks ≡ some s') × (s'.tag ≡ used n)
still_used p q b n k a s v l tag t =
    let one =
      locate-Local b (on_used (one_at b)) (one_at-Local b) p.home p.blks s v.blocks v.apart l in
    let size =
      locate-Local b (on_used (size_at b)) (size_at-Local b) p.home p.blks s v.blocks v.apart l in
    let counted : on_used (one_at b) b s.tag ≡ 1 =
      ap (on_used (one_at b) b) tag ∙ one_at_self b n in
    let sized : on_used (size_at b) b s.tag ≡ n =
      ap (on_used (size_at b) b) tag ∙ size_at_self b n in
    let blks = t.valid.blocks in
    let (s', e, only) =
      locate-found b (on_used (one_at b)) q.home q.blks (one_at-Local b) blks t.valid.apart
        (omega (arith, t.kept (one_at b), one, counted)) in
    let (m, tag') = one_at_used b s'.tag (omega (arith, only, t.kept (one_at b), one, counted)) in
    let elsewhere : one_at b a t.size ≡ 0 =
      omega (arith, only, t.kept (one_at b), one, counted, one_at_most b s'.tag) in
    let size' =
      locate-Local b (on_used (size_at b)) (size_at-Local b) q.home q.blks s' blks t.valid.apart
        e in
    let same : m ≡ n = omega (
      arith,
      size',
      ap (on_used (size_at b) b) tag' ∙ size_at_self b m,
      t.kept (size_at b),
      size,
      sized,
      no_size_at b a t.size elsewhere,
    ) in
    (s', e, tag' ∙ ap used same)

-- The tag that was taken was not a used one before.
pub Taken-elsewhere :
    (p q : Pool) (b n k a : ℕ) (s : Spot)
    → IsPool p
    → locate b p.blks ≡ some s
    → s.tag ≡ used n
    → Taken k p q a
    → a ≢ b
Taken-elsewhere p q b n k a s v l tag t e =
    let one =
      locate-Local b (on_used (one_at b)) (one_at-Local b) p.home p.blks s v.blocks v.apart l in
    let counted : on_used (one_at b) b s.tag ≡ 1 =
      ap (on_used (one_at b) b) tag ∙ one_at_self b n in
    let again : one_at b a t.size ≡ 1 = ap (λ x. one_at b x t.size) e ∙ one_at_self b t.size in
    let (s', e', only) =
      locate-found b (on_used (one_at b)) q.home q.blks (one_at-Local b) t.valid.blocks
        t.valid.apart (omega (arith, t.kept (one_at b), one, counted)) in
    omega (arith, only, t.kept (one_at b), one, counted, again, one_at_most b s'.tag)
