-- ===== src/Profile/Names.antt =====
-- The item of a name: `newEntry` on a valid profile.
use common_tool.Base.{
  ℕ, ◌<◌, ◌≡◌, ◌⊎◌, inl, inr, refl, ◌∙◌, true, false, List, [], ◌∷◌, ◌++◌, none, some, arith,
  Option-cases, length, length-append, Returns, returns, Returns-bind, ℤ, IsOrder,
}
use common_tool.Rbtree.{inorder}
use common_tool.Rbtree.Ascending.{find, put}
use common_tool.Rbtree.Invariant.{IsTree}
use common_tool.Rbtree.Locate.{query}
use common_tool.Rbtree.Locate.Query.{query_correct}
use common_tool.Rbtree.Insert.Main.{insert_correct}
use common_tool.Profile.{Item, Profile, Memory, no_time, new_item, new_entry, get_item}
use common_tool.Profile.Time.{IsClock}

abbrev pub all_memory : Memory
all_memory = record { entry = true; item = true; name = true; node = true }

abbrev pub no_calls : Item
no_calls = record { cnt_call = 0; total = no_time }

abbrev pub Sane : List Item → Type 0
Sane [] = Unit
Sane (i ∷ is) = IsClock i.total × Sane is

Sane-append : (is : List Item) → Sane is → Sane (is ++ no_calls ∷ [])
Sane-append [] h = (record { usec = omega arith; sec = omega arith }, tt)
Sane-append (i ∷ is) h = (h.0, Sane-append is h.1)

module _ {ℓ} {K : Type ℓ} (kc : K → K → ℤ) where
  abbrev pub Known : ℕ → List (K × ℕ) → Type 0
  Known n [] = Unit
  Known n (e ∷ es) = (e.1 < n) × Known n es

  -- The tree is valid, its values are items, and the totals are times.
  pub record IsProfile (p : Profile K) : Type ℓ where
    pub tree : IsTree kc p.root
    pub known : Known (length p.items) (inorder p.root.first)
    pub totals : Sane p.items

  -- The item of a name: the one it has, or a new one.
  pub record Gets (p : Profile K) (func : K) (q : Profile K) (i : ℕ) : Type ℓ where
    pub same : q ≡ record p { root = q.root; items = q.items }
    pub source :
        ((q.root ≡ p.root) × (q.items ≡ p.items) × (get_item kc p func ≡ some i))
        ⊎ ((get_item kc p func ≡ none)
            × (i ≡ length p.items)
            × (q.items ≡ p.items ++ no_calls ∷ [])
            × (inorder q.root.first ≡ put kc (func, i) (inorder p.root.first)))
    pub tree : IsTree kc q.root
    pub bound : i < length q.items
    pub totals : Sane q.items

  find-Known :
      (n : ℕ) (key : K) (es : List (K × ℕ)) (e : K × ℕ)
      → Known n es
      → find kc key es ≡ some e
      → e.1 < n
  unfolding find
  find-Known n key [] e k h = cc
  find-Known n key (x ∷ es) e k h = ground (arith, find-Known n key es e k.1)

  module _ (ord : IsOrder kc) where
    pub new_entry-Gets :
        (p : Profile K) (func : K)
        → IsProfile p
        → Returns
            (λ o. (q : Profile K) × (i : ℕ) × (o ≡ some (q, i)) × Gets p func q i)
            (new_entry kc p all_memory func)
    unfolding new_entry new_item get_item
    new_entry-Gets p func v = elim (Option-cases (find kc func (inorder p.root.first))) [
      | inl e ↦
          let missed : query kc p.root (func, 0) ≡ ((func, 0), false) =
            query_correct kc ord p.root (func, 0) v.tree ∙ rw e refl in
          let none_yet : get_item kc p func ≡ none = rw missed refl in
          let i = length p.items in
          rw missed (
            Returns-bind (insert_correct kc ord p.root (func, i) false v.tree e) λ r ins.
              rw ins.success (
                returns (
                  record p { root = r.0; items = p.items ++ no_calls ∷ [] },
                  i,
                  refl,
                  record {
                    same = refl;
                    source = inr (none_yet, refl, refl, ins.entries);
                    tree = ins.valid;
                    bound = omega (arith, length-append p.items (no_calls ∷ []));
                    totals = Sane-append p.items v.totals;
                  },
                )))
      | inr (x, e) ↦
          let hit : query kc p.root (func, 0) ≡ ((func, x.1), true) =
            query_correct kc ord p.root (func, 0) v.tree ∙ rw e refl in
          let there : get_item kc p func ≡ some x.1 = rw hit refl in
          rw hit (
            returns (
              p,
              x.1,
              refl,
              record {
                same = refl;
                source = inl (refl, refl, there);
                tree = v.tree;
                bound = find-Known (length p.items) func (inorder p.root.first) x v.known e;
                totals = v.totals;
              },
            ))
    ]
