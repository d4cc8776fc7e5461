-- ===== src/VirtualKeymap/MostSpecific.antt =====
-- The lookup in the sorted virtual keymap (src/core/engine/engine.cpp).
use yamy.Base.{
  ℕ, ◌≤◌, ◌≡◌, refl, sym, subst, ◌↔◌, ◌⊎◌, inl, inr, true, false, List, [], ◌∷◌, arith, Bits, All,
  Bool, Bool-cases,
}
use yamy.VirtualKeymap.{
  KeymapEntry, entry_matches, lookup_keymap, more_specific, sort_keymap_by_specificity,
}

abbrev pub Among : KeymapEntry → List KeymapEntry → Type 0
Among x [] = ⊥
Among x (e ∷ entries) = (x ≡ e) ⊎ Among x entries

All-each :
    (P : KeymapEntry → Type 0) (l : List KeymapEntry)
    → ((x : KeymapEntry) → Among x l → P x)
    → All P l
All-each P [] h = tt
All-each P (e ∷ l) h = (h e (inl refl), All-each P l (λ x m. h x (inr m)))

All-at :
    (P : KeymapEntry → Type 0) (l : List KeymapEntry) (x : KeymapEntry) → All P l → Among x l → P x
All-at P [] x a m = absurd m
All-at P (e ∷ l) x a (inl eq) = subst P (sym eq) a.0
All-at P (e ∷ l) x a (inr m) = All-at P l x a.1 m

-- A comparison that `std::sort` may be given: no entry comes before itself, and both "before" and
-- "neither is before the other" are transitive.
pub record IsStrictWeak (before : KeymapEntry → KeymapEntry → Bool) : Type 0 where
  pub irreflexive : (a : KeymapEntry) → before a a ≡ false
  pub transitive : (a b c : KeymapEntry) → before a b ≡ true → before b c ≡ true → before a c ≡ true
  pub incomparable :
      (a b c : KeymapEntry)
      → before a b ≡ false
      → before b a ≡ false
      → before b c ≡ false
      → before c b ≡ false
      → before a c ≡ false

-- Sorted: no entry is before one that stands in front of it.
abbrev pub IsSortedBy : (KeymapEntry → KeymapEntry → Bool) → List KeymapEntry → Type 0
IsSortedBy before [] = Unit
IsSortedBy before (e ∷ l) = All (λ x. before x e ≡ false) l × IsSortedBy before l

-- What `std::sort` is documented to do, for every comparison that it may be given: it keeps the
-- entries and leaves them sorted.
pub record Sorts (sort : (KeymapEntry → KeymapEntry → Bool) → List KeymapEntry → List KeymapEntry)
    : Type 0 where
  pub keeps :
      (before : KeymapEntry → KeymapEntry → Bool)
      → IsStrictWeak before
      → (l : List KeymapEntry) (x : KeymapEntry) → Among x (sort before l) ↔ Among x l
  pub sorted :
      (before : KeymapEntry → KeymapEntry → Bool)
      → IsStrictWeak before
      → (l : List KeymapEntry) → IsSortedBy before (sort before l)

more_specific-IsStrictWeak : IsStrictWeak more_specific
unfolding more_specific
more_specific-IsStrictWeak = record {
  irreflexive = λ a. ground arith;
  transitive = λ a b c. ground arith;
  incomparable = λ a b c. ground arith;
}

-- No entry is less specific than one behind it.
abbrev Descending : List KeymapEntry → Type 0
Descending [] = Unit
Descending (e ∷ l) = All (λ x. x.specificity ≤ e.specificity) l × Descending l

abbrev Misses : ℕ → Bits → KeymapEntry → Type 0
Misses key s x = entry_matches x key s ≡ false

-- Entry x does not match, or is no more specific than e.
abbrev Beaten : ℕ → Bits → KeymapEntry → KeymapEntry → Type 0
Beaten key s e x = Misses key s x ⊎ (x.specificity ≤ e.specificity)

-- The output is 0 and no entry matches, or it is the output of a matching entry that no other
-- matching entry is more specific than.
abbrev pub BestOf : List KeymapEntry → ℕ → Bits → ℕ → Type 0
BestOf l key s output =
    ((output ≡ 0) × All (Misses key s) l)
    ⊎ ((e : KeymapEntry) × (Among e l
          × ((entry_matches e key s ≡ true) × ((output ≡ e.output_key) × All (Beaten key s e) l))))

lookup-Descending :
    (l : List KeymapEntry) (key : ℕ) (s : Bits)
    → Descending l
    → BestOf l key s (lookup_keymap l key s)
unfolding lookup_keymap
lookup-Descending [] key s d = inl (refl, tt)
lookup-Descending (e ∷ l) key s d = elim (Bool-cases (entry_matches e key s)) [
  | inl yes_match ↦ inr (
    e,
    (
      inl refl,
      (
        yes_match,
        (ground arith, (inr (omega arith), All-each _ l (λ x m. inr (All-at _ l x d.0 m)))),
      ),
    ),
  )
  | inr no_match ↦ elim (lookup-Descending l key s d.1) [
    | inl none_match ↦ inl (ground (arith, none_match.0), (no_match, none_match.1))
    | inr (b, (m, (ok, (out, rest)))) ↦ inr (b, (inr m, (ok, (ground arith, (inl no_match, rest)))))
  ]
]

All-Descending :
    (e : KeymapEntry) (l : List KeymapEntry)
    → All (λ x. more_specific x e ≡ false) l
    → All (λ x. x.specificity ≤ e.specificity) l
unfolding more_specific
All-Descending e [] a = tt
All-Descending e (x ∷ l) a = (ground (arith, a.0), All-Descending e l a.1)

IsSortedBy-Descending : (l : List KeymapEntry) → IsSortedBy more_specific l → Descending l
IsSortedBy-Descending [] s = tt
IsSortedBy-Descending (e ∷ l) s = (All-Descending e l s.0, IsSortedBy-Descending l s.1)

-- The lookup finds a best entry, whatever the order of registration: for every sort that, given a
-- strict weak ordering, keeps the entries and leaves none behind one that it is before, every list of
-- entries, key and state, the lookup in the list that `sortKeymapBySpecificity` leaves gives 0 and no
-- entry of the list matches, or the output of a matching entry of the list that no other matching
-- entry is more specific than.
pub lookup-sort_keymap :
    (sort : (KeymapEntry → KeymapEntry → Bool) → List KeymapEntry → List KeymapEntry)
    (sorts : Sorts sort) (entries : List KeymapEntry) (key : ℕ) (s : Bits)
    → BestOf entries key s (lookup_keymap (sort_keymap_by_specificity sort entries) key s)
unfolding sort_keymap_by_specificity
lookup-sort_keymap sort sorts entries key s =
    let l = sort more_specific entries in
    let keeps = sorts.keeps more_specific more_specific-IsStrictWeak entries in
    let back : (P : KeymapEntry → Type 0) → All P l → All P entries =
      λ P a. All-each P entries (λ x m. All-at P l x a ((keeps x).1 m)) in
    let descending =
      IsSortedBy-Descending l (sorts.sorted more_specific more_specific-IsStrictWeak entries) in
    elim (lookup-Descending l key s descending) [
      | inl none_match ↦ inl (none_match.0, back (Misses key s) none_match.1)
      | inr (b, (m, (ok, (out, rest)))) ↦
          inr (b, ((keeps b).0 m, (ok, (out, back (Beaten key s b) rest))))
    ]
