-- ===== src/Examples/Sorting.antt =====
-- A sort for the virtual keymap of src/core/engine/engine.cpp, in the place of `std::sort`: insertion
-- by the comparison.
use yamy.Base.{
  ◌≡◌, ◌↔◌, ◌⊎◌, inl, inr, Bool, true, false, List, [], ◌∷◌, All, no_bits, set_bit, leb, Bool-cases,
  if◌then◌else◌,
}
use yamy.ModifiedKey.{Words}
use yamy.VirtualKeymap.{KeymapEntry, lookup_keymap, sort_keymap_by_specificity}
use yamy.VirtualKeymap.MostSpecific.{
  Among, IsStrictWeak, IsSortedBy, Sorts, BestOf, lookup-sort_keymap,
}

unfoldable insert_entry :
    (KeymapEntry → KeymapEntry → Bool) → KeymapEntry → List KeymapEntry → List KeymapEntry
insert_entry before e [] = e ∷ []
insert_entry before e (x ∷ l) =
    let rest = insert_entry before e l in if before x e then x ∷ rest else e ∷ x ∷ l

unfoldable sort_entries : (KeymapEntry → KeymapEntry → Bool) → List KeymapEntry → List KeymapEntry
sort_entries before [] = []
sort_entries before (e ∷ l) = insert_entry before e (sort_entries before l)

module _ (before : KeymapEntry → KeymapEntry → Bool) (w : IsStrictWeak before) where
  -- No entry of the list is before e.
  abbrev NoneBefore : KeymapEntry → List KeymapEntry → Type 0
  NoneBefore e l = All (λ x. before x e ≡ false) l

  insert_entry-NoneBefore :
      (d e : KeymapEntry) (l : List KeymapEntry)
      → before e d ≡ false
      → NoneBefore d l
      → NoneBefore d (insert_entry before e l)
  unfolding insert_entry
  insert_entry-NoneBefore d e [] h a = (h, tt)
  insert_entry-NoneBefore d e (x ∷ l) h a = elim (Bool-cases (before x e)) [
    | inl y ↦ rw y (a.0, insert_entry-NoneBefore d e l h a.1)
    | inr n ↦ rw n (h, a)
  ]

  -- Neither is x before e if it is not before y and y is not before e.
  not_before : (e y x : KeymapEntry) → before y e ≡ false → before x y ≡ false → before x e ≡ false
  not_before e y x p q = elim (Bool-cases (before x e)) [
    | inr n ↦ n
    | inl h ↦ elim (Bool-cases (before e y)) [
      | inl g ↦ cc (w.transitive x e y h g, q)
      | inr g ↦ elim (Bool-cases (before y x)) [
        | inl f ↦ cc (w.transitive y x e f h, p)
        | inr f ↦ w.incomparable x y e q f p g
      ]
    ]
  ]

  NoneBefore-trans :
      (e y : KeymapEntry) (l : List KeymapEntry)
      → before y e ≡ false
      → NoneBefore y l
      → NoneBefore e l
  NoneBefore-trans e y [] h a = tt
  NoneBefore-trans e y (x ∷ l) h a = (not_before e y x h a.0, NoneBefore-trans e y l h a.1)

  -- What is after x is not before it.
  asymmetric : (x e : KeymapEntry) → before x e ≡ true → before e x ≡ false
  asymmetric x e h = elim (Bool-cases (before e x)) [
    | inr n ↦ n
    | inl y ↦ cc (w.transitive x e x h y, w.irreflexive x)
  ]

  insert_entry-IsSortedBy :
      (e : KeymapEntry) (l : List KeymapEntry)
      → IsSortedBy before l
      → IsSortedBy before (insert_entry before e l)
  unfolding insert_entry
  insert_entry-IsSortedBy e [] s = (tt, tt)
  insert_entry-IsSortedBy e (x ∷ l) s = elim (Bool-cases (before x e)) [
    | inl y ↦
        rw y (insert_entry-NoneBefore x e l (asymmetric x e y) s.0, insert_entry-IsSortedBy e l s.1)
    | inr n ↦ rw n ((n, NoneBefore-trans e x l n s.0), s)
  ]

  sort_entries-IsSortedBy : (l : List KeymapEntry) → IsSortedBy before (sort_entries before l)
  unfolding sort_entries
  sort_entries-IsSortedBy [] = tt
  sort_entries-IsSortedBy (e ∷ l) =
      insert_entry-IsSortedBy e (sort_entries before l) (sort_entries-IsSortedBy l)

  insert_entry-keeps :
      (e : KeymapEntry) (l : List KeymapEntry) (x : KeymapEntry)
      → Among x (insert_entry before e l) ↔ ((x ≡ e) ⊎ Among x l)
  unfolding insert_entry
  insert_entry-keeps e [] x = (λ h. h, λ h. h)
  insert_entry-keeps e (y ∷ l) x = elim (Bool-cases (before y e)) [
    | inr h ↦ rw h (λ m. m, λ m. m)
    | inl h ↦ rw h (
      λ m. elim m [
        | inl eq ↦ inr (inl eq)
        | inr m' ↦ elim ((insert_entry-keeps e l x).0 m') [ inl eq ↦ inl eq | inr r ↦ inr (inr r) ]
      ],
      λ m. elim m [
        | inl eq ↦ inr ((insert_entry-keeps e l x).1 (inl eq))
        | inr m' ↦ elim m' [ inl eq ↦ inl eq | inr r ↦ inr ((insert_entry-keeps e l x).1 (inr r)) ]
      ],
    )
  ]

  sort_entries-keeps :
      (l : List KeymapEntry) (x : KeymapEntry) → Among x (sort_entries before l) ↔ Among x l
  unfolding sort_entries
  sort_entries-keeps [] x = (λ h. h, λ h. h)
  sort_entries-keeps (e ∷ l) x = (
    λ m. elim ((insert_entry-keeps e (sort_entries before l) x).0 m) [
      | inl eq ↦ inl eq
      | inr r ↦ inr ((sort_entries-keeps l x).0 r)
    ],
    λ m.
        (insert_entry-keeps e (sort_entries before l) x).1
          (elim m [ inl eq ↦ inl eq | inr r ↦ inr ((sort_entries-keeps l x).1 r) ]),
  )

sort_entries-Sorts : Sorts sort_entries
sort_entries-Sorts = record {
  keeps = λ before w l x. sort_entries-keeps before w l x;
  sorted = λ before w l. sort_entries-IsSortedBy before w l;
}

abbrev no_words : Words
no_words w i = false

-- Key 30 becomes 31, or 32 while M00 is active.
abbrev plain : KeymapEntry
plain = record {
  required_mods = no_words;
  required_locks = no_words;
  input_key = 30;
  output_key = 31;
  specificity = 0;
}

abbrev under_m00 : KeymapEntry
under_m00 = record plain {
  required_mods = λ w. if leb w 0 then set_bit no_bits 0 true else no_bits;
  output_key = 32;
  specificity = 1;
}

lookup-sort_keymap_example : BestOf (plain ∷ under_m00 ∷ []) 30 (set_bit no_bits 16 true) (
    lookup_keymap
      (sort_keymap_by_specificity sort_entries (plain ∷ under_m00 ∷ []))
      30
      (set_bit no_bits 16 true))
lookup-sort_keymap_example =
    lookup-sort_keymap sort_entries sort_entries-Sorts (plain ∷ under_m00 ∷ []) 30
      (set_bit no_bits 16 true)
