-- ===== src/Keymap/Adjusted.antt =====
-- What `adjustModifier` of src/core/input/keymap.cpp makes of the assignments of a keymap, counted by
-- key.
use yamy.Base.{
  ℕ, suc, ◌+◌, ◌-◌, ◌≤◌, ◌≡◌, refl, ap, ◌∙◌, Bool, true, false, Option, List, [], ◌∷◌, ◌++◌, map,
  arith, any, ltb, ◌==◌, if◌then◌else◌, Bool-cases, inl, inr,
}
use yamy.Keymap.{AssignOperator, ao_new, ao_add, ao_sub, ao_overwrite, AssignMode, ModAssignment}
use yamy.Keymap.Modifiers.{
  assignment, has_key, with_mode, erase_key, adjust_by, adjust_all, erase_redundant, inherited,
  adjust_modifier,
}

-- How often a key is assigned.
unfoldable pub count : ℕ → List ModAssignment → ℕ
count key [] = 0
count key (m ∷ rest) = if m.key == key then suc (count key rest) else count key rest

has_key-count : (key : ℕ) (l : List ModAssignment) → has_key key l ≡ ltb 0 (count key l)
unfolding count any
has_key-count key [] = refl
has_key-count key (m ∷ rest) = ground (arith, has_key-count key rest)

count-append : (key : ℕ) (a b : List ModAssignment) → count key (a ++ b) ≡ count key a + count key b
unfolding count
count-append key [] b = omega arith
count-append key (m ∷ a) b = ground (arith, count-append key a b)

erased_here :
    (a b key n : ℕ)
    → (a == b) ≡ true
    → n ≡ (if b == key then (if a == key then suc n else n) - 1 else if a == key then suc n else n)
erased_here a b key n h = ground arith

erased_behind :
    (a b key n : ℕ)
    → (a == b) ≡ false
    → (if a == key then suc (if b == key then n - 1 else n) else if b == key then n - 1 else n)
      ≡ (if b == key then (if a == key then suc n else n) - 1 else if a == key then suc n else n)
erased_behind a b key n h = ground arith

count-erase_key :
    (key other : ℕ) (l : List ModAssignment)
    → count key (erase_key other l) ≡ (if other == key then count key l - 1 else count key l)
unfolding count erase_key
count-erase_key key other [] = ground arith
count-erase_key key other (m ∷ rest) =
    let ih = count-erase_key key other rest in
    elim (Bool-cases (m.key == other)) [
      | inl e ↦ rw e (erased_here m.key other key (count key rest) e)
      | inr e ↦ rw (e, ih) (erased_behind m.key other key (count key rest) e)
    ]

count-map :
    (key : ℕ) (am : AssignMode) (l : List ModAssignment)
    → count key (map (with_mode am) l) ≡ count key l
unfolding count
count-map key am [] = refl
count-map key am (m ∷ rest) = ground (arith, count-map key am rest)

-- The specification of one assignment: how it changes the number of times that a key is assigned.
unfoldable pub counted : AssignOperator → Bool → ℕ → ℕ
counted ao_new same n = if same then 1 else 0
counted ao_add same n = if same then n + 1 else n
counted ao_sub same n = if same then n - 1 else n
counted ao_overwrite same n = n

unfoldable pub counted_all : ℕ → List ModAssignment → ℕ → ℕ
counted_all key [] n = n
counted_all key (ma ∷ rest) n = counted_all key rest (counted ma.assign_operator (ma.key == key) n)

count-adjust_by :
    (key : ℕ) (ao : AssignOperator) (am : AssignMode) (k : ℕ) (mos : List ModAssignment)
    → count key (adjust_by ao am k mos) ≡ counted ao (k == key) (count key mos)
unfolding adjust_by counted count
count-adjust_by key ao_new am k mos = refl
count-adjust_by key ao_add am k mos =
    ground (arith, count-append key mos (assignment ao_new am k ∷ []))
count-adjust_by key ao_sub am k mos = count-erase_key key k mos
count-adjust_by key ao_overwrite am k mos = count-map key am mos

count-adjust_all :
    (key : ℕ) (own mos : List ModAssignment)
    → count key (adjust_all own mos) ≡ counted_all key own (count key mos)
unfolding adjust_all counted_all
count-adjust_all key [] mos = refl
count-adjust_all key (ma ∷ rest) mos =
    count-adjust_all key rest (adjust_by ma.assign_operator ma.assign_mode ma.key mos)
    ∙ ap (counted_all key rest) (count-adjust_by key ma.assign_operator ma.assign_mode ma.key mos)

-- The erasure leaves a key that is there, and takes at most one of its assignments.
count-erase_redundant :
    (key : ℕ) (l : List ModAssignment)
    → (ltb 0 (count key (erase_redundant l)) ≡ ltb 0 (count key l))
      × (count key l ≤ suc (count key (erase_redundant l)))
unfolding count erase_redundant
count-erase_redundant key [] = (refl, omega arith)
count-erase_redundant key (m ∷ rest) =
    ground (arith, count-erase_redundant key rest, has_key-count m.key rest)

-- Which keys are assigned to a modifier after `adjustModifier`: exactly those that are assigned at
-- least once when the assignments of the keymap are counted one after the other, from those of the
-- parent or of the keyboard on, where a new assignment leaves one for its key and none for any other,
-- an addition adds one, a subtraction takes one away if there is one, and an overwriting changes none.
-- But the erasure of redundant assignments takes away at most one assignment of a key: a key that was
-- counted n + 1 times is still assigned at least n times.
pub adjust_modifier_lem :
    (parent : Option (List ModAssignment)) (type : ℕ) (mods : List ℕ) (own : List ModAssignment)
    (key : ℕ)
    → (has_key key (adjust_modifier parent type mods own)
        ≡ ltb 0 (counted_all key own (count key (inherited parent type mods))))
      × (counted_all key own (count key (inherited parent type mods))
          ≤ suc (count key (adjust_modifier parent type mods own)))
unfolding adjust_modifier
adjust_modifier_lem parent type mods own key =
    let l = adjust_all own (inherited parent type mods) in
    let e = count-adjust_all key own (inherited parent type mods) in
    let both = count-erase_redundant key l in
    (has_key-count key (erase_redundant l) ∙ both.0 ∙ ap (ltb 0) e, rw e at both.1)
