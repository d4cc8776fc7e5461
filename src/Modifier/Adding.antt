-- ===== src/Modifier/Adding.antt =====
-- `Modifier::add` of src/core/input/keyboard.cpp, flag by flag.
use yamy.Base.{
  ℕ, zero, suc, ◌≤◌, ◌<◌, ◌≡◌, refl, ◌≢◌, ltb, ltb→lt, Bool-cases, inl, inr, false, Bool, not, ◌&&◌,
  arith, if◌then◌else◌,
}
use native.Mathlib.Decide.{ℕ_discrete}
use yamy.Modifier.{Modifier, type_end, is_pressed, is_dontcare, add_type, add_types, add}

-- What one flag should be after `self.add(m)`.
abbrev pub merged_pressed : Modifier → Modifier → ℕ → Bool
merged_pressed self m i =
    if is_dontcare self i && not (is_dontcare m i) then is_pressed m i else is_pressed self i

abbrev pub merged_dontcare : Modifier → Modifier → ℕ → Bool
merged_dontcare self m i = is_dontcare self i && is_dontcare m i

add_type_self :
    (self m : Modifier) (i : ℕ)
    → (is_pressed (add_type self m i) i ≡ merged_pressed self m i)
      × (is_dontcare (add_type self m i) i ≡ merged_dontcare self m i)
unfolding add_type
add_type_self self m i = ground arith

add_type_ne :
    (self m : Modifier) (i j : ℕ)
    → i ≢ j
    → (is_pressed (add_type self m i) j ≡ is_pressed self j)
      × (is_dontcare (add_type self m i) j ≡ is_dontcare self j)
unfolding add_type
add_type_ne self m i j h = ground arith

-- Rounds not yet made leave a flag alone.
add_types_above :
    (n : ℕ) (self m : Modifier) (j : ℕ)
    → n ≤ j
    → (is_pressed (add_types n self m) j ≡ is_pressed self j)
      × (is_dontcare (add_types n self m) j ≡ is_dontcare self j)
unfolding add_types
add_types_above zero self m j h = (refl, refl)
add_types_above (suc n) self m j h =
    ground (arith, add_type_ne (add_types n self m) m n j, add_types_above n self m j (omega arith))

-- The rounds below n merge the flags below n.
add_types_below :
    (n : ℕ) (self m : Modifier) (j : ℕ)
    → j < n
    → (is_pressed (add_types n self m) j ≡ merged_pressed self m j)
      × (is_dontcare (add_types n self m) j ≡ merged_dontcare self m j)
unfolding add_types
add_types_below zero self m j h = absurd (omega arith)
add_types_below (suc n) self m j h = elim (ℕ_discrete n j) [
  | yes e ↦
      ground
        (arith, e, add_type_self (add_types n self m) m n, add_types_above n self m n (omega arith))
  | no ne ↦
      ground
        (arith, add_type_ne (add_types n self m) m n j ne, add_types_below n self m j (omega arith))
]

ltb-false→le : (a b : ℕ) → ltb a b ≡ false → b ≤ a
ltb-false→le a b h = ground arith

-- `add` gives each of the 29 modifier types that this one does not care about the state that the
-- other one asks for, if that one cares; the types this one cares about keep their state, the two
-- don't-care sets are intersected, and the flags past the last type are left alone.
pub add_merges :
    (self m : Modifier) (j : ℕ)
    → (is_pressed (add self m) j
        ≡ (if ltb j type_end then merged_pressed self m j else is_pressed self j))
      × (is_dontcare (add self m) j
          ≡ (if ltb j type_end then merged_dontcare self m j else is_dontcare self j))
unfolding add
add_merges self m j = elim (Bool-cases (ltb j type_end)) [
  | inl e ↦ rw e (add_types_below type_end self m j (ltb→lt j type_end e))
  | inr e ↦ rw e (add_types_above type_end self m j (ltb-false→le j type_end e))
]
