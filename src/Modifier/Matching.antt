-- ===== src/Modifier/Matching.antt =====
-- `Modifier::doesMatch` and the other comparisons of src/core/input/keyboard.h, bit by bit.
use yamy.Base.{ℕ, ◌<◌, ◌≡◌, refl, ◌⊎◌, inr, ◌↔◌, Bool, true, false, ◌||◌, arith, same_bits_iff}
use yamy.Modifier.{Modifier, width, press_if, is_pressed, is_dontcare, does_match}

or_same : (a b d : Bool) → (a || d) ≡ (b || d) → (d ≡ true) ⊎ (a ≡ b)
or_same a b d h = ground arith

same_or : (a b d : Bool) → (d ≡ true) ⊎ (a ≡ b) → (a || d) ≡ (b || d)
same_or a b d h = ground arith

-- A modifier matches another exactly when they agree, on each of the 64 flags, wherever the first
-- one cares.
pub does_match_iff :
    (a m : Modifier)
    → (does_match a m ≡ true)
      ↔ ((i : ℕ) → i < width → (is_dontcare a i ≡ true) ⊎ (is_pressed a i ≡ is_pressed m i))
unfolding does_match is_dontcare is_pressed
does_match_iff a m = (
  λ h i lt.
      or_same (a.modifiers i) (m.modifiers i) (a.dontcares i) ((same_bits_iff width _ _).0 h i lt),
  λ h.
      (same_bits_iff width _ _).1
        (λ i lt. same_or (a.modifiers i) (m.modifiers i) (a.dontcares i) (h i lt)),
)

pub does_match_self : (m : Modifier) → does_match m m ≡ true
does_match_self m = (does_match_iff m m).1 (λ i lt. inr refl)

-- Matching sees only the flags that the assignment cares for: a modifier with all its flags set to
-- don't-care matches everything.
pub is_pressed-press_if :
    (m : Modifier) (t i : ℕ) (v : Bool)
    → (is_pressed (press_if m t v) t ≡ v)
      × (is_dontcare (press_if m t v) t ≡ false)
      × ((t ≡ i → ⊥)
          → (is_pressed (press_if m t v) i ≡ is_pressed m i)
            × (is_dontcare (press_if m t v) i ≡ is_dontcare m i))
unfolding press_if is_pressed is_dontcare
is_pressed-press_if m t i v = ground arith
