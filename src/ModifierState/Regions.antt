-- ===== src/ModifierState/Regions.antt =====
-- The three regions of the bitset of src/core/input/modifier_state.h do not overlap: an operation on
-- one of them leaves the others as they were.
use yamy.Base.{ℕ, ◌<◌, ◌≡◌, ◌≢◌, Bool, true, false, arith}
use yamy.ModifierState.{
  ModifierState, StdModifier, std_index, std_flag, set_std_flag, activate_modifier,
  deactivate_modifier, is_modifier_active, is_lock_active,
}

pub std_index-lt : (f : StdModifier) → std_index f < 16
unfolding std_index
std_index-lt f = ground arith

pub std_index-injective : (f g : StdModifier) → std_index f ≡ std_index g → f ≡ g
unfolding std_index
std_index-injective f g h = ground arith

-- All but one virtual modifier is as before, and so is everything that is no virtual modifier.
abbrev pub OnlyVirtual : ℕ → ModifierState → ModifierState → Type 0
OnlyVirtual m s s' =
    ((j : ℕ) → m ≢ j → is_modifier_active s' j ≡ is_modifier_active s j)
    × ((f : StdModifier) → std_flag s' f ≡ std_flag s f)
    × ((l : ℕ) → is_lock_active s' l ≡ is_lock_active s l)

-- `activateModifier` and `deactivateModifier` set and clear the virtual modifier that they name, and
-- change no other virtual modifier, no standard modifier and no lock.
pub activate_modifier_only :
    (s : ModifierState) (m : ℕ)
    → m < 256
    → (is_modifier_active (activate_modifier s m) m ≡ true)
      × OnlyVirtual m s (activate_modifier s m)
      × (is_modifier_active (deactivate_modifier s m) m ≡ false)
      × OnlyVirtual m s (deactivate_modifier s m)
unfolding activate_modifier deactivate_modifier is_modifier_active std_flag is_lock_active
activate_modifier_only s m h = (
  ground arith,
  (λ j ne. ground arith, λ f. ground (arith, std_index-lt f), λ l. ground arith),
  ground arith,
  (λ j ne. ground arith, λ f. ground (arith, std_index-lt f), λ l. ground arith),
)

-- All but one standard modifier is as before, and so is everything that is no standard modifier.
abbrev pub OnlyStd : StdModifier → ModifierState → ModifierState → Type 0
OnlyStd f s s' =
    ((g : StdModifier) → f ≢ g → std_flag s' g ≡ std_flag s g)
    × ((j : ℕ) → is_modifier_active s' j ≡ is_modifier_active s j)
    × ((l : ℕ) → is_lock_active s' l ≡ is_lock_active s l)

pub set_std_flag_self :
    (s : ModifierState) (f : StdModifier) (v : Bool) → std_flag (set_std_flag s f v) f ≡ v
unfolding std_flag set_std_flag
set_std_flag_self s f v = ground arith

pub set_std_flag_only :
    (s : ModifierState) (f : StdModifier) (v : Bool) → OnlyStd f s (set_std_flag s f v)
unfolding std_flag set_std_flag is_modifier_active is_lock_active
set_std_flag_only s f v = (
  λ g ne. ground (arith, std_index-injective f g),
  λ j. ground (arith, std_index-lt f),
  λ l. ground (arith, std_index-lt f),
)
