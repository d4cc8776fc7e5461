-- ===== src/Generator/Modes.antt =====
-- What commands of src/core/commands and `setCurrentKeymap` of src/core/engine/engine_lifecycle.cpp
-- do with the mode.
use yamy.Base.{
  ℕ, zero, suc, ℤ, pos, negsuc, ltb, Bool, true, false, Option, none, some, List, [], ◌∷◌,
  if◌then◌else◌,
}
use yamy.Generator.Keys.{Output}

abbrev take {ℓ} : {A : Type ℓ} → ℕ → List A → List A
take zero l = []
take (suc n) [] = []
take (suc n) (a ∷ l) = a ∷ take n l

-- `MAX_KEYMAP_PREFIX_HISTORY`
abbrev pub max_keymap_prefix_history : ℕ
max_keymap_prefix_history = 64

-- `setCurrentKeymap`
unfoldable pub set_current_keymap : ℕ → Bool → Output → Output
set_current_keymap m does_add_to_history s = record s {
  mode = record s.mode {
    keymap_prefix_history =
        if does_add_to_history
        then take max_keymap_prefix_history (s.mode.current_keymap ∷ s.mode.keymap_prefix_history)
        else [];
    current_keymap = m;
  };
}

-- The last part of `Command_Prefix::exec`.
unfoldable pub begin_prefix : Bool → Output → Output
begin_prefix does_ignore s = record s {
  mode = record s.mode {
    is_prefix = true;
    does_edit_next_modifier = false;
    does_ignore_modifier_for_prefix = does_ignore;
  };
}

-- A number, 0 where it is negative.
abbrev pub positive : ℤ → ℕ
positive (pos n) = n
positive (negsuc n) = 0

-- `MIN(m_variable, max)`, 0 where it is negative.
abbrev pub repeat_end : ℤ → ℤ → ℕ
repeat_end variable max =
    if ltb (positive variable) (positive max) then positive variable else positive max

-- The keymap of the prefix history that is so many steps behind the latest.
abbrev pub earlier_keymap : ℕ → List ℕ → Option ℕ
earlier_keymap n [] = none
earlier_keymap zero (m ∷ history) = some m
earlier_keymap (suc n) (m ∷ history) = earlier_keymap n history
