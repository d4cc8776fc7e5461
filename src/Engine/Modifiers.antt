-- ===== src/Engine/Modifiers.antt =====
-- src/core/engine/engine_modifier.cpp: the modifiers of the moment.
pub mod Current
use yamy.Base.{
  ℕ, zero, suc, ◌≡◌, refl, Bool, true, false, not, ◌&&◌, ◌||◌, Option, none, some, List, [], ◌∷◌,
  Bits, any, if◌then◌else◌,
}
use yamy.Modifier.{
  Modifier, modifier_init, type_shift, type_alt, type_control, type_windows, type_up, type_down,
  type_repeat, type_end, add, press, release, care, press_if, dontcare, is_pressed, is_dontcare,
}
use yamy.ModifiedKey.{ModifiedKey, same_key}
use yamy.Keymap.{AssignMode, am_not_modifier, ModAssignment}

-- What `Engine` keeps for the modifiers: the flag `m_isPressed` of each key, the modifier assignments of
-- the current keymap, the locks and the last two pressed keys.
pub record Pressed : Type 0 where
  pub key_is_pressed : Bits
  pub mod_assignments : ℕ → List ModAssignment
  pub current_lock : Modifier
  pub last_pressed_key : Option ℕ
  pub last_but_one_key : Option ℕ

-- `isPressed`
unfoldable pub modifier_is_pressed : Pressed → ℕ → Bool
modifier_is_pressed e t = any (λ ma. e.key_is_pressed ma.key) (e.mod_assignments t)

-- The test and the last part of `getCurrentModifiers`.
unfoldable pub is_repeat : Pressed → Option ℕ → Bool → Bool
is_repeat e key pressed =
    same_key e.last_pressed_key key && (pressed || same_key e.last_but_one_key key)

unfoldable pub with_event : Modifier → Bool → Bool → Modifier
with_event m pressed repeated =
    let up = press_if m type_up (not pressed) in
    let down = press_if up type_down pressed in
    let first = press_if down type_repeat false in
    if repeated then press_if first type_repeat true else first

unfoldable pub get_current_modifiers : Pressed → Option ℕ → Bool → Modifier
get_current_modifiers e key pressed =
    let locks = add modifier_init e.current_lock in
    let shift = press_if locks type_shift (modifier_is_pressed e type_shift) in
    let alt = press_if shift type_alt (modifier_is_pressed e type_alt) in
    let control = press_if alt type_control (modifier_is_pressed e type_control) in
    let windows = press_if control type_windows (modifier_is_pressed e type_windows) in
    with_event windows pressed (is_repeat e key pressed)

-- The inner loop of `fixModifierKey`: the mode of the first assignment of the key.
unfoldable pub mode_of : List ModAssignment → Option ℕ → Option AssignMode
mode_of [] key = none
mode_of (ma ∷ rest) key =
    let behind = mode_of rest key in
    if same_key key (some ma.key) then some ma.assign_mode else behind

-- `fixModifierKey` from type t on, for n types: the modified key, the mode, and the result.
unfoldable pub fix_from : Pressed → ℕ → ℕ → ModifiedKey → ModifiedKey × AssignMode × Bool
fix_from e t zero mk = (mk, am_not_modifier, false)
fix_from e t (suc n) mk = elim (mode_of (e.mod_assignments t) mk.key) [
  | none ↦ fix_from e (suc t) n mk
  | some mode ↦ (record mk { modifier = dontcare mk.modifier t }, mode, true)
]

unfoldable pub fix_modifier_key : Pressed → ModifiedKey → ModifiedKey × AssignMode × Bool
fix_modifier_key e mk = fix_from e 0 type_end mk
