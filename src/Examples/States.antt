-- ===== src/Examples/States.antt =====
-- Examples for the states of the modifiers in src/core/input.
use yamy.Base.{◌≡◌, refl, true, false, some, ℕ, ◌↔◌, if◌then◌else◌, no_bits, set_bit}
use yamy.Modifier.{Modifier, modifier_init, press, type_shift}
use yamy.ModifierState.{
  ModifierState, KeyEvent, StdModifier, lshift, std_flag, is_modifier_active, is_lock_active,
  update_from_key_event, keycode_to_std_modifier,
}
use yamy.ModifierState.Keys.{names_flag, update_from_key_event_lem}

-- Left Shift is down, M03 is active, lock L40 is on, and the GUI listens.
abbrev state : ModifierState
state = record {
  bits = set_bit (set_bit (set_bit no_bits 0 true) 19 true) 336 true;
  has_callback = true;
}

-- Left Shift goes up.
abbrev shift_up : KeyEvent
shift_up = record { is_key_down = false; is_extended = false; scan_code = 42 }

update_from_key_event_example :
    ((f : StdModifier)
      → std_flag (update_from_key_event state shift_up).0 f
        ≡ (if names_flag f 42 false then false else std_flag state f))
    × ((j : ℕ)
        → is_modifier_active (update_from_key_event state shift_up).0 j
          ≡ is_modifier_active state j)
    × ((l : ℕ) → is_lock_active (update_from_key_event state shift_up).0 l ≡ is_lock_active state l)
    × (((update_from_key_event state shift_up).1 ≡ true)
        ↔ ((f : StdModifier) × (names_flag f 42 false ≡ true)))
update_from_key_event_example = update_from_key_event_lem state shift_up

shift_code : keycode_to_std_modifier 42 ≡ some lshift
unfolding keycode_to_std_modifier
shift_code = refl

abbrev shifted : Modifier
shifted = press modifier_init type_shift
