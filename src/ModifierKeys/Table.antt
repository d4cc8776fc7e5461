-- ===== src/ModifierKeys/Table.antt =====
-- The data of src/core/engine/modifier_key_handler.h and the calls of modifier_key_handler.cpp that
-- register keys, ask about them and reset them.
use yamy.Base.{
  ℕ, ◌+◌, ◌-◌, ◌%◌, Bool, true, false, none, some, [], ◌∷◌, map, Assoc, lookup, insert, get_or,
}

abbrev pub u8 : ℕ → ℕ
u8 n = n % 256

abbrev pub u16 : ℕ → ℕ
u16 n = n % 65536

pub data HardwareModifier : Type 0 where
  hw_none hw_lshift hw_rshift hw_lctrl hw_rctrl hw_lalt hw_ralt hw_lwin hw_rwin : HardwareModifier

pub data NumberKeyState : Type 0 where
  idle waiting modifier_active tap_detected : NumberKeyState

pub record KeyState : Type 0 where
  pub state : NumberKeyState
  pub press_time : ℕ  -- ns
  pub target_modifier : HardwareModifier
  pub is_virtual : Bool
  pub virtual_mod_num : ℕ  -- uint8
  pub tap_output : ℕ  -- uint16, 0 is no output

unfoldable pub key_state_init : KeyState
key_state_init = record {
  state = idle;
  press_time = 0;
  target_modifier = hw_none;
  is_virtual = false;
  virtual_mod_num = 0;
  tap_output = 0;
}

pub record Handler : Type 0 where
  pub number_to_modifier : Assoc HardwareModifier
  pub key_states : Assoc KeyState
  pub virtual_modifiers : Assoc ℕ
  pub hold_threshold_ms : ℕ  -- uint32

unfoldable pub handler_init : ℕ → Handler
handler_init hold_threshold_ms = record {
  number_to_modifier = [];
  key_states = [];
  virtual_modifiers = [];
  hold_threshold_ms = hold_threshold_ms;
}

unfoldable pub register_number_modifier : Handler → ℕ → HardwareModifier → Handler
register_number_modifier h yamy_scancode modifier = record h {
  number_to_modifier = insert yamy_scancode modifier h.number_to_modifier;
  key_states =
      insert yamy_scancode (record key_state_init { target_modifier = modifier }) h.key_states;
}

-- The code passes a modifier code; the number is its distance from 0xF000, cut to a byte.
unfoldable pub register_virtual_modifier : Handler → ℕ → ℕ → Handler
register_virtual_modifier h modifier_code tap_output =
    let state = get_or key_state_init (lookup modifier_code h.key_states) in
    record h {
      virtual_modifiers = insert modifier_code tap_output h.virtual_modifiers;
      key_states =
          insert modifier_code
            (record state {
              is_virtual = true;
              virtual_mod_num = u8 (modifier_code + 65536 - 0xF000);
              tap_output = tap_output;
            })
            h.key_states;
    }

unfoldable pub virtual_code : ℕ → ℕ
virtual_code mod_num = u16 (0xF000 + mod_num)

unfoldable pub register_virtual_modifiers_from_map : Handler → Assoc ℕ → Handler
register_virtual_modifiers_from_map h [] = h
register_virtual_modifiers_from_map h ((mod_num, tap_output) ∷ rest) =
    register_virtual_modifiers_from_map
      (register_virtual_modifier h (virtual_code mod_num) tap_output) rest

unfoldable pub register_virtual_modifier_trigger : Handler → ℕ → ℕ → ℕ → Handler
register_virtual_modifier_trigger h trigger_key mod_num tap_output =
    let state = get_or key_state_init (lookup trigger_key h.key_states) in
    record h {
      key_states =
          insert trigger_key
            (record state {
              is_virtual = true;
              virtual_mod_num = mod_num;
              tap_output = tap_output;
              state = idle;
            })
            h.key_states;
    }

unfoldable pub is_number_modifier : Handler → ℕ → Bool
is_number_modifier h yamy_scancode = elim (lookup yamy_scancode h.number_to_modifier) [
  | none ↦ false
  | some m ↦ true
]

unfoldable pub is_virtual_modifier : Handler → ℕ → Bool
is_virtual_modifier h yamy_code = elim (lookup yamy_code h.key_states) [
  | none ↦ false
  | some s ↦ s.is_virtual
]

abbrev pub is_active : NumberKeyState → Bool
is_active modifier_active = true
is_active _ = false

abbrev pub is_waiting : NumberKeyState → Bool
is_waiting waiting = true
is_waiting _ = false

unfoldable pub is_modifier_held : Handler → ℕ → Bool
is_modifier_held h yamy_scancode = elim (lookup yamy_scancode h.key_states) [
  | none ↦ false
  | some s ↦ is_active s.state
]

unfoldable pub is_waiting_for_threshold : Handler → ℕ → Bool
is_waiting_for_threshold h yamy_scancode = elim (lookup yamy_scancode h.key_states) [
  | none ↦ false
  | some s ↦ is_waiting s.state
]

abbrev pub reset_entry : ℕ × KeyState → ℕ × KeyState
reset_entry e = (e.0, record e.1 { state = idle })

unfoldable pub reset : Handler → Handler
reset h = record h { key_states = map reset_entry h.key_states }
