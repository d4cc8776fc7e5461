-- ===== src/Examples/Engines.antt =====
-- Examples for `beginGeneratingKeyboardEvents` of src/core/engine/engine_generator.cpp: under M00 key 5 is
-- key 4.
use yamy.Base.{
  ◌≡◌, refl, true, false, none, some, [], ◌∷◌, any, no_bits, set_bit, lookup, find_if, same_bits,
  all_below, any_below, ℕ, ◌<◌, ◌≤◌, ◌↔◌, ◌==◌, if◌then◌else◌,
}
use yamy.Modifier.{
  Modifier, add, modifier_init, type_up, type_down, type_repeat, press, care, is_pressed,
  is_dontcare,
}
use yamy.ModifiedKey.{of_key}
use yamy.ModifierState.{ModifierState, modifier_state_init}
use yamy.Keymap.{search_in, search_assignment}
use yamy.RuleTable.{CompiledRule, matches, find_match}
use yamy.ModifierKeys.Machine.{EventType}
use yamy.EventProcessor.{
  KeyCodes, EventProcessor, Clock, apply_rules, layer2_with, layer2_apply_substitution, check_with,
  layer1_evdev_to_yamy, layer3_yamy_to_evdev, is_virtual_key, is_modifier, is_lock, finish,
  process_checked, process_event,
}
use yamy.Generator.Keys.{is_event, mode_init}
use yamy.Generator.Reached.{Counted, Agrees, Reached, start, mode_changed, output_init}
use yamy.Generator.Basic.{IsOn}
use yamy.Generator.Actions.{Outcome, done, fault, Current, search_in_keymap}
use yamy.Engine.Modifiers.{Pressed, get_current_modifiers}
use yamy.Engine.Modifiers.Current.{IsHeld, IsRepeated, get_current_modifiers_lem}
use yamy.Keymap.{ao_new, am_normal}
use yamy.Engine.Begin.{
  Engine, has_active_virtual_modifiers, build_physical_modified_key, key_for_code, output_key,
  early_search, begin_generating_keyboard_events,
}
use yamy.Engine.Kept.{IsListed, begin-Reached}
use yamy.Engine.Translated.{PutsOut, meanwhile, begin-translated}
use yamy.Examples.Generated.{five_keys, five_keys-IsSound}
use yamy.Examples.Recursing.{setting_of, layered, no_command}

abbrev pub codes : KeyCodes
codes = record { evdev_to_yamy = λ c. c; yamy_to_evdev = λ c. c }

abbrev rule : CompiledRule
rule = record {
  required_on = set_bit no_bits 16 true;
  required_off = no_bits;
  output_scan_code = 4;
}

abbrev processor : EventProcessor
processor = record {
  modifier_handler = none;
  current_event_is_tap = false;
  lookup_table = record { buckets = (5, rule ∷ []) ∷ [] };
}

abbrev under_m00 : ModifierState
under_m00 = record { bits = set_bit no_bits 16 true; has_callback = false }

abbrev nothing_held : Pressed
nothing_held = record {
  key_is_pressed = no_bits;
  mod_assignments = λ t. [];
  current_lock = modifier_init;
  last_pressed_key = none;
  last_but_one_key = none;
}

abbrev pub engine : Engine
engine = record {
  output = record output_init { mode = record mode_init { current_keymap = 1 } };
  modifier_state = under_m00;
  event_processor = some processor;
  pressed = nothing_held;
}

abbrev key_down : Current
key_down = record {
  keymap = 1;
  mkey = record (of_key 5) { modifier = press modifier_init type_down };
}

abbrev key_up : Current
key_up = record { keymap = 1; mkey = record (of_key 5) { modifier = press modifier_init type_up } }

abbrev pub clock : Clock
clock = record { checks = λ n. 0; reads = record { first = 0; second = 0 } }

abbrev no_keymaps : Current → Engine → Outcome Engine
no_keymaps c e = fault

early_none :
    early_search codes (setting_of layered) no_command no_keymaps key_down false engine ≡ done none
unfolding early_search has_active_virtual_modifiers all_below search_in_keymap
    build_physical_modified_key of_key search_assignment search_in find_if
early_none = refl

later_none :
    early_search codes (setting_of layered) no_command no_keymaps key_up false (
      meanwhile codes
        (setting_of layered)
        no_command
        no_keymaps
        modifier_state_init
        processor
        engine)
    ≡ done none
unfolding early_search has_active_virtual_modifiers all_below modifier_state_init
later_none = refl

press_out :
    PutsOut five_keys key_down.mkey.key 4
      (process_event codes processor (some under_m00) 5 EventType.press clock).value
unfolding process_event process_checked check_with layer1_evdev_to_yamy layer2_apply_substitution
    layer2_with apply_rules find_match lookup find_if matches same_bits all_below any_below finish
    layer3_yamy_to_evdev is_virtual_key is_modifier is_lock output_key key_for_code of_key
press_out = (refl, refl, refl)

release_out :
    PutsOut five_keys key_up.mkey.key 5
      (process_event codes processor (some modifier_state_init) 5 EventType.release clock).value
unfolding process_event process_checked check_with layer1_evdev_to_yamy layer2_apply_substitution
    layer2_with apply_rules find_match lookup find_if matches same_bits all_below any_below finish
    layer3_yamy_to_evdev is_virtual_key is_modifier is_lock output_key key_for_code of_key
    modifier_state_init
release_out = (refl, refl, refl)

down_pressed : is_pressed key_down.mkey.modifier type_down ≡ true
unfolding is_pressed press
down_pressed = refl

up_pressed : is_pressed key_up.mkey.modifier type_down ≡ false
unfolding is_pressed press care modifier_init
up_pressed = refl

four_no_event : is_event five_keys 4 ≡ false
unfolding is_event any
four_no_event = refl

five_no_event : is_event five_keys 5 ≡ false
unfolding is_event any
five_no_event = refl

key_down-IsListed : IsListed five_keys key_down.mkey.key
unfolding of_key
key_down-IsListed = refl

begin-translated_example :
    (e1 : Engine) × (e2 : Engine) × (begin_generating_keyboard_events codes
        (setting_of layered)
        no_command
        no_keymaps
        1
        key_down
        5
        false
        clock
        engine
      ≡ done e1)
    × (begin_generating_keyboard_events codes
          (setting_of layered)
          no_command
          no_keymaps
          1
          key_up
          5
          false
          clock
          (meanwhile codes
            (setting_of layered)
            no_command
            no_keymaps
            modifier_state_init
            processor
            e1)
        ≡ done e2)
    × IsOn 4 e2.output
begin-translated_example =
    begin-translated codes (setting_of layered) no_command no_keymaps 1 key_down key_up 5 false
      clock clock engine processor processor modifier_state_init 4 5 down_pressed up_pressed
      early_none later_none refl refl press_out release_out four_no_event five_no_event refl

begin-Reached_example :
    (e' : Engine) × (begin_generating_keyboard_events codes
        (setting_of layered)
        no_command
        no_keymaps
        1
        key_down
        5
        false
        clock
        engine
      ≡ done e')
    × (e'.output.mode ≡ record mode_init { current_keymap = 1 })
    × Reached five_keys e'.output
    × Counted five_keys e'.output
    × Agrees five_keys e'.output
begin-Reached_example =
    begin-Reached codes (setting_of layered) no_command no_keymaps 1 key_down 5 false clock engine
      processor five_keys-IsSound key_down-IsListed early_none refl refl (mode_changed _ start)

-- Key 5 is the Shift key of the keymap, pressed last, and is pressed again.
abbrev shift_held : Pressed
shift_held = record nothing_held {
  key_is_pressed = set_bit no_bits 5 true;
  mod_assignments = λ t.
      if t == 0
      then record { assign_operator = ao_new; assign_mode = am_normal; key = 5 } ∷ []
      else [];
  last_pressed_key = some 5;
}

abbrev again : Modifier
again = get_current_modifiers shift_held (some 5) true

get_current_modifiers_example :
    (is_pressed again type_up ≡ false)
    × (is_pressed again type_down ≡ true)
    × ((is_pressed again type_repeat ≡ true) ↔ IsRepeated shift_held (some 5) true)
    × ((i : ℕ)
        → i < 4
        → (is_pressed again i ≡ true) ↔ IsHeld shift_held (shift_held.mod_assignments i))
    × ((i : ℕ) → i < 7 → is_dontcare again i ≡ false)
    × ((i : ℕ) → 7 ≤ i → is_pressed again i ≡ is_pressed (add modifier_init modifier_init) i)
get_current_modifiers_example = get_current_modifiers_lem shift_held (some 5) true
