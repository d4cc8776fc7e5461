-- ===== src/Engine/Begin.antt =====
-- `beginGeneratingKeyboardEvents` of src/core/engine/engine_generator.cpp up to the keymaps: the early
-- search under virtual modifiers, and the event processor. What follows where there is no event
-- processor or no evdev code is a parameter.
use yamy.Base.{
  ℕ, ◌+◌, ◌*◌, Bool, true, false, not, ◌&&◌, Option, none, some, List, [], ◌∷◌, get_or, ltb, ◌==◌,
  if◌then◌else◌, find_if, all_below,
}
use yamy.Modifier.{type_down, is_pressed}
use yamy.ModifiedKey.{ModifiedKey}
use yamy.ModifierState.{ModifierState, virtual_offset}
use yamy.ScanCodes.{ScanCode}
use yamy.Keymap.{KeyAssignment}
use yamy.ModifierKeys.Machine.{EventType}
use yamy.EventProcessor.{KeyCodes, EventProcessor, ProcessedEvent, Clock, process_event}
use yamy.Generator.Keys.{Keyboard, Output, generate_key_event}
use yamy.Generator.Actions.{
  Outcome, done, ◌>>=◌, Setting, Current, part_up, part_down, search_in_keymap,
  generate_key_seq_events,
}
use yamy.Engine.Modifiers.{Pressed, get_current_modifiers}

pub record Engine : Type 0 where
  pub output : Output
  pub modifier_state : ModifierState
  pub event_processor : Option EventProcessor
  pub pressed : Pressed

-- `hasActiveVirtualModifiers`
unfoldable pub has_active_virtual_modifiers : ModifierState → Bool
has_active_virtual_modifiers s = not (all_below 256 (λ i. not (s.bits (virtual_offset + i))))

-- `buildPhysicalModifiedKey`
unfoldable pub build_physical_modified_key : Engine → Current → ModifiedKey
build_physical_modified_key e c = record {
  modifier = get_current_modifiers e.pressed c.mkey.key (is_pressed c.mkey.modifier type_down);
  key = c.mkey.key;
  virtual_mods =
      λ w i. (ltb w 8 && ltb i 32) && e.modifier_state.bits (virtual_offset + (w * 32 + i));
}

-- The first scan code of a key, 0 without one.
abbrev pub first_code : List ScanCode → ℕ
first_code [] = 0
first_code (sc ∷ rest) = sc.scan

abbrev pub starts_with : ℕ → List ScanCode → Bool
starts_with yamy [] = false
starts_with yamy (sc ∷ rest) = sc.scan == yamy

-- The loop over the keys for the one with this first scan code.
unfoldable pub key_for_code : Keyboard → ℕ → Option ℕ
key_for_code kb yamy = find_if (λ k. starts_with yamy (kb.scan_codes k)) kb.all_keys

abbrev pub input_yamy : Keyboard → Option ℕ → ℕ
input_yamy kb none = 0
input_yamy kb (some k) = first_code (kb.scan_codes k)

-- The key that is injected for a processed event of the physical key; its modifiers are not used.
unfoldable pub output_key : Keyboard → Option ℕ → ProcessedEvent → Option ℕ
output_key kb key r =
    if (r.valid && not (r.output_yamy == 0)) && not (r.output_yamy == input_yamy kb key)
    then elim (key_for_code kb r.output_yamy) [ none ↦ key | some k ↦ some k ]
    else key

-- A press and a release of the key, if there is one.
unfoldable pub click : Keyboard → Option ℕ → Output → Output
click kb none s = s
click kb (some k) s = generate_key_event kb k false false (generate_key_event kb k true false s)

unfoldable pub inject_key : Keyboard → Option ℕ → Bool → Output → Output
inject_key kb none pressed s = s
inject_key kb (some k) pressed s = generate_key_event kb k pressed false s

-- What is injected for a processed event.
unfoldable pub inject_processed : Keyboard → Option ℕ → Bool → ProcessedEvent → Output → Output
inject_processed kb key pressed r s =
    if r.output_evdev == 0
    then s
    else (if r.is_tap && (r.valid && not (r.output_yamy == 0))
        then click kb (key_for_code kb r.output_yamy) s
        else inject_key kb (output_key kb key r) pressed s)

module _ (codes : KeyCodes) (setting : Setting) (exec : ℕ → Bool → Current → Output → Output)
    (by_keymaps : Current → Engine → Outcome Engine) where
  -- The part behind the early search.
  unfoldable pub by_processor :
      Option EventProcessor → Current → ℕ → Clock → Engine → Outcome Engine
  by_processor none c evdev_code clock e = by_keymaps c e
  by_processor (some p) c evdev_code clock e =
      let pressed = is_pressed c.mkey.modifier type_down in
      let r =
        process_event codes p (some e.modifier_state) evdev_code
          (if pressed then EventType.press else EventType.release) clock in
      if evdev_code == 0
      then by_keymaps c e
      else done (record e {
        event_processor = some r.processor;
        modifier_state = get_or e.modifier_state r.mod_state;
        output = inject_processed setting.keyboard c.mkey.key pressed r.value e.output;
      })

  unfoldable pub run_found :
      ℕ → Option KeyAssignment → Current → ℕ → Clock → Engine → Outcome Engine
  run_found fuel none c evdev_code clock e = by_processor e.event_processor c evdev_code clock e
  run_found fuel (some a) c evdev_code clock e =
      generate_key_seq_events setting exec fuel c a.key_seq
        (if is_pressed c.mkey.modifier type_down then part_down else part_up) e.output
      >>= λ s. done (record e { output = s })

  -- The early search, for keys that are no modifiers.
  unfoldable pub early_search : Current → Bool → Engine → Outcome (Option KeyAssignment)
  early_search c is_modifier e =
      if has_active_virtual_modifiers e.modifier_state && not is_modifier
      then search_in_keymap setting e.output.mode.current_keymap (build_physical_modified_key e c)
      else done none

  unfoldable pub begin_generating_keyboard_events :
      ℕ → Current → ℕ → Bool → Clock → Engine → Outcome Engine
  begin_generating_keyboard_events fuel c evdev_code is_modifier clock e =
      early_search c is_modifier e >>= λ found. run_found fuel found c evdev_code clock e
