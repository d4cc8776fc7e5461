-- ===== src/EventProcessor.antt =====
-- src/core/engine/engine_event_processor.cpp and .h: `EventProcessor`, which takes an evdev code
-- through three layers: to a YAMY scan code, through modifiers and rules, and back to evdev.
-- The journey records, the debug log and `m_journeyCallback` are left out. `m_lookupTable` is made by
-- the constructor and never replaced, so it is no option here.
pub mod Output
pub mod Activation
pub mod Held
pub mod Synced
use yamy.Base.{
  ℕ, ◌%◌, ◌≡◌, Bool, true, false, not, ◌&&◌, ◌||◌, Option, none, some, List, [], ◌∷◌, Assoc, leb,
  ◌==◌, if◌then◌else◌,
}
use yamy.ModifierState.{ModifierState, activate_modifier, deactivate_modifier}
use yamy.ModifierKeys.Table.{
  Handler, HardwareModifier, hw_lshift, hw_rshift, hw_lctrl, hw_rctrl, hw_lalt, hw_ralt, hw_lwin,
  hw_rwin, u8, handler_init, register_number_modifier, register_virtual_modifiers_from_map,
  register_virtual_modifier_trigger,
}
use yamy.ModifierKeys.Machine.{
  EventType, Reads, NumberKeyResult, ProcessingAction, not_a_number_modifier, waiting_for_threshold,
  apply_substitution_press, apply_substitution_release, process_number_key,
  check_and_activate_waiting_modifiers,
}
use yamy.ModifierKeys.Machine
use yamy.RuleTable.{RuleLookupTable, CompiledRule, find_match}

-- src/platform/linux/keycode_mapping.h, the ranges of codes that have no evdev code.
unfoldable pub is_virtual_key : ℕ → Bool
is_virtual_key code = leb 0xD000 code && leb code 0xDFFF

unfoldable pub is_modifier : ℕ → Bool
is_modifier code = leb 0xF000 code && leb code 0xF0FF

unfoldable pub is_lock : ℕ → Bool
is_lock code = leb 0xF100 code && leb code 0xF1FF

-- The two tables of src/platform/linux/keycode_mapping.cpp, as the processor calls them; 0 is
-- "not found".
pub record KeyCodes : Type 0 where
  pub evdev_to_yamy : ℕ → ℕ
  pub yamy_to_evdev : ℕ → ℕ

pub record EventProcessor : Type 0 where
  pub modifier_handler : Option Handler
  pub current_event_is_tap : Bool
  pub lookup_table : RuleLookupTable

pub record ProcessedEvent : Type 0 where
  pub output_evdev : ℕ
  pub output_yamy : ℕ
  pub type : EventType
  pub valid : Bool
  pub is_tap : Bool

-- The readings of the clock in one call of `processEvent`: one for each key that the check of
-- waiting modifiers looks at, and those of `processNumberKey`.
pub record Clock : Type 0 where
  pub checks : ℕ → ℕ
  pub reads : Reads

-- What a call leaves and returns.
pub record Outcome (A : Type 0) : Type 0 where
  pub processor : EventProcessor
  pub mod_state : Option ModifierState
  pub value : A

-- `Step 1`: the rule table, or the code itself.
unfoldable pub apply_rules : EventProcessor → Option ModifierState → ℕ → ℕ
apply_rules p none yamy_in = yamy_in
apply_rules p (some s) yamy_in = elim (find_match p.lookup_table yamy_in s.bits) [
  | none ↦ yamy_in
  | some rule ↦ rule.output_scan_code
]

-- The cast of `modifier_type` to a byte happens where it is passed on; `none` is negative.
unfoldable pub activate_type : ModifierState → Option ℕ → ModifierState
activate_type s none = s
activate_type s (some n) = activate_modifier s (u8 n)

unfoldable pub deactivate_type : ModifierState → Option ℕ → ModifierState
deactivate_type s none = s
deactivate_type s (some n) = deactivate_modifier s (u8 n)

abbrev pub outcome : {A : Type 0} → EventProcessor → Option ModifierState → A → Outcome A
outcome p s v = record { processor = p; mod_state = s; value = v }

-- A tap gives its code, or falls through to the rules where it has none.
unfoldable pub apply_tap : EventProcessor → ModifierState → NumberKeyResult → ℕ → Outcome ℕ
apply_tap p s r yamy_in =
    if not (r.output_yamy_code == 0)
    then outcome (record p { current_event_is_tap = true }) (some s) r.output_yamy_code
    else outcome p (some s) (apply_rules p (some s) yamy_in)

-- The `switch` on the action of `processNumberKey`, and what follows it.
unfoldable pub act_on :
    ProcessingAction → EventProcessor → ModifierState → NumberKeyResult → ℕ → Outcome ℕ
unfolding apply_tap activate_type deactivate_type
act_on Machine.not_a_number_modifier p s r yamy_in =
    outcome p (some s) (apply_rules p (some s) yamy_in)
act_on Machine.waiting_for_threshold p s r yamy_in = outcome p (some s) 0
act_on Machine.activate_modifier p s r yamy_in =
    outcome p (some (activate_type s r.modifier_type)) 0
act_on Machine.deactivate_modifier p s r yamy_in =
    outcome p (some (deactivate_type s r.modifier_type)) 0
act_on Machine.apply_substitution_press p s r yamy_in = apply_tap p s r yamy_in
act_on Machine.apply_substitution_release p s r yamy_in = apply_tap p s r yamy_in

abbrev set_handler : EventProcessor → Handler → EventProcessor
set_handler p h = record p { modifier_handler = some h }

unfoldable pub layer2_with :
    EventProcessor → Option Handler → Option ModifierState → ℕ → EventType → Reads → Outcome ℕ
layer2_with p (some h) (some s) yamy_in type now =
    let (h', r) = process_number_key h yamy_in type now in
    act_on r.action (set_handler p h') s r yamy_in
layer2_with p none s yamy_in type now = outcome p s (apply_rules p s yamy_in)
layer2_with p (some h) none yamy_in type now = outcome p none (apply_rules p none yamy_in)

unfoldable pub layer2_apply_substitution :
    EventProcessor → Option ModifierState → ℕ → EventType → Reads → Outcome ℕ
layer2_apply_substitution p s yamy_in type now = layer2_with p p.modifier_handler s yamy_in type now

unfoldable pub activate_all : List (ℕ × ℕ) → ModifierState → ModifierState
activate_all [] s = s
activate_all ((scancode, mod_num) ∷ rest) s = activate_all rest (activate_modifier s mod_num)

-- The check of waiting modifiers that `processEvent` begins with.
unfoldable pub check_with :
    EventProcessor
    → Option Handler
    → Option ModifierState
    → (ℕ → ℕ)
    → EventProcessor × Option ModifierState
check_with p (some h) (some s) now =
    let (h', to_activate) = check_and_activate_waiting_modifiers h now in
    (set_handler p h', some (activate_all to_activate s))
check_with p none s now = (p, s)
check_with p (some h) none now = (p, none)

abbrev invalid : EventType → ProcessedEvent
invalid type = record {
  output_evdev = 0;
  output_yamy = 0;
  type = type;
  valid = false;
  is_tap = false;
}

module _ (codes : KeyCodes) where
  unfoldable pub layer1_evdev_to_yamy : ℕ → ℕ
  layer1_evdev_to_yamy evdev = codes.evdev_to_yamy evdev

  unfoldable pub layer3_yamy_to_evdev : ℕ → ℕ
  layer3_yamy_to_evdev yamy =
      if is_virtual_key yamy || (is_modifier yamy || is_lock yamy)
      then 0
      else codes.yamy_to_evdev yamy

  -- `processEvent` behind the second layer.
  unfoldable pub finish : EventType → Outcome ℕ → Outcome ProcessedEvent
  finish type o =
      let output_evdev = layer3_yamy_to_evdev o.value in
      outcome o.processor o.mod_state (
        if output_evdev == 0 then invalid type else record {
          output_evdev = output_evdev;
          output_yamy = o.value;
          type = type;
          valid = true;
          is_tap = o.processor.current_event_is_tap;
        })

  unfoldable pub process_checked :
      EventProcessor × Option ModifierState → ℕ → EventType → Reads → Outcome ProcessedEvent
  process_checked (p, s) input_evdev type now =
      let yamy_l1 = layer1_evdev_to_yamy input_evdev in
      if yamy_l1 == 0
      then outcome p s (invalid type)
      else finish type (layer2_apply_substitution p s yamy_l1 type now)

  unfoldable pub process_event :
      EventProcessor → Option ModifierState → ℕ → EventType → Clock → Outcome ProcessedEvent
  process_event p s input_evdev type clock =
      let p' = record p { current_event_is_tap = false } in
      process_checked (check_with p' p'.modifier_handler s clock.checks) input_evdev type
        clock.reads

-- `registerNumberModifier`: the evdev code of the modifier key decides the modifier; a key that is
-- none of the eight is not registered.
unfoldable pub hardware_modifier : ℕ → Option HardwareModifier
hardware_modifier evdev =
    if evdev == 42
    then some hw_lshift
    else if evdev == 54
    then some hw_rshift
    else if evdev == 29
    then some hw_lctrl
    else if evdev == 97
    then some hw_rctrl
    else if evdev == 56
    then some hw_lalt
    else if evdev == 100
    then some hw_ralt
    else if evdev == 125
    then some hw_lwin
    else if evdev == 126
    then some hw_rwin
    else none

abbrev on_handler : EventProcessor → (Handler → Handler) → EventProcessor
on_handler p f = elim p.modifier_handler [ none ↦ p | some h ↦ set_handler p (f h) ]

unfoldable pub register_number : KeyCodes → EventProcessor → ℕ → ℕ → EventProcessor
unfolding hardware_modifier
register_number codes p yamy_scancode modifier_yamy_code =
    elim (hardware_modifier (codes.yamy_to_evdev modifier_yamy_code)) [
      | none ↦ p
      | some m ↦ on_handler p (λ h. register_number_modifier h yamy_scancode m)
    ]

unfoldable pub register_virtual_modifiers : EventProcessor → Assoc ℕ → EventProcessor
register_virtual_modifiers p mod_tap_actions =
    on_handler p (λ h. register_virtual_modifiers_from_map h mod_tap_actions)

unfoldable pub register_trigger : EventProcessor → ℕ → ℕ → ℕ → EventProcessor
register_trigger p trigger_key mod_num tap_output =
    on_handler p (λ h. register_virtual_modifier_trigger h trigger_key mod_num tap_output)

unfoldable pub processor_init : EventProcessor
processor_init = record {
  modifier_handler = some (handler_init 200);
  current_event_is_tap = false;
  lookup_table = record { buckets = [] };
}
