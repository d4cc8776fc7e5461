-- ===== src/ModifierKeys/Machine.antt =====
-- `processNumberKey` and `checkAndActivateWaitingModifiers` of
-- src/core/engine/modifier_key_handler.cpp.
-- Time is in nanoseconds. A call of `steady_clock::now()` is an argument: `Reads` holds the two
-- readings of one call of `processNumberKey`, in their order. Log lines are left out.
use yamy.Base.{
  ℕ, ◌-◌, ◌/◌, Bool, true, false, Option, none, some, List, [], ◌∷◌, Assoc, lookup, insert, ltb,
  leb, ◌==◌, if◌then◌else◌,
}
use yamy.ModifierKeys.Table.{
  KeyState, Handler, HardwareModifier, hw_none, hw_lshift, hw_rshift, hw_lctrl, hw_rctrl, hw_lalt,
  hw_ralt, hw_lwin, hw_rwin, NumberKeyState, idle, waiting, modifier_active, tap_detected,
}

-- `enum class EventType` of src/core/engine/engine_event_processor.h.
pub data EventType : Type 0 where
  release press repeat : EventType

pub data ProcessingAction : Type 0 where
  not_a_number_modifier activate_modifier deactivate_modifier : ProcessingAction
  apply_substitution_press apply_substitution_release waiting_for_threshold : ProcessingAction

pub record NumberKeyResult : Type 0 where
  pub action : ProcessingAction
  pub output_yamy_code : ℕ
  pub modifier_type : Option ℕ  -- `none` is -1
  pub valid : Bool

-- The constructors with three and with four arguments.
abbrev pub result : ProcessingAction → ℕ → Bool → NumberKeyResult
result a code v = record { action = a; output_yamy_code = code; modifier_type = none; valid = v }

abbrev pub result_for : ProcessingAction → ℕ → ℕ → Bool → NumberKeyResult
result_for a code mod_type v = record {
  action = a;
  output_yamy_code = code;
  modifier_type = some mod_type;
  valid = v;
}

abbrev pub not_mine : NumberKeyResult
not_mine = result not_a_number_modifier 0 false

abbrev pub keep_waiting : NumberKeyResult
keep_waiting = result waiting_for_threshold 0 false

pub record Reads : Type 0 where
  pub first : ℕ
  pub second : ℕ

unfoldable pub get_modifier_vk_code : HardwareModifier → ℕ
get_modifier_vk_code hw_lshift = 0xA0
get_modifier_vk_code hw_rshift = 0xA1
get_modifier_vk_code hw_lctrl = 0xA2
get_modifier_vk_code hw_rctrl = 0xA3
get_modifier_vk_code hw_lalt = 0xA4
get_modifier_vk_code hw_ralt = 0xA5
get_modifier_vk_code hw_lwin = 0x5B
get_modifier_vk_code hw_rwin = 0x5C
get_modifier_vk_code hw_none = 0

unfoldable pub has_exceeded_threshold : ℕ → ℕ → ℕ → Bool
has_exceeded_threshold hold_threshold_ms press_time now =
    leb hold_threshold_ms ((now - press_time) / 1000000)

unfoldable pub has_exceeded_maximum : ℕ → ℕ → Bool
has_exceeded_maximum press_time now = ltb 5 ((now - press_time) / 1000000000)

-- The result for a key that becomes active or stops being so.
unfoldable pub switch_result : ProcessingAction → KeyState → NumberKeyResult
switch_result a s =
    if s.is_virtual
    then result_for a 0 s.virtual_mod_num true
    else result a (get_modifier_vk_code s.target_modifier) true

unfoldable pub press_waiting : ℕ → Reads → KeyState → KeyState × NumberKeyResult
press_waiting hold_threshold_ms now s =
    if has_exceeded_maximum s.press_time now.first
    then (record s { state = idle }, not_mine)
    else if has_exceeded_threshold hold_threshold_ms s.press_time now.second
    then (record s { state = modifier_active }, switch_result activate_modifier s)
    else (s, keep_waiting)

-- The first reading is for the log line.
unfoldable pub release_waiting : ℕ → Reads → KeyState → KeyState × NumberKeyResult
release_waiting hold_threshold_ms now s =
    if has_exceeded_threshold hold_threshold_ms s.press_time now.second
    then (record s { state = idle }, keep_waiting)
    else if s.is_virtual
    then (
      record s { state = idle },
      if s.tap_output == 0
          then keep_waiting
          else result apply_substitution_release s.tap_output true,
    )
    else (record s { state = idle }, result apply_substitution_release 0 true)

-- The two `switch` statements; the last clause is the return behind them.
unfoldable pub dispatch :
    EventType → NumberKeyState → ℕ → Reads → KeyState → KeyState × NumberKeyResult
dispatch press idle thr now s = (record s { state = waiting; press_time = now.first }, keep_waiting)
dispatch press waiting thr now s = press_waiting thr now s
dispatch press modifier_active thr now s = (s, keep_waiting)
dispatch press tap_detected thr now s =
    (record s { state = waiting; press_time = now.first }, keep_waiting)
dispatch release idle thr now s = (s, not_mine)
dispatch release waiting thr now s = release_waiting thr now s
dispatch release modifier_active thr now s =
    (record s { state = idle }, switch_result deactivate_modifier s)
dispatch release tap_detected thr now s =
    (record s { state = idle }, result apply_substitution_release 0 true)
dispatch repeat _ thr now s = (s, not_mine)

unfoldable pub key_event : ℕ → EventType → Reads → KeyState → KeyState × NumberKeyResult
unfolding dispatch press_waiting release_waiting switch_result
key_event thr e now s = dispatch e s.state thr now s

unfoldable pub process_number_key : Handler → ℕ → EventType → Reads → Handler × NumberKeyResult
process_number_key h yamy_scancode event_type now = elim (lookup yamy_scancode h.key_states) [
  | none ↦ (h, not_mine)
  | some s ↦
      let (s', r) = key_event h.hold_threshold_ms event_type now s in
      (record h { key_states = insert yamy_scancode s' h.key_states }, r)
]

-- The loop body of `checkAndActivateWaitingModifiers` for one key, with the reading made for it.
unfoldable pub is_due : ℕ → ℕ → KeyState → Bool
is_due hold_threshold_ms now s = elim s.state [
  | waiting ↦ has_exceeded_threshold hold_threshold_ms s.press_time now
  | _ ↦ false
]

unfoldable pub check_entry : ℕ → ℕ → KeyState → KeyState
check_entry hold_threshold_ms now s =
    if is_due hold_threshold_ms now s then record s { state = modifier_active } else s

-- The keys to activate, each with its modifier: hardware modifiers are only marked active.
unfoldable pub due_modifiers : ℕ → (ℕ → ℕ) → Assoc KeyState → List (ℕ × ℕ)
due_modifiers thr now [] = []
due_modifiers thr now ((scancode, s) ∷ rest) =
    let tail = due_modifiers thr now rest in
    if is_due thr (now scancode) s
    then (if s.is_virtual then (scancode, s.virtual_mod_num) ∷ tail else tail)
    else tail

unfoldable pub check_entries : ℕ → (ℕ → ℕ) → Assoc KeyState → Assoc KeyState
check_entries thr now [] = []
check_entries thr now ((scancode, s) ∷ rest) =
    (scancode, check_entry thr (now scancode) s) ∷ check_entries thr now rest

-- `now k` is the reading of the clock made for key k.
unfoldable pub check_and_activate_waiting_modifiers : Handler → (ℕ → ℕ) → Handler × List (ℕ × ℕ)
check_and_activate_waiting_modifiers h now = (
  record h { key_states = check_entries h.hold_threshold_ms now h.key_states },
  due_modifiers h.hold_threshold_ms now h.key_states,
)
